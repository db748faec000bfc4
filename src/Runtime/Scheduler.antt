-- ===== src/Runtime/Scheduler.antt =====
-- crates/runtime/src/scheduler.rs: one callback frame on a thread, over the context that all frames
-- share and the thread's own slot for the App. The original is game code: it takes no part here but
-- for its calls; a callback that it makes on the same thread is a frame that finds the slot busy.
pub mod RunFrame
pub mod Calls
pub mod Ownership
pub mod Failure
pub mod Keeps
pub mod Tests
use shiny_song_tools.Prelude.{ℕ, Bool, true, false, Option, none, some, List, ◌∷◌}
use shiny_song_tools.Core.Gate.{RuntimeGate, close}
use shiny_song_tools.Core.Original.{OriginalPhase, calling_original, after_original}
use shiny_song_tools.Runtime.Handoff.{Handoff}

-- How a piece of the frame ends.
pub data Finish : Type 0 where
  finished unwound : Finish

-- The App as the scheduler uses it (crates/runtime/src/app.rs): a driver works on a borrow, so what
-- it has done stays done when it unwinds.
pub record AppDriver : Type 1 where
  pub App : Type 0
  pub startup_completed : App → Bool
  pub run_startup : App → App × Finish
  pub run_update : App → App × Finish

-- The compact events of a frame, and the drivers that it runs.
pub data Event : Type 0 where
  frame_entered thread_mismatch global_failure original_called original_returned : Event
  startup_run update_run : Event
  frame_done : Finish → OriginalPhase → Event

-- `AppSlot`, in thread-local storage.
pub data AppSlot (A : Type 0) : Type 0 where
  awaiting_handoff busy unavailable : AppSlot A
  running exited : A → AppSlot A

-- `SchedulerContext` with the slot of the thread, the Apps that `mem::forget` keeps alive, and what
-- happened, newest first.
pub record Context (A : Type 0) : Type 0 where
  pub handoff : Handoff A
  pub gate : RuntimeGate
  pub failed : Bool
  pub slot : AppSlot A
  pub retained : List A
  pub log : List Event

-- `SchedulerFrame`; `this` and `method` are passed on unchanged and have no part here.
pub record Frame (A : Type 0) : Type 0 where
  pub context : Context A
  pub app : Option A
  pub phase : OriginalPhase
  pub tls_committed : Bool

module _ {A : Type 0} where
  -- `emit_compact`, and the marks of the drivers.
  abbrev pub emit : Event → Context A → Context A
  emit e c = record c { log = e ∷ c.log }

  -- The gate is closed before `failed` is set.
  unfoldable pub publish_global_failure : Context A → Context A
  unfolding close
  publish_global_failure c = emit global_failure (record c { gate = close c.gate; failed = true })

  abbrev pub within : (Context A → Context A) → Frame A → Frame A
  within f fr = record fr { context = f fr.context }

  -- `call_original_once`: its guard is new at each call, so it always begins.
  unfoldable pub call_original_once : Frame A → Frame A
  call_original_once fr = record fr {
    context = emit original_returned (emit original_called fr.context);
    phase = after_original;
  }

  settled : A → Bool → AppSlot A
  settled a true = exited a
  settled a false = running a

  -- A slot that is not busy is an invariant break: the App is kept alive, out of reach.
  place : A → Bool → Context A → AppSlot A → Context A
  unfolding settled
  place a exit c busy = record c { slot = settled a exit }
  place a exit c other = record c { slot = unavailable; retained = a ∷ c.retained }

  unfoldable pub commit_tls : A → Bool → Context A → Context A
  unfolding place
  commit_tls a exit c = place a exit c c.slot
