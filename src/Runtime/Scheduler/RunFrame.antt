-- ===== src/Runtime/Scheduler/RunFrame.antt =====
-- `SchedulerFrame::execute`, its drop, and `SchedulerContext::run_frame`.
use shiny_song_tools.Prelude.{Bool, true, false, not, Option, none, some, ◌∷◌, if◌then◌else◌}
use shiny_song_tools.Core.Gate.{open_gate}
use shiny_song_tools.Core.Original.{OriginalPhase, before_original, after_original}
use shiny_song_tools.Runtime.Handoff.{Handoff, HandoffTake, ready, pending, failed, try_take}
use shiny_song_tools.Runtime.Scheduler.{
  Finish, finished, unwound, AppDriver, frame_entered, thread_mismatch, startup_run, update_run,
  frame_done, AppSlot, awaiting_handoff, busy, unavailable, running, exited, Context, Frame, emit,
  publish_global_failure, within, call_original_once, commit_tls,
}

module _ {A : Type 0} where
  -- What `try_take` gave, at a slot that awaits the handoff.
  unfoldable pub receive : Frame A → Handoff A × HandoffTake A → Frame A
  unfolding publish_global_failure
  receive fr (h, ready a) = record fr {
    context = record fr.context { handoff = h; slot = busy };
    app = some a;
  }
  receive fr (h, pending) = record fr { context = record fr.context { handoff = h } }
  receive fr (h, failed) = record fr {
    context = publish_global_failure (record fr.context { handoff = h; slot = unavailable });
  }

  claim : Frame A → AppSlot A → Frame A
  unfolding receive try_take
  claim fr awaiting_handoff = receive fr (try_take fr.context.handoff)
  claim fr (running a) = record fr { context = record fr.context { slot = busy }; app = some a }
  claim fr busy = fr
  claim fr (exited a) = fr
  claim fr unavailable = fr

  unfoldable pub claim_app : Frame A → Frame A
  unfolding claim
  claim_app fr = claim fr fr.context.slot

  -- `commit_phase_after_failed_frame`.
  unfoldable pub pass_through : Frame A → Frame A
  unfolding call_original_once
  pass_through fr = record (call_original_once fr) { phase = after_original }

  -- `self.app.take()` and `commit_tls`.
  unfoldable pub hand_back : Bool → Frame A → Frame A
  unfolding commit_tls
  hand_back exit fr = elim fr.app [
    | none ↦ fr
    | some a ↦ record fr { context = commit_tls a exit fr.context; app = none }
  ]

  -- Step 1: the failure was published before this frame.
  unfoldable pub execute_failed : Frame A → Frame A
  unfolding hand_back claim_app pass_through
  execute_failed fr = pass_through (hand_back true (claim_app fr))

  unavail : AppSlot A → AppSlot A
  unavail awaiting_handoff = unavailable
  unavail other = other

  -- Step 2: the thread is not the main thread.
  unfoldable pub execute_mismatch : Frame A → Frame A
  unfolding unavail publish_global_failure pass_through
  execute_mismatch fr =
      let c = publish_global_failure (emit thread_mismatch fr.context) in
      pass_through (record fr { context = record c { slot = unavail c.slot } })

  -- Steps 5 and 6.
  unfoldable pub finish : Frame A → Frame A
  unfolding call_original_once hand_back
  finish fr =
      let called = call_original_once fr in
      record (hand_back called.context.failed called) { tls_committed = true }

module _ (d : AppDriver) where
  open d use {App, startup_completed, run_startup, run_update}

  -- Step 4 at the first frame: the gate is opened last.
  after_startup : Frame App → App × Finish → Frame App × Finish
  unfolding open_gate finish
  after_startup fr (a, finished) =
      let opened = record fr.context { gate = (open_gate fr.context.gate).0 } in
      (finish (record fr { context = emit startup_run opened; app = some a }), finished)
  after_startup fr (a, unwound) =
      (record fr { context = emit startup_run fr.context; app = some a }, unwound)

  after_update : Frame App → App × Finish → Frame App × Finish
  unfolding finish
  after_update fr (a, finished) =
      (finish (record fr { context = emit update_run fr.context; app = some a }), finished)
  after_update fr (a, unwound) =
      (record fr { context = emit update_run fr.context; app = some a }, unwound)

  drive : Frame App → Option App → Frame App × Finish
  unfolding after_startup after_update pass_through
  drive fr none = (pass_through fr, finished)
  drive fr (some a) =
      if not (startup_completed a)
      then after_startup fr (run_startup a)
      else after_update fr (run_update a)

  -- Steps 3 to 6.
  unfoldable pub execute_main : Frame App → Frame App × Finish
  unfolding drive claim_app
  execute_main fr = let claimed = claim_app fr in drive claimed claimed.app

  unfoldable pub execute : Bool → Frame App → Frame App × Finish
  unfolding execute_failed execute_mismatch execute_main
  execute on_main fr =
      if fr.context.failed
      then (execute_failed fr, finished)
      else (if not on_main then (execute_mismatch fr, finished) else execute_main fr)

  -- `Drop`: an App that was not committed is kept alive, after the failure is published.
  unfoldable pub drop_frame : Frame App → Context App
  unfolding publish_global_failure
  drop_frame fr = if fr.tls_committed then fr.context else elim fr.app [
    | none ↦ fr.context
    | some a ↦ let c = publish_global_failure fr.context in record c { retained = a ∷ c.retained }
  ]

  compensate : OriginalPhase → Frame App → Frame App
  unfolding call_original_once
  compensate before_original fr = call_original_once fr
  compensate other fr = fr

  -- The match on the outcome of `catch_unwind`.
  conclude : Frame App × Finish → Context App
  unfolding drop_frame compensate publish_global_failure
  conclude (fr, finished) = drop_frame (within (emit (frame_done finished fr.phase)) fr)
  conclude (fr, unwound) =
      let published = within publish_global_failure fr in
      emit (frame_done unwound fr.phase) (drop_frame (compensate published.phase published))

  unfoldable pub run_frame : Bool → Context App → Context App
  unfolding conclude execute
  run_frame on_main c = conclude (
      execute on_main (record {
        context = emit frame_entered c;
        app = none;
        phase = before_original;
        tls_committed = false;
      }))
