-- ===== src/Core/Hook/Dispatch.antt =====
-- `HookSite::dispatch` and `Callback::call_original`.
pub mod ExactlyOnce
pub mod Gates
use shiny_song_tools.Prelude.{
  ℕ, Bool, true, false, not, ◌||◌, Option, none, some, List, ◌∷◌, ◌==◌, if◌then◌else◌,
}
use shiny_song_tools.Core.Gate.{is_open}
use shiny_song_tools.Core.Original.{
  OriginalPhase, before_original, calling_original, after_original, needs_original, begin_call,
  end_call,
}
use shiny_song_tools.Core.MethodSlot.{SlotMemory}
use shiny_song_tools.Core.Hook.{ActiveHook, SiteInner, HookSite, owns}

-- How a call of unknown code ends.
pub data Outcome (R : Type 0) : Type 0 where
  returned : R → Outcome R
  panicked : Outcome R

-- The calls that leave the framework, newest first.
pub data Call : Type 0 where
  original_at : ℕ → Call
  fallback_call : Call

-- What `call_original` gives the handler: `None`, the value, or an unwind that passes through it.
pub data Reply (R : Type 0) : Type 0 where
  refused : Reply R
  value : R → Reply R
  unwound : Reply R

-- A handler: it ends, panics, or calls the original and goes on with the reply.
pub data Handler (R : Type 0) : Type 0 where
  done : R → Handler R
  panic : Handler R
  call_original : (Reply R → Handler R) → Handler R

-- The original and the author's fallback are code that is not here: each is an outcome for each
-- history of calls.
pub record Outside (R : Type 0) : Type 0 where
  pub original : ℕ → List Call → Outcome R
  pub fallback : List Call → Outcome R

module _ {R : Type 0} (out : Outside R) where
  unfoldable pub run_original : ℕ → List Call → Outcome R × List Call
  run_original addr log = (out.original addr log, original_at addr ∷ log)

  unfoldable pub run_fallback : List Call → Outcome R × List Call
  run_fallback log = (out.fallback log, fallback_call ∷ log)

  -- The call inside the guard: only a normal return ends the phase.
  answer : OriginalPhase → Outcome R × List Call → Reply R × OriginalPhase × List Call
  unfolding end_call
  answer phase (returned v, log) = (value v, end_call phase, log)
  answer phase (panicked, log) = (unwound, phase, log)

  begun : ℕ → List Call → OriginalPhase × Bool → Reply R × OriginalPhase × List Call
  unfolding answer run_original
  begun addr log (phase, true) = answer phase (run_original addr log)
  begun addr log (phase, false) = (refused, phase, log)

  unfoldable pub guarded_call : ℕ → OriginalPhase → List Call → Reply R × OriginalPhase × List Call
  unfolding begun begin_call
  guarded_call addr phase log = begun addr log (begin_call phase)

  unfoldable pub run_handler :
      ℕ → Handler R → OriginalPhase → List Call → Outcome R × OriginalPhase × List Call
  unfolding guarded_call
  run_handler addr (done v) phase log = (returned v, phase, log)
  run_handler addr panic phase log = (panicked, phase, log)
  run_handler addr (call_original k) phase log =
      let (reply, phase', log') = guarded_call addr phase log in
      run_handler addr (k reply) phase' log'

  -- The match on the outcome of `catch_unwind`.
  settle : ℕ → Outcome R × OriginalPhase × List Call → Outcome R × List Call
  unfolding run_original run_fallback needs_original
  settle addr (returned v, phase, log) =
      if needs_original phase then run_original addr log else (returned v, log)
  settle addr (panicked, before_original, log) = run_original addr log
  settle addr (panicked, calling_original, log) = run_fallback log
  settle addr (panicked, after_original, log) = run_fallback log

  unfoldable pub enter : SiteInner → Handler R → List Call → Outcome R × List Call
  unfolding settle run_handler run_original is_open
  enter inner handler log =
      if not (is_open inner.gates.runtime) || not (is_open inner.gates.plugin)
      then run_original inner.original_addr log
      else settle inner.original_addr (run_handler inner.original_addr handler before_original log)

  module _ (m : SlotMemory) where
    unfoldable pub dispatch : m.State → HookSite → Handler R → List Call → Outcome R × List Call
    unfolding enter run_fallback owns
    dispatch s none handler log = run_fallback log
    dispatch s (some inner) handler log =
        if owns m s inner.active
        then (if inner.original_addr == 0 then run_fallback log else enter inner handler log)
        else run_fallback log
