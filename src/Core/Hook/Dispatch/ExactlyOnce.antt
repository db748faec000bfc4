-- ===== src/Core/Hook/Dispatch/ExactlyOnce.antt =====
-- How often a dispatch calls the original, whatever the handler does.
use shiny_song_tools.Prelude.{
  ℕ, ◌≡◌, ◌⊎◌, inl, inr, refl, Bool-cases, true, false, not, ◌||◌, none, some, List, ◌∷◌, arith,
}
use shiny_song_tools.Core.Gate.{is_open}
use shiny_song_tools.Core.Original.{
  OriginalPhase, before_original, calling_original, after_original, end_call,
}
use shiny_song_tools.Core.MethodSlot.{SlotMemory}
use shiny_song_tools.Core.Hook.{SiteInner, HookSite, is_live}
use shiny_song_tools.Core.Hook.Dispatch.{
  Outcome, returned, panicked, Call, original_at, fallback_call, Handler, done, panic,
  call_original, Outside, run_original, run_fallback, answer, guarded_call, run_handler, settle,
  enter, dispatch,
}

-- The phase tells whether the original is in the log since `start`.
abbrev Counted : ℕ → List Call → OriginalPhase → List Call → Type 0
Counted addr start before_original log = log ≡ start
Counted addr start calling_original log = log ≡ original_at addr ∷ start
Counted addr start after_original log = log ≡ original_at addr ∷ start

-- One call of the original, and perhaps the fallback after it.
abbrev pub Once : ℕ → List Call → List Call → Type 0
Once addr start log =
    (log ≡ original_at addr ∷ start) ⊎ (log ≡ fallback_call ∷ original_at addr ∷ start)

module _ {R : Type 0} (out : Outside R) where
  answer-Counted :
      (addr : ℕ) (start : List Call) (r : Outcome R × List Call)
      → r.1 ≡ original_at addr ∷ start
      → let (reply, phase, log) = answer out calling_original r in Counted addr start phase log
  unfolding answer end_call
  answer-Counted addr start (returned v, log) h = h
  answer-Counted addr start (panicked, log) h = h

  guarded_call-Counted :
      (addr : ℕ) (start : List Call) (phase : OriginalPhase) (log : List Call)
      → Counted addr start phase log
      → let (reply, phase', log') = guarded_call out addr phase log in
        Counted addr start phase' log'
  unfolding guarded_call run_original
  guarded_call-Counted addr start before_original log h =
      answer-Counted addr start (out.original addr log, original_at addr ∷ log) (rw h)
  guarded_call-Counted addr start calling_original log h = h
  guarded_call-Counted addr start after_original log h = h

  run_handler-Counted :
      (addr : ℕ) (start : List Call) (h : Handler R) (phase : OriginalPhase) (log : List Call)
      → Counted addr start phase log
      → let (o, phase', log') = run_handler out addr h phase log in Counted addr start phase' log'
  unfolding run_handler
  run_handler-Counted addr start (done v) phase log c = c
  run_handler-Counted addr start panic phase log c = c
  run_handler-Counted addr start (call_original k) phase log c =
      let (reply, phase', log') = guarded_call out addr phase log in
      run_handler-Counted addr start (k reply) phase' log'
        (guarded_call-Counted addr start phase log c)

  settle-Once :
      (addr : ℕ) (start : List Call) (o : Outcome R) (phase : OriginalPhase) (log : List Call)
      → Counted addr start phase log
      → Once addr start (settle out addr (o, phase, log)).1
  unfolding settle run_original run_fallback
  settle-Once addr start (returned v) before_original log c = inl (rw c)
  settle-Once addr start (returned v) calling_original log c = inl c
  settle-Once addr start (returned v) after_original log c = inl c
  settle-Once addr start panicked before_original log c = inl (rw c)
  settle-Once addr start panicked calling_original log c = inr (rw c)
  settle-Once addr start panicked after_original log c = inr (rw c)

  enter-Once :
      (inner : SiteInner) (h : Handler R) (log : List Call)
      → Once inner.original_addr log (enter out inner h log).1
  unfolding enter run_original is_open
  enter-Once inner h log =
      elim (Bool-cases (not (is_open inner.gates.runtime) || not (is_open inner.gates.plugin))) [
        | inl e ↦ rw e (inl refl)
        | inr e ↦
            let (o, phase, log') = run_handler out inner.original_addr h before_original log in
            rw e (
              settle-Once inner.original_addr log o phase log'
                (run_handler-Counted inner.original_addr log h before_original log refl))
      ]

  -- Where the slot holds this site's replacement and the original was captured, a dispatch calls
  -- the original exactly once, whatever the gates say and whatever the handler does (return, panic,
  -- call it often or never); the fallback may only come after it.
  pub dispatch-Once :
      (m : SlotMemory) (s : m.State) (inner : SiteInner) (h : Handler R) (log : List Call)
      → is_live m s (some inner) ≡ true
      → Once inner.original_addr log (dispatch out m s (some inner) h log).1
  unfolding dispatch is_live
  dispatch-Once m s inner h log live = ground (arith, enter-Once inner h log)

  -- Where the site is not published, not active, without a captured original, or the slot holds
  -- another value, a dispatch only runs the fallback.
  pub dispatch_skips :
      (m : SlotMemory) (s : m.State) (site : HookSite) (h : Handler R) (log : List Call)
      → is_live m s site ≡ false
      → dispatch out m s site h log ≡ (out.fallback log, fallback_call ∷ log)
  unfolding dispatch is_live run_fallback
  dispatch_skips m s none h log dead = refl
  dispatch_skips m s (some inner) h log dead = ground arith
