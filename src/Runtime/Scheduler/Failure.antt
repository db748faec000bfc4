-- ===== src/Runtime/Scheduler/Failure.antt =====
-- What a failure does to a frame and to those after it.
use shiny_song_tools.Prelude.{
  ℕ, suc, ◌≡◌, sym, subst, Bool, true, false, List, [], ◌∷◌, arith, Bool-cases, inl, inr,
}
use shiny_song_tools.Core.Gate.{is_open, is_closed}
use shiny_song_tools.Runtime.Scheduler.{AppDriver, Event, startup_run, update_run, Context}
use shiny_song_tools.Runtime.Scheduler.RunFrame.{run_frame}

abbrev pub drivers : List Event → ℕ
drivers [] = 0
drivers (startup_run ∷ es) = suc (drivers es)
drivers (update_run ∷ es) = suc (drivers es)
drivers (e ∷ es) = drivers es

-- A published failure comes with a gate that is shut for good.
pub record IsSound {A : Type 0} (c : Context A) : Type 0 where
  pub agrees : is_open c.gate ≡ true → is_closed c.gate ≡ false
  pub shut : c.failed ≡ true → is_closed c.gate ≡ true

frame-IsSound :
    (d : AppDriver) (on_main : Bool) (c : Context d.App)
    → IsSound c
    → IsSound (run_frame d on_main c)
unfolding run_frame is_open is_closed
frame-IsSound d on_main c v = ground arith

frame_closed :
    (d : AppDriver) (on_main : Bool) (c : Context d.App)
    → is_closed c.gate ≡ true
    → is_closed (run_frame d on_main c).gate ≡ true
unfolding run_frame is_closed
frame_closed d on_main c h = ground (arith, h)

-- Once a failure is published, with the gate shut, it stays so: no frame runs a driver or opens the
-- gate.
pub run_frame_failed :
    (d : AppDriver) (on_main : Bool) (c : Context d.App)
    → c.failed ≡ true
    → is_open c.gate ≡ false
    → ((run_frame d on_main c).failed ≡ true)
      × (drivers (run_frame d on_main c).log ≡ drivers c.log)
      × (is_open (run_frame d on_main c).gate ≡ false)
unfolding run_frame is_open
run_frame_failed d on_main c h shut = ground arith

-- The failure is published with the gate shut for good, no driver ran and the handoff is as it was.
abbrev pub Publishes : {A : Type 0} → Context A → Context A → Type 0
Publishes c after =
    (after.failed ≡ true)
    × (is_closed after.gate ≡ true)
    × (is_open after.gate ≡ false)
    × (drivers after.log ≡ drivers c.log)
    × (after.handoff ≡ c.handoff)

run_frame_off_main :
    (d : AppDriver) (c : Context d.App) → c.failed ≡ false → Publishes c (run_frame d false c)
unfolding run_frame is_closed is_open
run_frame_off_main d c h = ground arith

-- What a frame does to a context.
abbrev pub Fails : {A : Type 0} → Bool → Context A → Context A → Type 0
Fails on_main c after =
    IsSound after
    × (is_closed c.gate ≡ true → is_closed after.gate ≡ true)
    × (c.failed ≡ true
        → (after.failed ≡ true)
          × (drivers after.log ≡ drivers c.log)
          × (is_open after.gate ≡ false))
    × (on_main ≡ false → c.failed ≡ false → Publishes c after)

-- A frame that runs alone, on the main thread or not, on any drivers, also those that unwind, and from a
-- context whose open gate is not closed and whose published failure comes with a closed gate: this is
-- so after it too, a gate that was closed stays closed, and where a failure was published before, the
-- failure stays, no driver runs and the gate is not open. Where none was published before, a frame off
-- the main thread publishes one: the gate is closed for good, no driver runs and no App leaves the handoff.
pub run_frame-IsSound :
    (d : AppDriver) (on_main : Bool) (c : Context d.App)
    → IsSound c
    → Fails on_main c (run_frame d on_main c)
run_frame-IsSound d on_main c v = (
  frame-IsSound d on_main c v,
  frame_closed d on_main c,
  λ f. run_frame_failed d on_main c f (shut_gate (v.shut f)),
  off_main on_main,
)
  where
    off_main : (b : Bool) → b ≡ false → c.failed ≡ false → Publishes c (run_frame d b c)
    off_main b e fresh =
        subst (λ x. Publishes c (run_frame d x c)) (sym e) (run_frame_off_main d c fresh)

    shut_gate : is_closed c.gate ≡ true → is_open c.gate ≡ false
    shut_gate shut = elim (Bool-cases (is_open c.gate)) [
      | inl o ↦ absurd (ground (arith, shut, v.agrees o))
      | inr o ↦ o
    ]
