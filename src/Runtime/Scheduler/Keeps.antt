-- ===== src/Runtime/Scheduler/Keeps.antt =====
-- crates/runtime/src/scheduler.rs: what the drivers keep of an App, the frames keep.
use shiny_song_tools.Prelude.{
  ◌≡◌, Bool, true, false, Option, none, some, List, arith, All, Bool-cases, inl, inr,
}
use shiny_song_tools.Core.Gate.{RuntimeGate}
use shiny_song_tools.Runtime.Handoff.{Lock}
use shiny_song_tools.Runtime.Scheduler.{
  AppDriver, Event, Context, AppSlot, awaiting_handoff, busy, unavailable, running, exited,
}
use shiny_song_tools.Runtime.Scheduler.RunFrame.{run_frame}

module _ (d : AppDriver) (Q : d.App → Type 0) where
  abbrev pub Offers : Option d.App → Type 0
  Offers none = Unit
  Offers (some a) = Q a

  abbrev pub Seats : AppSlot d.App → Type 0
  Seats (running a) = Q a
  Seats (exited a) = Q a
  Seats _ = Unit

  -- Every App of the context is such.
  abbrev pub Holds : Context d.App → Type 0
  Holds c = Offers c.handoff.app × Seats c.slot × All Q c.retained

  module _ (starts : (a : d.App) → Q a → d.startup_completed a ≡ false → Q (d.run_startup a).0)
      (updates : (a : d.App) → Q a → d.startup_completed a ≡ true → Q (d.run_update a).0) where
    frame-Holds :
        (on_main : Bool) (lock : Lock) (app : Option d.App) (gate : RuntimeGate) (failed : Bool)
        (slot : AppSlot d.App) (retained : List d.App) (log : List Event)
        → Offers app
        → Seats slot
        → All Q retained
        → Holds (
            run_frame d on_main (record {
              handoff = record { lock = lock; app = app };
              gate = gate;
              failed = failed;
              slot = slot;
              retained = retained;
              log = log;
            }))
    unfolding run_frame
    frame-Holds on_main lock (some a) gate failed awaiting_handoff retained log o s h =
        elim (Bool-cases (d.startup_completed a)) [
          | inl t ↦ let q = updates a o t in ground (arith, o, h, t, q)
          | inr t ↦ let q = starts a o t in ground (arith, o, h, t, q)
        ]
    frame-Holds on_main lock none gate failed awaiting_handoff retained log o s h =
        ground (arith, h)
    frame-Holds on_main lock app gate failed (running a) retained log o s h =
        elim (Bool-cases (d.startup_completed a)) [
          | inl t ↦ let q = updates a s t in ground (arith, o, s, h, t, q)
          | inr t ↦ let q = starts a s t in ground (arith, o, s, h, t, q)
        ]
    frame-Holds on_main lock app gate failed busy retained log o s h = ground (arith, o, h)
    frame-Holds on_main lock app gate failed unavailable retained log o s h = ground (arith, o, h)
    frame-Holds on_main lock app gate failed (exited a) retained log o s h = ground (arith, o, s, h)

    pub run_frame-Holds :
        (on_main : Bool) (c : Context d.App) → Holds c → Holds (run_frame d on_main c)
    run_frame-Holds on_main c h =
        frame-Holds on_main c.handoff.lock c.handoff.app c.gate c.failed c.slot c.retained c.log h.0
          h.1 h.2
