-- ===== src/Runtime/Scheduler/Calls.antt =====
-- How often a frame calls the original.
use shiny_song_tools.Prelude.{ℕ, suc, ◌+◌, ◌≡◌, Bool, List, [], ◌∷◌, arith}
use shiny_song_tools.Runtime.Scheduler.{AppDriver, Event, original_called, Context}
use shiny_song_tools.Runtime.Scheduler.RunFrame.{run_frame}

abbrev pub calls : List Event → ℕ
calls [] = 0
calls (original_called ∷ es) = suc (calls es)
calls (e ∷ es) = calls es

-- Every frame calls the original exactly once: with a failure published or not, on the main thread
-- or not, with or without an App, and whether or not a driver unwinds.
pub run_frame-calls :
    (d : AppDriver) (on_main : Bool) (c : Context d.App)
    → calls (run_frame d on_main c).log ≡ calls c.log + 1
unfolding run_frame
run_frame-calls d on_main c = ground arith
