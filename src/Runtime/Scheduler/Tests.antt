-- ===== src/Runtime/Scheduler/Tests.antt =====
-- Witnesses and tests of the scheduler frame.
use shiny_song_tools.Prelude.{ℕ, ◌+◌, ◌≡◌, refl, true, false, none, some, [], ltb, if◌then◌else◌}
use shiny_song_tools.Core.Gate.{RuntimeGate, is_open, is_closed}
use shiny_song_tools.Runtime.Handoff.{free}
use shiny_song_tools.Runtime.Scheduler.{
  finished, unwound, AppDriver, AppSlot, awaiting_handoff, running, Context,
}
use shiny_song_tools.Runtime.Scheduler.RunFrame.{run_frame}
use shiny_song_tools.Runtime.Scheduler.Calls.{calls, run_frame-calls}
use shiny_song_tools.Runtime.Scheduler.Ownership.{apps, run_frame-apps}
use shiny_song_tools.Runtime.Scheduler.Failure.{IsSound, Fails, run_frame-IsSound}

-- An App that counts its frames, and unwinds in the fourth.
abbrev counting : AppDriver
counting = record {
  App = ℕ;
  startup_completed = λ n. ltb 0 n;
  run_startup = λ n. (1, finished);
  run_update = λ n. (n + 1, if ltb n 3 then finished else unwound);
}

abbrev shut : RuntimeGate
shut = record { flag = false; control = 0 }

abbrev offered_app : Context ℕ
offered_app = record {
  handoff = record { lock = free; app = some 0 };
  gate = shut;
  failed = false;
  slot = awaiting_handoff;
  retained = [];
  log = [];
}

abbrev at_slot : AppSlot ℕ → Context ℕ
at_slot s = record offered_app {
  handoff = record { lock = free; app = none };
  gate = record { flag = true; control = 1 };
  slot = s;
}

first_frame :
    ((run_frame counting true offered_app).slot ≡ running 1)
    × ((run_frame counting true offered_app).gate.flag ≡ true)
unfolding run_frame
first_frame = (refl, refl)

run_frame-calls_example : calls (run_frame counting false offered_app).log ≡ 0 + 1
run_frame-calls_example = run_frame-calls counting false offered_app

run_frame-apps_example : apps (run_frame counting true (at_slot (running 3))) ≡ 1
run_frame-apps_example = run_frame-apps counting true (at_slot (running 3))

opens_first : is_open (run_frame counting true offered_app).gate ≡ true
unfolding run_frame is_open
opens_first = refl

shut-closed : is_open shut ≡ false
unfolding is_open
shut-closed = refl

offered_app-IsSound : IsSound offered_app
unfolding is_open is_closed
offered_app-IsSound = record { agrees = λ h. cc; shut = λ h. cc }

run_frame-IsSound_example : Fails false offered_app (run_frame counting false offered_app)
run_frame-IsSound_example = run_frame-IsSound counting false offered_app offered_app-IsSound

abbrev after_failure : Context ℕ
after_failure = record (at_slot (running 2)) {
  gate = record { flag = false; control = 2 };
  failed = true;
}

after_failure-shut : is_open after_failure.gate ≡ false
unfolding is_open
after_failure-shut = refl
