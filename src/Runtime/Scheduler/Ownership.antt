-- ===== src/Runtime/Scheduler/Ownership.antt =====
-- Where the App is.
use shiny_song_tools.Prelude.{
  ℕ, suc, ◌+◌, ◌≡◌, Bool, true, false, Option, none, some, List, [], ◌∷◌, arith, length,
}
use shiny_song_tools.Core.Gate.{is_open}
use shiny_song_tools.Runtime.Scheduler.{
  Finish, finished, unwound, AppDriver, Event, startup_run, Context, AppSlot, busy, unavailable,
  running, exited,
}
use shiny_song_tools.Runtime.Scheduler.RunFrame.{run_frame}
use shiny_song_tools.Runtime.Scheduler.Failure.{drivers}

abbrev pub offered : {A : Type 0} → Option A → ℕ
offered none = 0
offered (some a) = 1

abbrev pub seated : {A : Type 0} → AppSlot A → ℕ
seated (running a) = 1
seated (exited a) = 1
seated _ = 0

-- The Apps that exist between two frames.
abbrev pub apps : {A : Type 0} → Context A → ℕ
apps c = offered c.handoff.app + seated c.slot + length c.retained

-- No frame drops an App or makes one up, on any path, unwinding included.
pub run_frame-apps :
    (d : AppDriver) (on_main : Bool) (c : Context d.App) → apps (run_frame d on_main c) ≡ apps c
unfolding run_frame
run_frame-apps d on_main c = ground arith

-- A slot with no App for a frame to run.
abbrev pub idle_slot : {A : Type 0} → AppSlot A → Bool
idle_slot busy = true
idle_slot (exited a) = true
idle_slot unavailable = true
idle_slot _ = false

-- A frame that finds the slot busy (a nested callback), exited or unavailable passes the call through
-- and no more: on the main thread, with no failure published, it leaves the slot, the handoff, the
-- retained Apps, the gate and the failure flag as they are, and runs no driver.
pub run_frame_idle :
    (d : AppDriver) (c : Context d.App)
    → idle_slot c.slot ≡ true
    → c.failed ≡ false
    → let after = run_frame d true c in
      (after.slot ≡ c.slot)
      × (after.handoff ≡ c.handoff)
      × (after.retained ≡ c.retained)
      × (after.gate ≡ c.gate)
      × (after.failed ≡ false)
      × (drivers after.log ≡ drivers c.log)
unfolding run_frame
run_frame_idle d c h f = ground arith

-- What an update driver that ended so, on the App `b`, makes of a context.
abbrev pub Updated : {A : Type 0} → A → Context A → Context A → Finish → Type 0
Updated b c after finished =
    (after.slot ≡ running b)
    × (after.gate ≡ c.gate)
    × (after.failed ≡ false)
    × (after.retained ≡ c.retained)
Updated b c after unwound =
    (after.slot ≡ busy)
    × (after.retained ≡ b ∷ c.retained)
    × (after.failed ≡ true)
    × (is_open after.gate ≡ false)

-- The update of a running App on the main thread: if the driver returns, its App is back in the slot
-- and the gate is as it was; if it unwinds, the App is kept alive out of reach, the slot stays busy,
-- and the failure is published with the gate shut.
pub run_frame-Updated :
    (d : AppDriver) (c : Context d.App) (a b : d.App) (end : Finish)
    → c.slot ≡ running a
    → c.failed ≡ false
    → d.startup_completed a ≡ true
    → d.run_update a ≡ (b, end)
    → Updated b c (run_frame d true c) end
unfolding run_frame is_open
run_frame-Updated d c a b finished s f done e = ground arith
run_frame-Updated d c a b unwound s f done e = ground arith

abbrev pub starts : List Event → ℕ
starts [] = 0
starts (startup_run ∷ es) = suc (starts es)
starts (e ∷ es) = starts es

abbrev pub is_running : {A : Type 0} → AppSlot A → Bool
is_running (running a) = true
is_running _ = false

-- A frame opens the gate only by running a startup driver to its end: on the main thread, with no
-- failure published before or by it, and with the App in the slot as running.
pub run_frame-opens :
    (d : AppDriver) (on_main : Bool) (c : Context d.App)
    → is_open c.gate ≡ false
    → is_open (run_frame d on_main c).gate ≡ true
    → let after = run_frame d on_main c in
      (on_main ≡ true)
      × (c.failed ≡ false)
      × (after.failed ≡ false)
      × (starts after.log ≡ starts c.log + 1)
      × (is_running after.slot ≡ true)
unfolding run_frame is_open
run_frame-opens d on_main c shut opened = ground arith
