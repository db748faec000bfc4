-- ===== src/Runtime/Process.antt =====
-- The process after the bootstrap: the frames of crates/runtime/src/scheduler.rs over the App of
-- crates/runtime/src/app.rs, from the context that crates/runtime/src/bootstrap.rs publishes.
pub mod Managed
pub mod Tests
use shiny_song_tools.Prelude.{ℕ, zero, suc, true, false, List, [], ◌∷◌}
use shiny_song_tools.Runtime.Host.{WorldOps}
use shiny_song_tools.Runtime.App.{Services, App}
use shiny_song_tools.Runtime.App.Startup.{run_startup}
use shiny_song_tools.Runtime.App.Update.{run_update}
use shiny_song_tools.Runtime.Scheduler.{finished, AppDriver, Context, AppSlot, awaiting_handoff}
use shiny_song_tools.Runtime.Scheduler.RunFrame.{run_frame}

-- The thread of a call of the hooked method.
pub data Thread : Type 0 where
  main_thread : Thread
  other_thread : ℕ → Thread

module _ {A : Type 0} where
  unfoldable pub slot_at : ℕ → List (AppSlot A) → AppSlot A
  slot_at n [] = awaiting_handoff
  slot_at zero (x ∷ xs) = x
  slot_at (suc n) (x ∷ xs) = slot_at n xs

  unfoldable pub put_at : ℕ → AppSlot A → List (AppSlot A) → List (AppSlot A)
  put_at zero y [] = y ∷ []
  put_at zero y (x ∷ xs) = y ∷ xs
  put_at (suc n) y [] = awaiting_handoff ∷ put_at n y []
  put_at (suc n) y (x ∷ xs) = x ∷ put_at n y xs

module _ (ops : WorldOps) {P : Type 0} (services : Services ops.World P) where
  -- The drivers as the frames use them: a panic of a plugin's code is caught inside them.
  abbrev pub app_driver : AppDriver
  app_driver = record {
    App = App ops.World P;
    startup_completed = λ a. a.startup_completed;
    run_startup = λ a. ((run_startup ops services a).0, finished);
    run_update = λ a. ((run_update ops services a).0, finished);
  }

  -- The context with the slot of the main thread, and the slots of the other threads by their numbers:
  -- `APP_SLOT` is in thread-local storage. A thread beyond the list has not run a frame yet.
  pub record Process : Type 0 where
    pub context : Context (App ops.World P)
    pub others : List (AppSlot (App ops.World P))

  -- The context as a frame on the other thread `n` sees it.
  abbrev pub seen_by : ℕ → Process → Context (App ops.World P)
  seen_by n p = record p.context { slot = slot_at n p.others }

  -- After a frame on the other thread `n`, which left the context `c` there.
  abbrev pub put_by : ℕ → Context (App ops.World P) → Process → Process
  put_by n c p = record {
    context = record c { slot = p.context.slot };
    others = put_at n c.slot p.others;
  }

  unfoldable pub run_on : Thread → Process → Process
  unfolding run_frame
  run_on main_thread p = record p { context = run_frame app_driver true p.context }
  run_on (other_thread n) p = put_by n (run_frame app_driver false (seen_by n p)) p

  -- One frame for each call of the hooked method.
  unfoldable pub run_frames : List Thread → Process → Process
  unfolding run_on
  run_frames [] p = p
  run_frames (t ∷ ts) p = run_frames ts (run_on t p)

  -- The process as the bootstrap leaves it.
  abbrev pub begun : Context (App ops.World P) → Process
  begun c = record { context = c; others = [] }
