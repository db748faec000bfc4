-- ===== src/Runtime/Process/Tests.antt =====
-- A bootstrap and three frames.
use shiny_song_tools.Prelude.{ℕ, ◌≡◌, refl, true, false, Option, none, some, List, [], ◌∷◌, arith}
use shiny_song_tools.Runtime.App.Tests.{world_ops}
use shiny_song_tools.Runtime.App.{App}
use shiny_song_tools.Runtime.App.Build.{settle_build, run_build, insert_resource_dyn}
use shiny_song_tools.Runtime.Bootstrap.Publish.{
  Published, SchedulerHook, Outcome, panicked, new_context,
}
use shiny_song_tools.Runtime.Bootstrap.Run.{run_bootstrap_with_readiness_wait}
use shiny_song_tools.Runtime.Bootstrap.Run.Tests.{Outside, deps}
use shiny_song_tools.Runtime.Bootstrap.Run.Endings.{enabled_names}
use shiny_song_tools.Runtime.Process.{main_thread, other_thread, run_frames, begun}
use shiny_song_tools.Runtime.Process.Managed.{IsKept, all_apps, run_frames-Holds}

abbrev outside : Outside
outside = record { time = 0; word = 5 }

abbrev outcome_or : Option (Outcome (List ℕ) Outside) → Outcome (List ℕ) Outside
outcome_or none = record {
  ending = panicked;
  scheduler = none;
  dropped = none;
  attempt = record {
    outside = outside;
    calls = [];
    attached = false;
    gate = record { flag = false; control = 0 };
  };
}
outcome_or (some o) = o

abbrev outcome : Outcome (List ℕ) Outside
outcome = outcome_or (run_bootstrap_with_readiness_wait world_ops deps none 6 10 2 outside)

abbrev hook : SchedulerHook
hook = record { slot = record { original = 5 }; original = 5; replacement = 9; installed = true }

abbrev published_or : Option (Published (App (List ℕ) Outside)) → Published (App (List ℕ) Outside)
published_or none = new_context hook (record { flag = false; control = 0 })
published_or (some c) = c

abbrev published : Published (App (List ℕ) Outside)
published = published_or outcome.scheduler

run_frames-Holds_example :
    let p =
      run_frames world_ops deps.services
        (main_thread ∷ other_thread 2 ∷ main_thread ∷ [])
        (begun world_ops deps.services published.context) in
    IsKept world_ops deps.services (enabled_names world_ops deps) p
    × (all_apps world_ops deps.services p ≡ 1)
unfolding run_bootstrap_with_readiness_wait settle_build run_build insert_resource_dyn
run_frames-Holds_example =
    run_frames-Holds world_ops deps none 5 10 2 outside outcome published
      (main_thread ∷ other_thread 2 ∷ main_thread ∷ []) (omega arith) refl refl refl
