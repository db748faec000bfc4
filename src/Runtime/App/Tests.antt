-- ===== src/Runtime/App/Tests.antt =====
-- Runs of the drivers of crates/runtime/src/app.rs, on a world that is the list of its resources' types,
-- with a counter for the shared state.
use shiny_song_tools.Prelude.{
  ℕ, ◌+◌, ◌≡◌, ◌≢◌, refl, Bool, true, false, List, [], ◌∷◌, arith, ◌==◌, if◌then◌else◌, ok, All,
  map,
}
use shiny_song_tools.Runtime.Host.{WorldOps, StartupSystem, succeeded, RestoreAction, restored}
use shiny_song_tools.Runtime.Manager.{new_record}
use shiny_song_tools.Runtime.App.{Services, App}
use shiny_song_tools.Runtime.App.Build.{
  Build, built, insert_resource, add_startup_system, register_restore, add_plugin, run_build,
  settle_build, add_startup_system_dyn, insert_resource_dyn, register_restore_any_thread,
}
use shiny_song_tools.Runtime.App.Startup.{run_startup}
use shiny_song_tools.Runtime.App.Teardown.{teardown_all}
use shiny_song_tools.Runtime.App.Lifecycle.{IsFresh, IsLive, run_startup-IsLive}
use shiny_song_tools.Runtime.App.Lifecycle.Build.{add_plugin-IsFresh}
use shiny_song_tools.Runtime.App.Accounting.{bit, present, Accounted}
use shiny_song_tools.Runtime.App.Accounting.Build.{add_plugin-Accounted}
use shiny_song_tools.Runtime.App.Accounting.Failing.{FailsGone, turns}
use shiny_song_tools.Runtime.App.Accounting.Startup.{KeepsAll, run_startup-Accounted}
use shiny_song_tools.Runtime.App.Accounting.Teardown.{IsWhole, IsGone, teardown_all-IsGone}

abbrev has : ℕ → List ℕ → Bool
has t [] = false
has t (u ∷ us) = if u == t then true else has t us

abbrev without : ℕ → List ℕ → List ℕ
without t [] = []
without t (u ∷ us) = let rest = without t us in if u == t then rest else u ∷ rest

pub has-without : (t : ℕ) (w : List ℕ) → has t (without t w) ≡ false
has-without t [] = refl
has-without t (u ∷ w) = ground (arith, has-without t w)

pub has-without_ne : (t u : ℕ) (w : List ℕ) → t ≢ u → has u (without t w) ≡ has u w
has-without_ne t u [] ne = refl
has-without_ne t u (v ∷ w) ne = ground (arith, has-without_ne t u w ne)

pub has_cons : (t : ℕ) (w : List ℕ) → has t (t ∷ w) ≡ true
has_cons t w = ground arith

pub has_cons_ne : (t u : ℕ) (w : List ℕ) → t ≢ u → has u (t ∷ w) ≡ has u w
has_cons_ne t u w ne = ground arith

abbrev pub world_ops : WorldOps
world_ops = record {
  World = List ℕ;
  contains_resource = has;
  insert_resource = λ t w. t ∷ w;
  remove_resource = without;
  run_message_updates = λ w. w;
  contains-insert = has_cons;
  contains-insert_ne = has_cons_ne;
  contains-remove = has-without;
  contains-remove_ne = has-without_ne;
}

abbrev no_services : Services (List ℕ) ℕ
no_services = record { routes = []; fail_pending_requests = λ owner p. p }

abbrev empty_app : App (List ℕ) ℕ
empty_app = record {
  world = 7 ∷ [];
  shared = 0;
  plugins = record { records = []; next_owner = 0 };
  frames = 0;
  startup_completed = false;
}

abbrev queues : List ℕ → StartupSystem (List ℕ) ℕ
queues ts w p = record { world = w; shared = p; pending = ts; restores = []; end = succeeded }

abbrev counts : RestoreAction ℕ
counts = record { main_thread = true; run = λ p. (p + 1, restored) }

-- The first plugin starts; the second has a restore action, and its queue meets a resource of the first.
abbrev first_build : Build (List ℕ) ℕ
first_build = insert_resource 1 (λ r. add_startup_system (queues (2 ∷ [])) (built (ok tt)))

abbrev second_build : Build (List ℕ) ℕ
second_build =
    register_restore counts (add_startup_system (queues (3 ∷ 2 ∷ 4 ∷ [])) (built (ok tt)))

abbrev two_plugins : App (List ℕ) ℕ
two_plugins =
    add_plugin world_ops no_services "second" second_build
      (add_plugin world_ops no_services "first" first_build empty_app)

abbrev base : ℕ → ℕ
base t = bit (has t (7 ∷ []))

empty-Accounted : Accounted world_ops {P = ℕ} base (7 ∷ []) []
empty-Accounted t = omega arith

abbrev one_plugin : App (List ℕ) ℕ
one_plugin = add_plugin world_ops no_services "first" first_build empty_app

one-Accounted : Accounted world_ops base one_plugin.world one_plugin.plugins.records
one-Accounted =
    add_plugin-Accounted world_ops no_services "first" first_build empty_app base empty-Accounted

two-Accounted : Accounted world_ops base two_plugins.world two_plugins.plugins.records
two-Accounted =
    add_plugin-Accounted world_ops no_services "second" second_build one_plugin base one-Accounted

two-IsFresh : All IsFresh two_plugins.plugins.records
two-IsFresh =
    add_plugin-IsFresh world_ops no_services "second" second_build one_plugin
      (add_plugin-IsFresh world_ops no_services "first" first_build empty_app tt)

two-KeepsAll : All (KeepsAll world_ops) two_plugins.plugins.records
unfolding add_plugin run_build settle_build add_startup_system_dyn insert_resource_dyn
    register_restore_any_thread new_record
two-KeepsAll = ((λ w p t. refl, tt), ((λ w p t. refl, tt), tt))

two-IsWhole : All IsWhole two_plugins.plugins.records
unfolding add_plugin run_build settle_build add_startup_system_dyn insert_resource_dyn
    register_restore_any_thread new_record
two-IsWhole = (tt, (tt, tt))

abbrev all_started : App (List ℕ) ℕ
all_started = (run_startup world_ops no_services two_plugins).0

run_startup-Accounted_example :
    let ts =
      turns world_ops no_services two_plugins.plugins.records two_plugins.world
        two_plugins.shared in
    Accounted world_ops base all_started.world all_started.plugins.records
    × All IsWhole all_started.plugins.records
    × (map (λ t. t.1) ts ≡ all_started.plugins.records)
    × All (FailsGone world_ops) ts
run_startup-Accounted_example =
    run_startup-Accounted world_ops no_services two_plugins base two-KeepsAll two-IsWhole
      two-Accounted

run_startup-IsLive_example : All IsLive all_started.plugins.records
run_startup-IsLive_example = run_startup-IsLive world_ops no_services two_plugins two-IsFresh

teardown_all-IsGone_example :
    let a = teardown_all world_ops no_services two_plugins in
    All IsGone a.plugins.records × ((t : ℕ) → present world_ops t a.world ≡ base t)
teardown_all-IsGone_example =
    teardown_all-IsGone world_ops no_services two_plugins base two-IsWhole two-Accounted
