-- ===== src/Runtime/App.antt =====
-- crates/runtime/src/app.rs: the App over its plugin records, and the rollback of one owner. The
-- drivers take the owners' ids in registration order and look each record up by its id; here they walk
-- the records, which is the same, as ids are distinct (Runtime/Manager/Registered.antt).
pub mod Build
pub mod Startup
pub mod Update
pub mod Teardown
pub mod Accounting
pub mod Lifecycle
pub mod Tests
use shiny_song_tools.Prelude.{ℕ, Bool, true, false, List, [], ◌∷◌}
use shiny_song_tools.Core.Gate.{close}
use shiny_song_tools.Runtime.Host.{WorldOps, RestoreAction, RouteDrain, execute_restore}
use shiny_song_tools.Runtime.Manager.{
  PluginState, active, retired, ResourceLedgerEntry, PluginRecord, PluginManager,
}

-- The main routes and the debug topics as the drivers use them: the drains of the routes whose owner
-- is active, and the failing of an owner's queued requests.
pub record Services (W P : Type 0) : Type 0 where
  pub routes : List (ℕ × RouteDrain W P)
  pub fail_pending_requests : ℕ → P → P

-- `App`, with the frame counter of its introspection.
pub record App (W P : Type 0) : Type 0 where
  pub world : W
  pub shared : P
  pub plugins : PluginManager W P
  pub frames : ℕ
  pub startup_completed : Bool

-- `StartupReport` and `UpdateReport`.
pub record Report : Type 0 where
  pub done : List ℕ
  pub retired : List ℕ

-- What a driver or a rollback works on at one record.
pub record Scope (W P : Type 0) : Type 0 where
  pub record_of : PluginRecord W P
  pub world : W
  pub shared : P

-- What a driver has after a part of the records.
pub record Pass (W P : Type 0) : Type 0 where
  pub records : List (PluginRecord W P)
  pub world : W
  pub shared : P
  pub report : Report

-- What a driver does at one record: a record that is not active is passed by.
pub data Verdict : Type 0 where
  carried_on given_up passed_by : Verdict

pub record Visit (W P : Type 0) : Type 0 where
  pub verdict : Verdict
  pub scope : Scope W P

abbrev pub visited : {W P : Type 0} → Verdict → Scope W P → Visit W P
visited v s = record { verdict = v; scope = s }

abbrev pub note : Verdict → ℕ → Report → Report
note carried_on id r = record r { done = id ∷ r.done }
note given_up id r = record r { retired = id ∷ r.retired }
note passed_by id r = r

abbrev note_visit : {W P : Type 0} → Visit W P → Pass W P → Pass W P
note_visit v pass = record pass {
  records = v.scope.record_of ∷ pass.records;
  report = note v.verdict v.scope.record_of.id pass.report;
}

-- The loop of a driver over the owners, in registration order.
unfoldable pub each :
    {W P : Type 0} → (Scope W P → Visit W P) → List (PluginRecord W P) → W → P → Pass W P
each visit [] w p = record {
  records = [];
  world = w;
  shared = p;
  report = record { done = []; retired = [] };
}
each visit (r ∷ rs) w p =
    let v = visit (record { record_of = r; world = w; shared = p }) in
    note_visit v (each visit rs v.scope.world v.scope.shared)

unfoldable pub put_records : {W P : Type 0} → Pass W P → App W P → App W P
put_records pass a = record a {
  world = pass.world;
  shared = pass.shared;
  plugins = record a.plugins { records = pass.records };
}

-- `inserted.pop()` until it is empty: the last entry is removed first.
unfoldable pub remove_all : (ops : WorldOps) → List ResourceLedgerEntry → ops.World → ops.World
remove_all ops [] w = w
remove_all ops (e ∷ es) w = ops.remove_resource e.type_id (remove_all ops es w)

-- `effects.pop()` until it is empty: the last action runs first, and its error is only reported.
unfoldable pub run_restores : {P : Type 0} → Bool → List (RestoreAction P) → P → P
run_restores main [] p = p
run_restores main (a ∷ rest) p = (execute_restore a main (run_restores main rest p)).0

-- The rollback that build_rollback, startup_rollback and teardown_all share; `main` says whether it
-- has the main-thread token.
unfoldable pub rollback :
    (ops : WorldOps) {P : Type 0}
    → Services ops.World P
    → Bool
    → Scope ops.World P
    → Scope ops.World P
unfolding close
rollback ops services main s = record {
  record_of = record s.record_of {
    gate = close s.record_of.gate;
    inserted = [];
    effects = [];
    state = retired;
  };
  world = remove_all ops s.record_of.inserted s.world;
  shared =
      run_restores main s.record_of.effects
        (services.fail_pending_requests s.record_of.id s.shared);
}
