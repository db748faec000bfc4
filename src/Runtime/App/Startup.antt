-- ===== src/Runtime/App/Startup.antt =====
-- crates/runtime/src/app.rs: the Startup driver.
use shiny_song_tools.Prelude.{ℕ, ◌+◌, Bool, true, false, List, [], ◌∷◌, ◌++◌}
use shiny_song_tools.Core.Gate.{open_gate}
use shiny_song_tools.Runtime.Host.{
  WorldOps, succeeded, errored, panicked, RestoreAction, StartupRun, StartupSystem,
}
use shiny_song_tools.Runtime.Manager.{ResourceLedgerEntry, is_active_state}
use shiny_song_tools.Runtime.App.Build.{next_order}
use shiny_song_tools.Runtime.App.{
  Services, App, Scope, Visit, Report, carried_on, given_up, passed_by, visited, rollback, each,
  put_records,
}

-- The variables of the loops over one record's systems and its queued inserts.
pub record Progress (W P : Type 0) : Type 0 where
  pub world : W
  pub shared : P
  pub effects : List (RestoreAction P)
  pub inserted : List ResourceLedgerEntry
  pub order : ℕ
  pub failed : Bool

module _ (ops : WorldOps) {P : Type 0} where
  -- The queued insert of crates/core/src/plugin_api/context.rs refuses a type that the world has.
  -- The rest of the queue is dropped at a refusal.
  unfoldable pub apply_inserts : List ℕ → Progress ops.World P → Progress ops.World P
  apply_inserts [] s = s
  apply_inserts (t ∷ ts) s = elim (ops.contains_resource t s.world) [
    | true ↦ record s { failed = true }
    | false ↦ apply_inserts ts (record s {
      world = ops.insert_resource t s.world;
      inserted = s.inserted ++ record { type_id = t; order = s.order } ∷ [];
      order = s.order + 1;
    })
  ]

  -- One run leaves the world, the shared state and the restore actions as they are, however it ends.
  unfoldable pub after_run : StartupRun ops.World P → Progress ops.World P → Progress ops.World P
  after_run r s = record s { world = r.world; shared = r.shared; effects = s.effects ++ r.restores }

  unfoldable pub boundary : StartupRun ops.World P → Progress ops.World P → Progress ops.World P
  boundary r s = elim r.end [
    | succeeded ↦ apply_inserts r.pending (after_run r s)
    | errored ↦ record (after_run r s) { failed = true }
    | panicked ↦ record (after_run r s) { failed = true }
  ]

  unfoldable pub run_systems :
      List (StartupSystem ops.World P) → Progress ops.World P → Progress ops.World P
  run_systems [] s = s
  run_systems (system ∷ systems) s =
      let s' = boundary (system s.world s.shared) s in
      elim s'.failed [ true ↦ s' | false ↦ run_systems systems s' ]

  module _ (services : Services ops.World P) where
    unfoldable pub begin_systems : Scope ops.World P → Progress ops.World P
    begin_systems s = record {
      world = s.world;
      shared = s.shared;
      effects = s.record_of.effects;
      inserted = s.record_of.inserted;
      order = next_order s.record_of.inserted;
      failed = false;
    }

    unfoldable pub put_back : Scope ops.World P → Progress ops.World P → Scope ops.World P
    put_back s r = record {
      record_of = record s.record_of { effects = r.effects; inserted = r.inserted };
      world = r.world;
      shared = r.shared;
    }

    unfoldable pub open_record : Scope ops.World P → Scope ops.World P
    open_record s = record s {
      record_of = record s.record_of { gate = (open_gate s.record_of.gate).0 };
    }

    unfoldable pub settle_owner : Scope ops.World P → Progress ops.World P → Visit ops.World P
    settle_owner s r = elim r.failed [
      | true ↦ visited given_up (rollback ops services true (put_back s r))
      | false ↦ visited carried_on (open_record (put_back s r))
    ]

    -- The body of the loop over the owners.
    unfoldable pub start_owner : Scope ops.World P → Visit ops.World P
    start_owner s = elim (is_active_state s.record_of.state) [
      | true ↦ settle_owner s (run_systems s.record_of.startup (begin_systems s))
      | false ↦ visited passed_by s
    ]

    unfoldable pub run_startup : App ops.World P → App ops.World P × Report
    unfolding each put_records
    run_startup a =
        let pass = each start_owner a.plugins.records a.world a.shared in
        (record (put_records pass a) { startup_completed = true }, pass.report)
