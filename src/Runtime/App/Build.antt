-- ===== src/Runtime/App/Build.antt =====
-- crates/runtime/src/host.rs and add_plugin of crates/runtime/src/app.rs: the build of one plugin. The
-- host works on the owner's record, which is the last one, on the world and on the shared state.
use Prim.Native.String.{String}
use shiny_song_tools.Prelude.{ℕ, ◌+◌, true, false, List, [], ◌∷◌, ◌++◌, Result, ok, err}
use shiny_song_tools.Runtime.Host.{WorldOps, RestoreAction, StartupSystem, UpdateSystem}
use shiny_song_tools.Runtime.Manager.{ResourceLedgerEntry, new_record}
use shiny_song_tools.Runtime.App.{Services, App, Scope, rollback}

-- The refusals of the host, and the errors of what a build does elsewhere, such as the install of a hook.
pub data BuildError : Type 0 where
  resource_conflict : ℕ → BuildError
  container_registered : BuildError
  elsewhere_failed : BuildError

-- `Plugin::build`, a parameter of the model, by the calls that it makes of its host and by its end; what
-- it does next may depend on what a call returned.
pub data Build (W P : Type 0) : Type 0 where
  built : Result BuildError (Unit {0}) → Build W P
  insert_resource : ℕ → (Result BuildError (Unit {0}) → Build W P) → Build W P
  add_startup_system : StartupSystem W P → Build W P → Build W P
  add_update_system : UpdateSystem W P → Build W P → Build W P
  register_container : (Result BuildError (Unit {0}) → Build W P) → Build W P
  register_restore : RestoreAction P → Build W P → Build W P
  elsewhere :
      (P → P × Result BuildError (Unit {0}))
      → (Result BuildError (Unit {0}) → Build W P)
      → Build W P

-- `inserted.last().map_or(0, |e| e.order + 1)`.
unfoldable pub next_order : List ResourceLedgerEntry → ℕ
next_order [] = 0
next_order (e ∷ []) = e.order + 1
next_order (e ∷ e' ∷ es) = next_order (e' ∷ es)

module _ (ops : WorldOps) {P : Type 0} where
  -- The queued closure of crates/core/src/plugin_api/context.rs checks for a conflict.
  unfoldable pub insert_resource_dyn :
      ℕ → Scope ops.World P → Scope ops.World P × Result BuildError (Unit {0})
  insert_resource_dyn t s = elim (ops.contains_resource t s.world) [
    | true ↦ (s, err (resource_conflict t))
    | false ↦ (
      record s {
        world = ops.insert_resource t s.world;
        record_of = record s.record_of {
          inserted =
              s.record_of.inserted
              ++ record { type_id = t; order = next_order s.record_of.inserted } ∷ [];
        };
      },
      ok tt,
    )
  ]

  unfoldable pub register_container_dyn :
      Scope ops.World P → Scope ops.World P × Result BuildError (Unit {0})
  register_container_dyn s = elim s.record_of.container [
    | true ↦ (s, err container_registered)
    | false ↦ (record s { record_of = record s.record_of { container = true } }, ok tt)
  ]

  unfoldable pub add_startup_system_dyn :
      StartupSystem ops.World P → Scope ops.World P → Scope ops.World P
  add_startup_system_dyn f s = record s {
    record_of = record s.record_of { startup = s.record_of.startup ++ f ∷ [] };
  }

  unfoldable pub add_update_system_dyn :
      UpdateSystem ops.World P → Scope ops.World P → Scope ops.World P
  add_update_system_dyn f s = record s {
    record_of = record s.record_of { update = s.record_of.update ++ f ∷ [] };
  }

  unfoldable pub register_restore_any_thread :
      RestoreAction P → Scope ops.World P → Scope ops.World P
  register_restore_any_thread a s = record s {
    record_of = record s.record_of { effects = s.record_of.effects ++ a ∷ [] };
  }

  unfoldable pub run_build :
      Build ops.World P → Scope ops.World P → Scope ops.World P × Result BuildError (Unit {0})
  run_build (built r) s = (s, r)
  run_build (insert_resource t next) s =
      let (s', r) = insert_resource_dyn t s in run_build (next r) s'
  run_build (add_startup_system f next) s = run_build next (add_startup_system_dyn f s)
  run_build (add_update_system f next) s = run_build next (add_update_system_dyn f s)
  run_build (register_container next) s =
      let (s', r) = register_container_dyn s in run_build (next r) s'
  run_build (register_restore a next) s = run_build next (register_restore_any_thread a s)
  run_build (elsewhere f next) s =
      let (p, r) = f s.shared in run_build (next r) (record s { shared = p })

  unfoldable pub settle_build :
      Services ops.World P → Scope ops.World P × Result BuildError (Unit {0}) → Scope ops.World P
  settle_build services (s, ok u) = s
  settle_build services (s, err e) = rollback ops services false s

  -- The record is pushed first and built in place.
  unfoldable pub add_plugin :
      Services ops.World P → String → Build ops.World P → App ops.World P → App ops.World P
  unfolding new_record
  add_plugin services name build a =
      let s = settle_build services (
        run_build build (record {
          record_of = new_record a.plugins.next_owner name;
          world = a.world;
          shared = a.shared;
        })) in
      record a {
        world = s.world;
        shared = s.shared;
        plugins = record {
          records = a.plugins.records ++ s.record_of ∷ [];
          next_owner = a.plugins.next_owner + 1;
        };
      }
