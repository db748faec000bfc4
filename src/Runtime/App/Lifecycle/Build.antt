-- ===== src/Runtime/App/Lifecycle/Build.antt =====
-- crates/runtime/src/app.rs: the state that a plugin's build leaves its owner in.
use Prim.Native.String.{String}
use shiny_song_tools.Prelude.{ℕ, ◌≡◌, refl, arith, Result, ok, err, All, All-append, All-single}
use shiny_song_tools.Core.Gate.{new, close, is_closed}
use shiny_song_tools.Runtime.Host.{WorldOps}
use shiny_song_tools.Runtime.Manager.{active, new_record}
use shiny_song_tools.Runtime.App.{Services, Scope, App, rollback}
use shiny_song_tools.Runtime.App.Build.{
  BuildError, Build, built, insert_resource, add_startup_system, add_update_system,
  register_container, register_restore, elsewhere, insert_resource_dyn, register_container_dyn,
  add_startup_system_dyn, add_update_system_dyn, register_restore_any_thread, run_build,
  settle_build, add_plugin,
}
use shiny_song_tools.Runtime.App.Accounting.Teardown.{IsWhole}
use shiny_song_tools.Runtime.App.Lifecycle.{IsFresh}

module _ (ops : WorldOps) {P : Type 0} where
  -- The host touches neither the state nor the gate.
  abbrev Untouched : Scope ops.World P → Type 0
  Untouched s = (s.record_of.state ≡ active) × (s.record_of.gate ≡ new)

  insert_resource_dyn-Untouched :
      (t : ℕ) (s : Scope ops.World P) → Untouched s → Untouched (insert_resource_dyn ops t s).0
  unfolding insert_resource_dyn
  insert_resource_dyn-Untouched t s h = ground arith

  register_container_dyn-Untouched :
      (s : Scope ops.World P) → Untouched s → Untouched (register_container_dyn ops s).0
  unfolding register_container_dyn
  register_container_dyn-Untouched s h = ground arith

  run_build-Untouched :
      (b : Build ops.World P) (s : Scope ops.World P)
      → Untouched s
      → Untouched (run_build ops b s).0
  unfolding run_build add_startup_system_dyn add_update_system_dyn register_restore_any_thread
  run_build-Untouched (built r) s h = h
  run_build-Untouched (insert_resource u next) s h =
      let (s', r) = insert_resource_dyn ops u s in
      run_build-Untouched (next r) s' (insert_resource_dyn-Untouched u s h)
  run_build-Untouched (add_startup_system f next) s h =
      run_build-Untouched next (add_startup_system_dyn ops f s) h
  run_build-Untouched (add_update_system f next) s h =
      run_build-Untouched next (add_update_system_dyn ops f s) h
  run_build-Untouched (register_container next) s h =
      let (s', r) = register_container_dyn ops s in
      run_build-Untouched (next r) s' (register_container_dyn-Untouched s h)
  run_build-Untouched (register_restore a next) s h =
      run_build-Untouched next (register_restore_any_thread ops a s) h
  run_build-Untouched (elsewhere f next) s h =
      let (p, r) = f s.shared in run_build-Untouched (next r) (record s { shared = p }) h

  settle_build-IsFresh :
      (services : Services ops.World P) (s : Scope ops.World P) (r : Result BuildError (Unit {0}))
      → Untouched s
      → IsFresh (settle_build ops services (s, r)).record_of
  unfolding settle_build rollback close new
  settle_build-IsFresh services s (ok u) h = ground arith
  settle_build-IsFresh services s (err e) h = ground arith

  -- Adding a plugin leaves the other owners as they are; the new one is active with a gate that has not
  -- been opened or, if its build failed, retired with its gate closed for good and no restore action
  -- left.
  pub add_plugin-IsFresh :
      (services : Services ops.World P) (name : String) (b : Build ops.World P)
      (a : App ops.World P)
      → All IsFresh a.plugins.records
      → All IsFresh (add_plugin ops services name b a).plugins.records
  unfolding add_plugin new_record
  add_plugin-IsFresh services name b a h =
      let s : Scope ops.World P = record {
        record_of = new_record a.plugins.next_owner name;
        world = a.world;
        shared = a.shared;
      } in
      let (s', r) = run_build ops b s in
      All-append IsFresh a.plugins.records _ h (
        All-single IsFresh _
          (settle_build-IsFresh services s' r (run_build-Untouched b s (refl, refl))))

  settle_build-IsWhole :
      (services : Services ops.World P) (s : Scope ops.World P) (r : Result BuildError (Unit {0}))
      → Untouched s
      → IsWhole (settle_build ops services (s, r)).record_of
  unfolding settle_build rollback close new is_closed
  settle_build-IsWhole services s (ok u) h = ground arith
  settle_build-IsWhole services s (err e) h = ground arith

  -- Adding a plugin leaves the new owner active, or retired with its gate closed and no restore action
  -- or ledger entry left.
  pub add_plugin-IsWhole :
      (services : Services ops.World P) (name : String) (b : Build ops.World P)
      (a : App ops.World P)
      → All IsWhole a.plugins.records
      → All IsWhole (add_plugin ops services name b a).plugins.records
  unfolding add_plugin new_record
  add_plugin-IsWhole services name b a h =
      let s : Scope ops.World P = record {
        record_of = new_record a.plugins.next_owner name;
        world = a.world;
        shared = a.shared;
      } in
      let (s', r) = run_build ops b s in
      All-append IsWhole a.plugins.records _ h (
        All-single IsWhole (settle_build ops services (s', r)).record_of
          (settle_build-IsWhole services s' r (run_build-Untouched b s (refl, refl))))
