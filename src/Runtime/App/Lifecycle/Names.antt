-- ===== src/Runtime/App/Lifecycle/Names.antt =====
-- crates/runtime/src/app.rs: the names of the owners that are added, and what their builds made of them.
use Prim.Native.String.{String}
use shiny_song_tools.Prelude.{
  ℕ, ◌≡◌, refl, ap, ◌∙◌, List, [], ◌∷◌, ◌++◌, arith, Result, ok, err, All, All-append, All-single,
}
use shiny_song_tools.Runtime.Host.{WorldOps}
use shiny_song_tools.Runtime.Manager.{retired, PluginRecord, new_record}
use shiny_song_tools.Runtime.App.{Services, Scope, Visit, App, rollback, each, put_records}
use shiny_song_tools.Runtime.App.Build.{
  BuildError, Build, built, insert_resource, add_startup_system, add_update_system,
  register_container, register_restore, elsewhere, insert_resource_dyn, register_container_dyn,
  add_startup_system_dyn, add_update_system_dyn, register_restore_any_thread, run_build,
  settle_build, add_plugin,
}
use shiny_song_tools.Runtime.App.Startup.{
  put_back, open_record, settle_owner, start_owner, run_startup,
}
use shiny_song_tools.Runtime.App.Update.{
  update_retire, conclude, update_owner, begin_update, run_update,
}

abbrev pub names : {W P : Type 0} → List (PluginRecord W P) → List String
names [] = []
names (r ∷ rs) = r.name ∷ names rs

names-append :
    {W P : Type 0} (rs : List (PluginRecord W P)) (r : PluginRecord W P)
    → names (rs ++ r ∷ []) ≡ names rs ++ r.name ∷ []
names-append [] r = refl
names-append (q ∷ rs) r = ap (λ ns. q.name ∷ ns) (names-append rs r)

module _ (ops : WorldOps) {P : Type 0} where
  abbrev name_of : Scope ops.World P → String
  name_of s = s.record_of.name

  insert_resource_dyn-name_of :
      (t : ℕ) (s : Scope ops.World P) → name_of (insert_resource_dyn ops t s).0 ≡ name_of s
  unfolding insert_resource_dyn
  insert_resource_dyn-name_of t s = ground arith

  register_container_dyn-name_of :
      (s : Scope ops.World P) → name_of (register_container_dyn ops s).0 ≡ name_of s
  unfolding register_container_dyn
  register_container_dyn-name_of s = ground arith

  run_build-name_of :
      (b : Build ops.World P) (s : Scope ops.World P) → name_of (run_build ops b s).0 ≡ name_of s
  unfolding run_build add_startup_system_dyn add_update_system_dyn register_restore_any_thread
  run_build-name_of (built r) s = refl
  run_build-name_of (insert_resource u next) s =
      let (s', r) = insert_resource_dyn ops u s in
      run_build-name_of (next r) s' ∙ insert_resource_dyn-name_of u s
  run_build-name_of (add_startup_system f next) s =
      run_build-name_of next (add_startup_system_dyn ops f s)
  run_build-name_of (add_update_system f next) s =
      run_build-name_of next (add_update_system_dyn ops f s)
  run_build-name_of (register_container next) s =
      let (s', r) = register_container_dyn ops s in
      run_build-name_of (next r) s' ∙ register_container_dyn-name_of s
  run_build-name_of (register_restore a next) s =
      run_build-name_of next (register_restore_any_thread ops a s)
  run_build-name_of (elsewhere f next) s =
      let (p, r) = f s.shared in run_build-name_of (next r) (record s { shared = p })

  settle_build-name_of :
      (services : Services ops.World P) (s : Scope ops.World P) (r : Result BuildError (Unit {0}))
      → name_of (settle_build ops services (s, r)) ≡ name_of s
  unfolding settle_build rollback
  settle_build-name_of services s (ok u) = refl
  settle_build-name_of services s (err e) = refl

  -- An added plugin is the last owner, under its name.
  pub add_plugin-names :
      (services : Services ops.World P) (name : String) (b : Build ops.World P)
      (a : App ops.World P)
      → names (add_plugin ops services name b a).plugins.records
        ≡ names a.plugins.records ++ name ∷ []
  unfolding add_plugin new_record
  add_plugin-names services name b a =
      let s : Scope ops.World P = record {
        record_of = new_record a.plugins.next_owner name;
        world = a.world;
        shared = a.shared;
      } in
      let (s', r) = run_build ops b s in
      names-append a.plugins.records (settle_build ops services (s', r)).record_of
      ∙ ap (λ n. names a.plugins.records ++ n ∷ [])
          (settle_build-name_of services s' r ∙ run_build-name_of b s)

  -- What a build leaves of the owner.
  abbrev pub Left :
      PluginRecord ops.World P → Scope ops.World P × Result BuildError (Unit {0}) → Type 0
  Left r (s, ok u) = r ≡ s.record_of
  Left r (s, err e) = r.state ≡ retired

  -- The owner is what the build made of a new record of this name, in the world and the shared state of its
  -- turn: with all that it registered or, where it failed, retired.
  abbrev pub IsMadeBy : String → Build ops.World P → PluginRecord ops.World P → Type 0
  IsMadeBy name b r =
      (r.name ≡ name)
      × (s : Scope ops.World P) × (id : ℕ) × (s.record_of ≡ new_record id name)
      × Left r (run_build ops b s)

  settle_build-Left :
      (services : Services ops.World P) (x : Scope ops.World P × Result BuildError (Unit {0}))
      → Left (settle_build ops services x).record_of x
  unfolding settle_build rollback
  settle_build-Left services (s, ok u) = refl
  settle_build-Left services (s, err e) = refl

  -- An added plugin is what its build made of it.
  pub add_plugin-IsMadeBy :
      (services : Services ops.World P) (name : String) (b : Build ops.World P)
      (a : App ops.World P) (Q : PluginRecord ops.World P → Type 0)
      → ((r : PluginRecord ops.World P) → IsMadeBy name b r → Q r)
      → All Q a.plugins.records
      → All Q (add_plugin ops services name b a).plugins.records
  unfolding add_plugin new_record
  add_plugin-IsMadeBy services name b a Q made h =
      let s : Scope ops.World P = record {
        record_of = new_record a.plugins.next_owner name;
        world = a.world;
        shared = a.shared;
      } in
      let (s', x) = run_build ops b s in
      All-append Q a.plugins.records _ h (
        All-single Q (settle_build ops services (s', x)).record_of (
          made _ (
            settle_build-name_of services s' x ∙ run_build-name_of b s,
            s,
            a.plugins.next_owner,
            refl,
            settle_build-Left services (s', x),
          )))

  -- A driver whose visits keep the name of each owner keeps the names.
  each-names :
      (visit : Scope ops.World P → Visit ops.World P)
      → ((s : Scope ops.World P) → name_of (visit s).scope ≡ name_of s)
      → (rs : List (PluginRecord ops.World P)) (w : ops.World) (p : P)
      → names (each visit rs w p).records ≡ names rs
  unfolding each
  each-names visit keeps [] w p = refl
  each-names visit keeps (r ∷ rs) w p =
      let s : Scope ops.World P = record { record_of = r; world = w; shared = p } in
      let s' = (visit s).scope in
      ap (λ n. n ∷ names (each visit rs s'.world s'.shared).records) (keeps s)
      ∙ ap (λ ns. r.name ∷ ns) (each-names visit keeps rs s'.world s'.shared)

  start_owner-name_of :
      (services : Services ops.World P) (s : Scope ops.World P)
      → name_of (start_owner ops services s).scope ≡ name_of s
  unfolding start_owner settle_owner put_back open_record rollback
  start_owner-name_of services s = ground arith

  update_owner-name_of :
      (services : Services ops.World P) (s : Scope ops.World P)
      → name_of (update_owner ops services s).scope ≡ name_of s
  unfolding update_owner conclude update_retire
  update_owner-name_of services s = ground arith

  -- The two drivers keep the owners with their names.
  pub run_startup-names :
      (services : Services ops.World P) (a : App ops.World P)
      → names (run_startup ops services a).0.plugins.records ≡ names a.plugins.records
  unfolding run_startup put_records
  run_startup-names services a =
      each-names (start_owner ops services) (start_owner-name_of services) a.plugins.records a.world
        a.shared

  pub run_update-names :
      (services : Services ops.World P) (a : App ops.World P)
      → names (run_update ops services a).0.plugins.records ≡ names a.plugins.records
  unfolding run_update begin_update put_records
  run_update-names services a =
      let a' = begin_update ops services a in
      each-names (update_owner ops services) (update_owner-name_of services) a.plugins.records
        a'.world a'.shared
