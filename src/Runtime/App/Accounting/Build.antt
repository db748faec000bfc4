-- ===== src/Runtime/App/Accounting/Build.antt =====
-- crates/runtime/src/app.rs: a plugin's build, and the account of the resources.
use Prim.Native.String.{String}
use shiny_song_tools.Prelude.{
  ℕ, ◌+◌, ◌≡◌, refl, false, List, [], ◌∷◌, ◌++◌, arith, Bool-cases, inl, inr, Result, ok, err,
}
use shiny_song_tools.Runtime.Host.{WorldOps}
use shiny_song_tools.Runtime.Manager.{PluginRecord, new_record}
use shiny_song_tools.Runtime.App.{Services, Scope, App}
use shiny_song_tools.Runtime.App.Build.{
  BuildError, Build, built, insert_resource, add_startup_system, add_update_system,
  register_container, register_restore, elsewhere, next_order, insert_resource_dyn,
  register_container_dyn, add_startup_system_dyn, add_update_system_dyn,
  register_restore_any_thread, run_build, settle_build, add_plugin,
}
use shiny_song_tools.Runtime.App.Accounting.{
  held-append, held_by_all, present-insert, rollback-Balanced, Accounted, Backed, Balanced,
}

module _ (ops : WorldOps) {P : Type 0} where
  insert_resource_dyn-Balanced :
      (t : ℕ) (s : Scope ops.World P) → Balanced ops s (insert_resource_dyn ops t s).0
  unfolding insert_resource_dyn
  insert_resource_dyn-Balanced u s = λ t. elim (Bool-cases (ops.contains_resource u s.world)) [
    | inl c ↦ ground (arith, c)
    | inr c ↦ ground (
      arith,
      c,
      present-insert ops t u s.world c,
      held-append t s.record_of.inserted
          (record { type_id = u; order = next_order s.record_of.inserted } ∷ []),
    )
  ]

  register_container_dyn-Balanced :
      (s : Scope ops.World P) → Balanced ops s (register_container_dyn ops s).0
  unfolding register_container_dyn
  register_container_dyn-Balanced s = λ t. ground arith

  run_build-Balanced :
      (b : Build ops.World P) (s : Scope ops.World P) → Balanced ops s (run_build ops b s).0
  unfolding run_build add_startup_system_dyn add_update_system_dyn register_restore_any_thread
  run_build-Balanced (built r) s = λ t. refl
  run_build-Balanced (insert_resource u next) s = λ t.
      let (s', r) = insert_resource_dyn ops u s in
      omega (arith, insert_resource_dyn-Balanced u s t, run_build-Balanced (next r) s' t)
  run_build-Balanced (add_startup_system f next) s =
      run_build-Balanced next (add_startup_system_dyn ops f s)
  run_build-Balanced (add_update_system f next) s =
      run_build-Balanced next (add_update_system_dyn ops f s)
  run_build-Balanced (register_container next) s = λ t.
      let (s', r) = register_container_dyn ops s in
      omega (arith, register_container_dyn-Balanced s t, run_build-Balanced (next r) s' t)
  run_build-Balanced (register_restore a next) s =
      run_build-Balanced next (register_restore_any_thread ops a s)
  run_build-Balanced (elsewhere f next) s =
      let (p, r) = f s.shared in run_build-Balanced (next r) (record s { shared = p })

  held_by_all-append :
      (t : ℕ) (rs qs : List (PluginRecord ops.World P))
      → held_by_all t (rs ++ qs) ≡ held_by_all t rs + held_by_all t qs
  held_by_all-append t [] qs = omega arith
  held_by_all-append t (r ∷ rs) qs = omega (arith, held_by_all-append t rs qs)

  settle_build-Balanced :
      (services : Services ops.World P) (s : Scope ops.World P)
      → Backed ops s
      → (r : Result BuildError (Unit {0})) → Balanced ops s (settle_build ops services (s, r))
  unfolding settle_build
  settle_build-Balanced services s b (ok u) = λ t. refl
  settle_build-Balanced services s b (err e) = rollback-Balanced ops services false s b

  -- A plugin's build inserts resources only through its host, and its rollback takes exactly those out:
  -- after it, built or retired, the account holds as before.
  pub add_plugin-Accounted :
      (services : Services ops.World P) (name : String) (b : Build ops.World P)
      (a : App ops.World P)
      → (base : ℕ → ℕ) → Accounted ops base a.world a.plugins.records
      → let a' = add_plugin ops services name b a in Accounted ops base a'.world a'.plugins.records
  unfolding add_plugin new_record
  add_plugin-Accounted services name b a base h t =
      let s : Scope ops.World P = record {
        record_of = new_record a.plugins.next_owner name;
        world = a.world;
        shared = a.shared;
      } in
      let (s', r) = run_build ops b s in
      let ran = run_build-Balanced b s in
      let settled = settle_build-Balanced services s' (λ u. omega (arith, ran u, h u)) r t in
      let s'' = settle_build ops services (s', r) in
      omega
        (arith, ran t, settled, h t, held_by_all-append t a.plugins.records (s''.record_of ∷ []))
