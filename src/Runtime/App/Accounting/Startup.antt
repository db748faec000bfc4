-- ===== src/Runtime/App/Accounting/Startup.antt =====
-- crates/runtime/src/app.rs: the Startup driver and the teardown, and the account of the resources.
use shiny_song_tools.Prelude.{
  ℕ, ◌+◌, ◌≡◌, refl, true, List, [], ◌∷◌, ◌++◌, arith, All, map, Bool-cases, inl, inr,
}
use shiny_song_tools.Core.Gate.{close, is_closed}
use shiny_song_tools.Runtime.Host.{WorldOps, StartupSystem, StartupRun}
use shiny_song_tools.Runtime.Manager.{PluginRecord, is_active_state}
use shiny_song_tools.Runtime.App.{Services, Scope, App, rollback, put_records}
use shiny_song_tools.Runtime.App.Startup.{
  Progress, apply_inserts, after_run, boundary, run_systems, begin_systems, put_back, open_record,
  settle_owner, start_owner, run_startup,
}
use shiny_song_tools.Runtime.App.Accounting.{
  present, held, held-append, present-insert, rollback-Balanced, Accounted, Backed, Balanced,
  each-Accounted,
}
use shiny_song_tools.Runtime.App.Lifecycle.{each-All}
use shiny_song_tools.Runtime.App.Accounting.Teardown.{IsWhole}
use shiny_song_tools.Runtime.App.Accounting.Failing.{FailsGone, turns, turns_left, turns-FailsGone}

module _ (ops : WorldOps) {P : Type 0} where
  -- The loops change the world and the ledger by the same.
  abbrev Even : Progress ops.World P → Progress ops.World P → Type 0
  Even s s' =
      (t : ℕ)
      → present ops t s'.world + held t s.inserted ≡ present ops t s.world + held t s'.inserted

  apply_inserts-Even : (ts : List ℕ) (s : Progress ops.World P) → Even s (apply_inserts ops ts s)
  unfolding apply_inserts
  apply_inserts-Even [] s t = refl
  apply_inserts-Even (u ∷ ts) s t = elim (Bool-cases (ops.contains_resource u s.world)) [
    | inl c ↦ ground (arith, c)
    | inr c ↦ ground (
      arith,
      c,
      present-insert ops t u s.world c,
      held-append t s.inserted (record { type_id = u; order = s.order } ∷ []),
      apply_inserts-Even ts
          (record s {
            world = ops.insert_resource u s.world;
            inserted = s.inserted ++ record { type_id = u; order = s.order } ∷ [];
            order = s.order + 1;
          })
          t,
    )
  ]

  -- The system leaves the presence of every resource as it is: it has none inserted or removed but by
  -- its queue.
  abbrev pub Keeps : StartupSystem ops.World P → Type 0
  Keeps system =
      (w : ops.World) (p : P) (t : ℕ) → present ops t (system w p).world ≡ present ops t w

  boundary-Even :
      (s : Progress ops.World P) (r : StartupRun ops.World P)
      → ((t : ℕ) → present ops t r.world ≡ present ops t s.world)
      → Even s (boundary ops r s)
  unfolding boundary after_run
  boundary-Even s r h t = ground (arith, h t, apply_inserts-Even r.pending (after_run ops r s) t)

  run_systems-Even :
      (systems : List (StartupSystem ops.World P)) (s : Progress ops.World P)
      → All Keeps systems
      → Even s (run_systems ops systems s)
  unfolding run_systems
  run_systems-Even [] s k t = refl
  run_systems-Even (system ∷ systems) s k t =
      let s' = boundary ops (system s.world s.shared) s in
      let here = boundary-Even s (system s.world s.shared) (k.0 s.world s.shared) t in
      elim (Bool-cases s'.failed) [
        | inl f ↦ ground (arith, f, here)
        | inr f ↦ ground (arith, f, here, run_systems-Even systems s' k.1 t)
      ]

  -- The startup systems of the record insert and remove only by the queue.
  abbrev pub KeepsAll : PluginRecord ops.World P → Type 0
  KeepsAll r = All Keeps r.startup

  start_owner-Balanced :
      (services : Services ops.World P) (s : Scope ops.World P)
      → KeepsAll s.record_of
      → Backed ops s
      → Balanced ops s (start_owner ops services s).scope
  unfolding start_owner settle_owner begin_systems put_back open_record
  start_owner-Balanced services s k b t =
      let r = run_systems ops s.record_of.startup (begin_systems ops services s) in
      let even : Even (begin_systems ops services s) r =
        run_systems-Even s.record_of.startup (begin_systems ops services s) k in
      let back = put_back ops services s r in
      let rolled = rollback-Balanced ops services true back (λ u. omega (arith, even u, b u)) t in
      elim (Bool-cases (is_active_state s.record_of.state)) [
        | inl live ↦ elim (Bool-cases r.failed) [
          | inl f ↦ ground (arith, live, f, even t, rolled)
          | inr f ↦ ground (arith, live, f, even t)
        ]
        | inr dead ↦ ground (arith, dead)
      ]

  start_owner-IsWhole :
      (services : Services ops.World P) (s : Scope ops.World P)
      → IsWhole s.record_of
      → IsWhole (start_owner ops services s).scope.record_of
  unfolding start_owner settle_owner put_back open_record rollback close is_closed
  start_owner-IsWhole services s h = ground arith

  -- If the startup systems insert resources only by their queues, and every owner that was retired before
  -- is gone, then after the Startup driver the world has exactly the resources of the ledgers and of the
  -- base that it accounted for before, each once. Every owner that is retired then is gone: its ledger and
  -- its restore actions are empty and its gate is closed. So is every active owner with a system that, in
  -- the world and the shared state of its turn, errors, panics or queues an insert of a type that is
  -- there, and with it its resources; `turns` has each owner's turn beside the record that it left.
  pub run_startup-Accounted :
      (services : Services ops.World P) (a : App ops.World P) (base : ℕ → ℕ)
      → All KeepsAll a.plugins.records
      → All IsWhole a.plugins.records
      → Accounted ops base a.world a.plugins.records
      → let a' = (run_startup ops services a).0 in
        let ts = turns ops services a.plugins.records a.world a.shared in
        Accounted ops base a'.world a'.plugins.records
        × All IsWhole a'.plugins.records
        × (map (λ t. t.1) ts ≡ a'.plugins.records)
        × All (FailsGone ops) ts
  unfolding run_startup put_records
  run_startup-Accounted services a base k whole h = (
    each-Accounted ops (start_owner ops services) KeepsAll (start_owner-Balanced services)
        a.plugins.records a.world a.shared base k h,
    each-All (start_owner ops services) IsWhole IsWhole (start_owner-IsWhole services)
        a.plugins.records a.world a.shared whole,
    turns_left ops services a.plugins.records a.world a.shared,
    turns-FailsGone ops services a.plugins.records a.world a.shared,
  )
