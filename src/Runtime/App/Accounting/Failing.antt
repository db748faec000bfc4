-- ===== src/Runtime/App/Accounting/Failing.antt =====
-- crates/runtime/src/app.rs: the owners whose startup fails, by what their systems do.
use shiny_song_tools.Prelude.{
  ℕ, ◌≡◌, ◌≢◌, ◌⊎◌, inl, inr, refl, ap, sym, subst, ◌+◌, ◌++◌, map, true, false, Bool-cases, List,
  [], ◌∷◌, All, arith,
}
use shiny_song_tools.Core.Gate.{close, is_closed}
use shiny_song_tools.Runtime.Host.{
  WorldOps, SystemEnd, succeeded, errored, panicked, StartupSystem, StartupRun,
}
use shiny_song_tools.Runtime.Manager.{PluginRecord, is_active_state}
use shiny_song_tools.Runtime.App.{Services, Scope, rollback, each}
use shiny_song_tools.Runtime.App.Startup.{
  Progress, apply_inserts, after_run, boundary, run_systems, begin_systems, put_back, settle_owner,
  start_owner,
}
use shiny_song_tools.Runtime.App.Accounting.Teardown.{IsGone}

module _ (ops : WorldOps) where
  -- A type of the queue is in the world already when its turn comes.
  abbrev pub Conflicts : List ℕ → ops.World → Type 0
  Conflicts [] w = ⊥
  Conflicts (t ∷ ts) w = (ops.contains_resource t w ≡ true) ⊎ Conflicts ts (ops.insert_resource t w)

  abbrev pub insert_each : List ℕ → ops.World → ops.World
  insert_each [] w = w
  insert_each (t ∷ ts) w = insert_each ts (ops.insert_resource t w)

module _ (ops : WorldOps) {P : Type 0} where
  -- One of the systems errors, panics, or queues an insert of a type that is there.
  abbrev pub Fails : List (StartupSystem ops.World P) → ops.World → P → Type 0
  Fails [] w p = ⊥
  Fails (system ∷ systems) w p =
      let r = system w p in
      (r.end ≢ succeeded)
      ⊎ Conflicts ops r.pending r.world
      ⊎ Fails systems (insert_each ops r.pending r.world) r.shared

  apply_inserts-Conflicts :
      (ts : List ℕ) (s : Progress ops.World P)
      → Conflicts ops ts s.world
      → (apply_inserts ops ts s).failed ≡ true
  unfolding apply_inserts
  apply_inserts-Conflicts [] s h = absurd h
  apply_inserts-Conflicts (t ∷ ts) s h = elim (Bool-cases (ops.contains_resource t s.world)) [
    | inl c ↦ ground (arith, c)
    | inr c ↦ rw (c, apply_inserts) (apply_inserts-Conflicts ts _ (later h c))
  ]
    where
      later :
          Conflicts ops (t ∷ ts) s.world
          → ops.contains_resource t s.world ≡ false
          → Conflicts ops ts (ops.insert_resource t s.world)
      later (inl a) c = ground (arith, a, c)
      later (inr b) c = b

  apply_inserts-world :
      (ts : List ℕ) (s : Progress ops.World P)
      → (apply_inserts ops ts s).failed ≡ false
      → ((apply_inserts ops ts s).world ≡ insert_each ops ts s.world)
        × ((apply_inserts ops ts s).shared ≡ s.shared)
  unfolding apply_inserts
  apply_inserts-world [] s h = (refl, refl)
  apply_inserts-world (t ∷ ts) s h = elim (Bool-cases (ops.contains_resource t s.world)) [
    | inl c ↦ absurd (ground (arith, c, h))
    | inr c ↦
        let next : Progress ops.World P = record s {
          world = ops.insert_resource t s.world;
          inserted = s.inserted ++ record { type_id = t; order = s.order } ∷ [];
          order = s.order + 1;
        } in
        let rest = apply_inserts-world ts next (ground (arith, c, h)) in rw (c, apply_inserts) rest
  ]

  -- A run that does not fail leaves what its queue inserts, and the shared state of its system.
  abbrev Leaves : StartupRun ops.World P → Progress ops.World P → Type 0
  Leaves r s = (s.world ≡ insert_each ops r.pending r.world) × (s.shared ≡ r.shared)

  boundary-Leaves :
      (r : StartupRun ops.World P) (s : Progress ops.World P)
      → (boundary ops r s).failed ≡ false
      → Leaves r (boundary ops r s)
  unfolding boundary after_run
  boundary-Leaves r s h = go r.end h
    where
      go :
          (e : SystemEnd)
          → (elim e as (λ x. Progress ops.World P) [
            | succeeded ↦ apply_inserts ops r.pending (after_run ops r s)
            | errored ↦ record (after_run ops r s) { failed = true }
            | panicked ↦ record (after_run ops r s) { failed = true }
          ]).failed
            ≡ false
          → Leaves r (elim e as (λ x. Progress ops.World P) [
            | succeeded ↦ apply_inserts ops r.pending (after_run ops r s)
            | errored ↦ record (after_run ops r s) { failed = true }
            | panicked ↦ record (after_run ops r s) { failed = true }
          ])
      go succeeded h = apply_inserts-world r.pending (after_run ops r s) h
      go errored h = absurd (ground (arith, h))
      go panicked h = absurd (ground (arith, h))

  boundary-end :
      (r : StartupRun ops.World P) (s : Progress ops.World P)
      → r.end ≢ succeeded
      → (boundary ops r s).failed ≡ true
  unfolding boundary after_run
  boundary-end r s h = ground (arith, h)

  boundary-Conflicts :
      (r : StartupRun ops.World P) (s : Progress ops.World P)
      → Conflicts ops r.pending r.world
      → (boundary ops r s).failed ≡ true
  unfolding boundary after_run
  boundary-Conflicts r s h = ground (arith, apply_inserts-Conflicts r.pending (after_run ops r s) h)

  run_systems-Fails :
      (systems : List (StartupSystem ops.World P)) (s : Progress ops.World P)
      → Fails systems s.world s.shared
      → (run_systems ops systems s).failed ≡ true
  unfolding run_systems
  run_systems-Fails [] s h = absurd h
  run_systems-Fails (system ∷ systems) s h =
      let r = system s.world s.shared in
      let s' = boundary ops r s in
      elim (Bool-cases s'.failed) [
        | inl f ↦ rw (f, run_systems) f
        | inr f ↦
            rw (f, run_systems)
              (run_systems-Fails systems s' (
                later r s' (boundary-Leaves r s f) (elim h [
                  | inl end ↦ absurd (ground (arith, f, boundary-end r s end))
                  | inr (inl conflict) ↦ absurd (ground (arith, f, boundary-Conflicts r s conflict))
                  | inr (inr rest) ↦ rest
                ])))
      ]
    where
      later :
          (r : StartupRun ops.World P) (t : Progress ops.World P)
          → Leaves r t
          → Fails systems (insert_each ops r.pending r.world) r.shared
          → Fails systems t.world t.shared
      later r t (w, p) h =
          subst (λ x. Fails systems x t.shared) (sym w)
            (subst (Fails systems (insert_each ops r.pending r.world)) (sym p) h)

  -- An active owner whose startup fails in this world is gone after its turn.
  abbrev pub FailsGone : Scope ops.World P × PluginRecord ops.World P → Type 0
  FailsGone (s, r) =
      is_active_state s.record_of.state ≡ true
      → Fails s.record_of.startup s.world s.shared
      → IsGone r

  module _ (services : Services ops.World P) where
    start_owner-FailsGone :
        (s : Scope ops.World P) → FailsGone (s, (start_owner ops services s).scope.record_of)
    unfolding start_owner settle_owner begin_systems put_back rollback close is_closed
    start_owner-FailsGone s live fails =
        let failed = run_systems-Fails s.record_of.startup (begin_systems ops services s) fails in
        ground (arith, live, failed)

    -- What each owner's turn begins with, and the record that it leaves.
    abbrev pub turns :
        List (PluginRecord ops.World P)
        → ops.World
        → P
        → List (Scope ops.World P × PluginRecord ops.World P)
    turns [] w p = []
    turns (r ∷ rs) w p =
        let s : Scope ops.World P = record { record_of = r; world = w; shared = p } in
        let s' = (start_owner ops services s).scope in
        (s, s'.record_of) ∷ turns rs s'.world s'.shared

    pub turns_left :
        (rs : List (PluginRecord ops.World P)) (w : ops.World) (p : P)
        → map (λ t. t.1) (turns rs w p) ≡ (each (start_owner ops services) rs w p).records
    unfolding each
    turns_left [] w p = refl
    turns_left (r ∷ rs) w p =
        let s : Scope ops.World P = record { record_of = r; world = w; shared = p } in
        let s' = (start_owner ops services s).scope in
        ap (λ us. s'.record_of ∷ us) (turns_left rs s'.world s'.shared)

    pub turns-FailsGone :
        (rs : List (PluginRecord ops.World P)) (w : ops.World) (p : P)
        → All FailsGone (turns rs w p)
    turns-FailsGone [] w p = tt
    turns-FailsGone (r ∷ rs) w p =
        let s : Scope ops.World P = record { record_of = r; world = w; shared = p } in
        let s' = (start_owner ops services s).scope in
        (start_owner-FailsGone s, turns-FailsGone rs s'.world s'.shared)
