-- ===== src/Runtime/App/Accounting/Teardown.antt =====
-- crates/runtime/src/app.rs: after the teardown nothing of the owners is left.
use shiny_song_tools.Prelude.{ℕ, ◌+◌, ◌≡◌, true, List, [], ◌∷◌, arith, All}
use shiny_song_tools.Core.Gate.{is_closed, close}
use shiny_song_tools.Runtime.Host.{WorldOps}
use shiny_song_tools.Runtime.Manager.{active, retired, PluginRecord}
use shiny_song_tools.Runtime.App.{Services, Scope, App, rollback}
use shiny_song_tools.Runtime.App.Teardown.{teardown_owner, teardown_records, teardown_all}
use shiny_song_tools.Runtime.App.Accounting.{present, held, remove_all-present, Accounted}

module _ {W P : Type 0} where
  abbrev pub IsGone : PluginRecord W P → Type 0
  IsGone r = (r.state ≡ retired) × (is_closed r.gate ≡ true) × (r.effects ≡ []) × (r.inserted ≡ [])

  -- What is so of an owner before the Update driver has retired any.
  abbrev pub IsWhole : PluginRecord W P → Type 0
  IsWhole r = elim r.state [ active ↦ Unit | retired ↦ IsGone r ]

module _ (ops : WorldOps) {P : Type 0} (services : Services ops.World P) where
  teardown_owner-IsGone :
      (s : Scope ops.World P)
      → IsWhole s.record_of
      → IsGone (teardown_owner ops services s).record_of
  unfolding teardown_owner rollback close is_closed
  teardown_owner-IsGone s h = ground arith

  teardown_owner-present :
      (s : Scope ops.World P)
      → IsWhole s.record_of
      → (t base : ℕ) → base + held t s.record_of.inserted ≡ present ops t s.world
      → present ops t (teardown_owner ops services s).world ≡ base
  unfolding teardown_owner rollback
  teardown_owner-present s h t base e =
      let removed = remove_all-present ops s.record_of.inserted s.world t (omega (arith, e)) in
      ground (arith, removed, e)

  teardown_records-IsGone :
      (rs : List (PluginRecord ops.World P)) (w : ops.World) (p : P)
      → All IsWhole rs
      → All IsGone (teardown_records ops services rs w p).0
  unfolding teardown_records
  teardown_records-IsGone [] w p h = tt
  teardown_records-IsGone (r ∷ rs) w p h =
      let (rs', w', p') = teardown_records ops services rs w p in
      (
        teardown_owner-IsGone (record { record_of = r; world = w'; shared = p' }) h.0,
        teardown_records-IsGone rs w p h.1,
      )

  teardown_records-present :
      (rs : List (PluginRecord ops.World P)) (w : ops.World) (p : P) (base : ℕ → ℕ)
      → All IsWhole rs
      → Accounted ops base w rs
      → (t : ℕ)
      → present ops t (let (rs', w', p') = teardown_records ops services rs w p in w') ≡ base t
  unfolding teardown_records
  teardown_records-present [] w p base h a t = omega (arith, a t)
  teardown_records-present (r ∷ rs) w p base h a t =
      let (rs', w', p') = teardown_records ops services rs w p in
      let rest =
        teardown_records-present rs w p (λ u. base u + held u r.inserted) h.1
          (λ u. omega (arith, a u)) t in
      teardown_owner-present (record { record_of = r; world = w'; shared = p' }) h.0 t (base t)
        (omega (arith, rest))

  -- The teardown of an App whose retired owners were rolled back: each owner is then retired, with its
  -- gate closed and no restore action or ledger entry left, and the world has exactly the resources
  -- that it accounted for beside the ledgers before.
  pub teardown_all-IsGone :
      (a : App ops.World P) (base : ℕ → ℕ)
      → All IsWhole a.plugins.records
      → Accounted ops base a.world a.plugins.records
      → let a' = teardown_all ops services a in
        All IsGone a'.plugins.records × ((t : ℕ) → present ops t a'.world ≡ base t)
  unfolding teardown_all
  teardown_all-IsGone a base h acc = (
    teardown_records-IsGone a.plugins.records a.world a.shared h,
    teardown_records-present a.plugins.records a.world a.shared base h acc,
  )
