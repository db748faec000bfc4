-- ===== src/Runtime/App/Accounting.antt =====
-- crates/runtime/src/app.rs: the ledgers of inserted resources account for the world, type by type.
pub mod Build
pub mod Failing
pub mod Startup
pub mod Teardown
use shiny_song_tools.Prelude.{
  ℕ, ◌+◌, ◌≤◌, ◌≡◌, refl, Bool, true, false, List, [], ◌∷◌, ◌++◌, arith, ◌==◌, ℕ_discrete, All,
}
use shiny_song_tools.Runtime.Host.{WorldOps}
use shiny_song_tools.Runtime.Manager.{ResourceLedgerEntry, PluginRecord}
use shiny_song_tools.Runtime.App.{Services, Scope, Visit, rollback, each, remove_all}

abbrev pub bit : Bool → ℕ
bit true = 1
bit false = 0

-- How often a ledger holds a type.
abbrev pub held : ℕ → List ResourceLedgerEntry → ℕ
held t [] = 0
held t (e ∷ es) = bit (e.type_id == t) + held t es

pub held-append :
    (t : ℕ) (es fs : List ResourceLedgerEntry) → held t (es ++ fs) ≡ held t es + held t fs
held-append t [] fs = omega arith
held-append t (e ∷ es) fs = omega (arith, held-append t es fs)

-- How often the ledgers of the records hold a type.
abbrev pub held_by_all : {W P : Type 0} → ℕ → List (PluginRecord W P) → ℕ
held_by_all t [] = 0
held_by_all t (r ∷ rs) = held t r.inserted + held_by_all t rs

module _ (ops : WorldOps) where
  abbrev pub present : ℕ → ops.World → ℕ
  present t w = bit (ops.contains_resource t w)

  present-remove :
      (t u : ℕ) (w : ops.World)
      → bit (u == t) ≤ present t w
      → present t (ops.remove_resource u w) + bit (u == t) ≡ present t w
  present-remove t u w h = elim (ℕ_discrete u t) [
    | yes e ↦ ground (arith, e, ops.contains-remove t w)
    | no ne ↦ ground (arith, ops.contains-remove_ne u t w ne)
  ]

  pub present-insert :
      (t u : ℕ) (w : ops.World)
      → ops.contains_resource u w ≡ false
      → present t (ops.insert_resource u w) ≡ present t w + bit (u == t)
  present-insert t u w h = elim (ℕ_discrete u t) [
    | yes e ↦ ground (arith, e, ops.contains-insert t w)
    | no ne ↦ ground (arith, ops.contains-insert_ne u t w ne)
  ]

  pub remove_all-present :
      (es : List ResourceLedgerEntry) (w : ops.World) (t : ℕ)
      → held t es ≤ present t w
      → present t (remove_all ops es w) + held t es ≡ present t w
  unfolding remove_all
  remove_all-present [] w t h = omega arith
  remove_all-present (e ∷ es) w t h =
      let rest = remove_all-present es w t (omega arith) in
      let last = present-remove t e.type_id (remove_all ops es w) (omega (arith, rest, h)) in
      omega (arith, rest, last)

  module _ {P : Type 0} where
    -- The world has a type as often as the ledgers and a base together hold it: at most once, then. The
    -- base is what the world had from elsewhere.
    abbrev pub Accounted : (ℕ → ℕ) → ops.World → List (PluginRecord ops.World P) → Type 0
    Accounted base w rs = (t : ℕ) → base t + held_by_all t rs ≡ present t w

    abbrev pub Backed : Scope ops.World P → Type 0
    Backed s = (t : ℕ) → held t s.record_of.inserted ≤ present t s.world

    -- The world and the ledger of the record have changed by the same.
    abbrev pub Balanced : Scope ops.World P → Scope ops.World P → Type 0
    Balanced s s' =
        (t : ℕ)
        → present t s'.world + held t s.record_of.inserted
          ≡ present t s.world + held t s'.record_of.inserted

    pub rollback-Balanced :
        (services : Services ops.World P) (main : Bool) (s : Scope ops.World P)
        → Backed s
        → Balanced s (rollback ops services main s)
    unfolding rollback
    rollback-Balanced services main s b t =
        omega (arith, remove_all-present s.record_of.inserted s.world t (b t))

    -- A driver whose visits keep the balance keeps the account.
    pub each-Accounted :
        (visit : Scope ops.World P → Visit ops.World P)
        → (Good : PluginRecord ops.World P → Type 0)
        → ((s : Scope ops.World P) → Good s.record_of → Backed s → Balanced s (visit s).scope)
        → (rs : List (PluginRecord ops.World P)) (w : ops.World) (p : P) (base : ℕ → ℕ)
        → All Good rs
        → Accounted base w rs
        → Accounted base (each visit rs w p).world (each visit rs w p).records
    unfolding each
    each-Accounted visit Good keeps [] w p base good h t = h t
    each-Accounted visit Good keeps (r ∷ rs) w p base good h t =
        let s : Scope ops.World P = record { record_of = r; world = w; shared = p } in
        let s' = (visit s).scope in
        let balance = keeps s good.0 (λ u. omega (arith, h u)) in
        let rest =
          each-Accounted visit Good keeps rs s'.world s'.shared
            (λ u. base u + held u s'.record_of.inserted) good.1 (λ u. omega (arith, h u, balance u))
            t in
        omega (arith, rest)
