-- ===== src/Runtime/App/Lifecycle.antt =====
-- crates/runtime/src/app.rs: the states that the drivers bring the owners into, and what they report.
pub mod Build
pub mod Names
use shiny_song_tools.Prelude.{
  ℕ, ◌+◌, ◌≡◌, refl, Bool, true, false, List, [], ◌∷◌, arith, All, length, Bool-cases, inl, inr, ap,
  map,
}
use shiny_song_tools.Core.Gate.{
  RuntimeGate, gate_closed, gate_open, gate_failed_closed, open_gate, close,
}
use shiny_song_tools.Runtime.Host.{WorldOps}
use shiny_song_tools.Runtime.Manager.{
  PluginState, active, retired, PluginRecord, is_active_state, active_owner_ids,
}
use shiny_song_tools.Runtime.App.{
  Services, App, Scope, Visit, Verdict, carried_on, given_up, passed_by, Pass, Report, note,
  rollback, each, put_records,
}
use shiny_song_tools.Runtime.App.Startup.{
  put_back, open_record, settle_owner, start_owner, run_startup, run_systems, begin_systems,
}
use shiny_song_tools.Runtime.App.Update.{
  update_retire, conclude, update_owner, begin_update, run_update, run_updates,
}
use shiny_song_tools.Runtime.App.Teardown.{teardown_owner, teardown_records, teardown_all}

abbrev Shows : Bool → ℕ → RuntimeGate → Type 0
Shows flag control g = (g.flag ≡ flag) × (g.control ≡ control)

module _ {W P : Type 0} where
  -- A retired owner has its gate closed for good, and no restore action left.
  abbrev Given : PluginState → Bool → ℕ → PluginRecord W P → Type 0
  Given active flag control r = Shows flag control r.gate
  Given retired flag control r = Shows false gate_failed_closed r.gate × (r.effects ≡ [])

  -- Before the Startup driver the gate of an active owner has not been opened.
  abbrev pub IsFresh : PluginRecord W P → Type 0
  IsFresh r = Given r.state false gate_closed r

  -- After it, the gate of an active owner is open.
  abbrev pub IsLive : PluginRecord W P → Type 0
  IsLive r = Given r.state true gate_open r

  pub each-All :
      (visit : Scope W P → Visit W P) (Before After : PluginRecord W P → Type 0)
      → ((s : Scope W P) → Before s.record_of → After (visit s).scope.record_of)
      → (rs : List (PluginRecord W P)) (w : W) (p : P) → All Before rs
      → All After (each visit rs w p).records
  unfolding each
  each-All visit Before After step [] w p h = tt
  each-All visit Before After step (r ∷ rs) w p h =
      let s : Scope W P = record { record_of = r; world = w; shared = p } in
      let s' = (visit s).scope in
      (step s h.0, each-All visit Before After step rs s'.world s'.shared h.1)

  -- A verdict that tells the truth of the record, and leaves its id.
  abbrev Judged : Verdict → PluginRecord W P → PluginRecord W P → Type 0
  Judged carried_on r r' = (is_active_state r.state ≡ true) × (is_active_state r'.state ≡ true)
  Judged given_up r r' = (is_active_state r.state ≡ true) × (is_active_state r'.state ≡ false)
  Judged passed_by r r' = (is_active_state r.state ≡ false) × (is_active_state r'.state ≡ false)

  -- The report names those that are active afterwards as done, in their order, and as many others as
  -- there were active ones before.
  abbrev pub IsTrue : Report → List (PluginRecord W P) → List (PluginRecord W P) → Type 0
  IsTrue report before after =
      (report.done ≡ active_owner_ids after)
      × (length report.done + length report.retired ≡ length (active_owner_ids before))

  note-IsTrue :
      (v : Verdict) (r r' : PluginRecord W P) (rs rs' : List (PluginRecord W P)) (report : Report)
      → Judged v r r'
      → IsTrue report rs rs'
      → IsTrue (note v r'.id report) (r ∷ rs) (r' ∷ rs')
  unfolding active_owner_ids
  note-IsTrue carried_on r r' rs rs' report j h = ground arith
  note-IsTrue given_up r r' rs rs' report j h = ground arith
  note-IsTrue passed_by r r' rs rs' report j h = ground arith

  each-IsTrue :
      (visit : Scope W P → Visit W P)
      → ((s : Scope W P) → Judged (visit s).verdict s.record_of (visit s).scope.record_of)
      → (rs : List (PluginRecord W P)) (w : W) (p : P)
      → IsTrue (each visit rs w p).report rs (each visit rs w p).records
  unfolding each active_owner_ids
  each-IsTrue visit judged [] w p = (refl, refl)
  each-IsTrue visit judged (r ∷ rs) w p =
      let s : Scope W P = record { record_of = r; world = w; shared = p } in
      let v = visit s in
      let pass = each visit rs v.scope.world v.scope.shared in
      note-IsTrue v.verdict r v.scope.record_of rs pass.records pass.report (judged s)
        (each-IsTrue visit judged rs v.scope.world v.scope.shared)

module _ (ops : WorldOps) {P : Type 0} (services : Services ops.World P) where
  start_owner-IsLive :
      (s : Scope ops.World P)
      → IsFresh s.record_of
      → IsLive (start_owner ops services s).scope.record_of
  unfolding start_owner settle_owner put_back open_record rollback open_gate close
  start_owner-IsLive s h = ground arith

  start_owner-Judged :
      (s : Scope ops.World P)
      → Judged
          (start_owner ops services s).verdict
          s.record_of
          (start_owner ops services s).scope.record_of
  unfolding start_owner settle_owner put_back open_record rollback open_gate close
  start_owner-Judged s = ground arith

  -- The Startup driver, on owners whose gates have not been opened, leaves each of them active with an
  -- open gate, or retired with its gate closed for good and none of its restore actions left.
  pub run_startup-IsLive :
      (a : App ops.World P)
      → All IsFresh a.plugins.records
      → All IsLive (run_startup ops services a).0.plugins.records
  unfolding run_startup put_records
  run_startup-IsLive a h =
      each-All (start_owner ops services) IsFresh IsLive start_owner-IsLive a.plugins.records
        a.world a.shared h

  -- The report of the Startup driver names as started exactly the owners that are active afterwards, in
  -- their order, and as many owners as started or retired as were active before.
  pub run_startup-IsTrue :
      (a : App ops.World P)
      → let (a', report) = run_startup ops services a in
        IsTrue report a.plugins.records a'.plugins.records
  unfolding run_startup put_records
  run_startup-IsTrue a =
      each-IsTrue (start_owner ops services) start_owner-Judged a.plugins.records a.world a.shared

  update_owner-IsLive :
      (s : Scope ops.World P)
      → IsLive s.record_of
      → IsLive (update_owner ops services s).scope.record_of
  unfolding update_owner conclude update_retire close
  update_owner-IsLive s h = ground arith

  update_owner-Judged :
      (s : Scope ops.World P)
      → Judged
          (update_owner ops services s).verdict
          s.record_of
          (update_owner ops services s).scope.record_of
  unfolding update_owner conclude update_retire close
  update_owner-Judged s = ground arith

  -- The Update driver keeps it so: active with an open gate, or retired with a closed one.
  pub run_update-IsLive :
      (a : App ops.World P)
      → All IsLive a.plugins.records
      → All IsLive (run_update ops services a).0.plugins.records
  unfolding run_update begin_update put_records
  run_update-IsLive a h =
      let a' = begin_update ops services a in
      each-All (update_owner ops services) IsLive IsLive update_owner-IsLive a.plugins.records
        a'.world a'.shared h

  -- The report of the Update driver names as updated exactly the owners that are active afterwards, in
  -- their order, and as many owners as updated or retired as were active before.
  pub run_update-IsTrue :
      (a : App ops.World P)
      → let (a', report) = run_update ops services a in
        IsTrue report a.plugins.records a'.plugins.records
  unfolding run_update begin_update put_records
  run_update-IsTrue a =
      let a' = begin_update ops services a in
      each-IsTrue (update_owner ops services) update_owner-Judged a.plugins.records a'.world
        a'.shared
