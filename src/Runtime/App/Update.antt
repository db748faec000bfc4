-- ===== src/Runtime/App/Update.antt =====
-- crates/runtime/src/app.rs: the Update driver.
use shiny_song_tools.Prelude.{ℕ, zero, suc, ◌+◌, Bool, true, false, List, [], ◌∷◌, if◌then◌else◌}
use shiny_song_tools.Core.Gate.{close}
use shiny_song_tools.Runtime.Host.{WorldOps, succeeded, errored, panicked, UpdateSystem, RouteDrain}
use shiny_song_tools.Runtime.Manager.{retired, PluginRecord, is_active_state, is_active}
use shiny_song_tools.Runtime.App.{
  Services, App, Scope, Visit, Report, carried_on, given_up, passed_by, visited, run_restores, each,
  put_records,
}

module _ (ops : WorldOps) {P : Type 0} where
  -- The systems in order, up to the first one that fails.
  unfoldable pub run_updates :
      List (UpdateSystem ops.World P) → ops.World → P → Bool × ops.World × P
  run_updates [] w p = (false, w, p)
  run_updates (system ∷ systems) w p =
      let (w', p', end) = system w p in
      elim end [
        | succeeded ↦ run_updates systems w' p'
        | errored ↦ (true, w', p')
        | panicked ↦ (true, w', p')
      ]

  -- `active_drains` of crates/runtime/src/routes.rs.
  unfoldable pub active_drains :
      List (PluginRecord ops.World P)
      → List (ℕ × RouteDrain ops.World P)
      → List (RouteDrain ops.World P)
  active_drains rs [] = []
  active_drains rs (d ∷ ds) =
      if is_active d.0 rs then d.1 ∷ active_drains rs ds else active_drains rs ds

  drain_one : RouteDrain ops.World P → ℕ → ops.World → P → ops.World × P
  drain_one d zero w p = (w, p)
  drain_one d (suc n) w p = d.drain (suc n) w p

  -- Each drain is bounded by what its mailbox holds when its turn comes.
  unfoldable pub drain_routes : List (RouteDrain ops.World P) → ops.World → P → ops.World × P
  unfolding drain_one
  drain_routes [] w p = (w, p)
  drain_routes (d ∷ ds) w p = let (w', p') = drain_one d (d.depth p) w p in drain_routes ds w' p'

  module _ (services : Services ops.World P) where
    -- `update_retire`: the resources and their ledger stay.
    unfoldable pub update_retire : Scope ops.World P → Scope ops.World P
    unfolding close
    update_retire s = record {
      record_of = record s.record_of {
        gate = close s.record_of.gate;
        state = retired;
        effects = [];
      };
      world = s.world;
      shared =
          run_restores true s.record_of.effects
            (services.fail_pending_requests s.record_of.id s.shared);
    }

    unfoldable pub conclude : PluginRecord ops.World P → Bool × ops.World × P → Visit ops.World P
    conclude r (failed, w, p) =
        let s : Scope ops.World P = record { record_of = r; world = w; shared = p } in
        elim failed [ true ↦ visited given_up (update_retire s) | false ↦ visited carried_on s ]

    unfoldable pub update_owner : Scope ops.World P → Visit ops.World P
    update_owner s = elim (is_active_state s.record_of.state) [
      | true ↦ conclude s.record_of (run_updates s.record_of.update s.world s.shared)
      | false ↦ visited passed_by s
    ]

    -- What comes before the systems: message maintenance, the drains, and the frame counter.
    unfoldable pub begin_update : App ops.World P → App ops.World P
    begin_update a =
        let (w, p) =
          drain_routes (active_drains a.plugins.records services.routes)
            (ops.run_message_updates a.world) a.shared in
        record a { world = w; shared = p; frames = a.frames + 1 }

    unfoldable pub run_update : App ops.World P → App ops.World P × Report
    unfolding each put_records
    run_update a =
        let a' = begin_update a in
        let pass = each update_owner a'.plugins.records a'.world a'.shared in
        (put_records pass a', pass.report)
