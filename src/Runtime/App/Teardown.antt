-- ===== src/Runtime/App/Teardown.antt =====
-- crates/runtime/src/app.rs: the teardown of every owner, in reverse registration order, without the
-- main-thread token.
use shiny_song_tools.Prelude.{true, false, List, [], ◌∷◌}
use shiny_song_tools.Runtime.Host.{WorldOps}
use shiny_song_tools.Runtime.Manager.{PluginRecord, is_active_state}
use shiny_song_tools.Runtime.App.{Services, App, Scope, rollback}

module _ (ops : WorldOps) {P : Type 0} (services : Services ops.World P) where
  unfoldable pub teardown_owner : Scope ops.World P → Scope ops.World P
  teardown_owner s = elim (is_active_state s.record_of.state) [
    | true ↦ rollback ops services false s
    | false ↦ s
  ]

  -- The later records come first.
  unfoldable pub teardown_records :
      List (PluginRecord ops.World P)
      → ops.World
      → P
      → List (PluginRecord ops.World P) × ops.World × P
  teardown_records [] w p = ([], w, p)
  teardown_records (r ∷ rs) w p =
      let (rs', w', p') = teardown_records rs w p in
      let s = teardown_owner (record { record_of = r; world = w'; shared = p' }) in
      (s.record_of ∷ rs', s.world, s.shared)

  unfoldable pub teardown_all : App ops.World P → App ops.World P
  teardown_all a =
      let (rs, w, p) = teardown_records a.plugins.records a.world a.shared in
      record a { world = w; shared = p; plugins = record a.plugins { records = rs } }
