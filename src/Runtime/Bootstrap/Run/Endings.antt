-- ===== src/Runtime/Bootstrap/Run/Endings.antt =====
-- crates/runtime/src/bootstrap.rs: what a run of the bootstrap can leave behind, and the App that it builds.
use Prim.Native.String.{String}
use shiny_song_tools.Prelude.{
  ℕ, ◌≡◌, ◌≢◌, ◌⊎◌, refl, sym, ap, subst, ◌∙◌, Bool, true, false, none, some, List, [], ◌∷◌, ◌++◌,
  append-[], append_assoc, err, arith, All,
}
use shiny_song_tools.Core.Gate.{gate_failed_closed, new}
use shiny_song_tools.Core.Error.{HookError}
use shiny_song_tools.Core.MethodSlot.{bind}
use shiny_song_tools.Core.MethodSlot.Target.{MethodRef, matches}
use shiny_song_tools.Runtime.Handoff.{free}
use shiny_song_tools.Runtime.Scheduler.{awaiting_handoff}
use shiny_song_tools.Runtime.Host.{WorldOps}
use shiny_song_tools.Runtime.App.{App}
use shiny_song_tools.Runtime.App.Build.{add_plugin}
use shiny_song_tools.Runtime.App.Accounting.{present, Accounted}
use shiny_song_tools.Runtime.App.Accounting.Build.{add_plugin-Accounted}
use shiny_song_tools.Runtime.App.Accounting.Teardown.{IsWhole, IsGone}
use shiny_song_tools.Runtime.App.Lifecycle.{IsFresh}
use shiny_song_tools.Runtime.Manager.{PluginRecord}
use shiny_song_tools.Runtime.App.Lifecycle.Build.{add_plugin-IsFresh, add_plugin-IsWhole}
use shiny_song_tools.Runtime.App.Lifecycle.Names.{
  names, add_plugin-names, IsMadeBy, add_plugin-IsMadeBy,
}
use shiny_song_tools.Runtime.Bootstrap.{slot_memory}
use shiny_song_tools.Runtime.Bootstrap.Publish.{
  ProductionPlugin, debug_plugin, fps_plugin, translation_dump_plugin, recon_plugin, plugin_name,
  push_if, production_plugins, Published, Ending, returned, panicked, Outcome, add_plugins, new_app,
}
use shiny_song_tools.Runtime.Bootstrap.Run.{scheduler_target, BootstrapDeps, Slot}

module _ (ops : WorldOps) {P : Type 0} (deps : BootstrapDeps ops P) where
  open deps use {api, clock, predicate, resolver, config, services, new_world, builds, replacement}

  abbrev when : Bool → String → List String → List String
  when true name names = name ∷ names
  when false name names = names

  -- The names of the plugins that the configuration enables, in their order.
  abbrev pub enabled_names : List String
  enabled_names = when config.debug_enabled "debug" (
      when config.fps_unlock_fps "unlock_fps"
        (when config.translation_dump "translation_dump" (when config.recon_enabled "recon" [])))

  plugin_names : List ProductionPlugin → List String
  plugin_names [] = []
  plugin_names (plugin ∷ plugins) = plugin_name plugin ∷ plugin_names plugins

  -- The owner is what the build of its plugin made of a new record.
  abbrev pub IsMade : PluginRecord ops.World P → Type 0
  IsMade r = (plugin : ProductionPlugin) × IsMadeBy ops (plugin_name plugin) (builds plugin) r

  -- The App has exactly the owners of these names, in this order, each as its plugin's build made it. No
  -- owner's gate has been opened, failed builds were rolled back, and the world has what it came with and
  -- what the ledgers hold.
  abbrev pub IsBuiltOf : List String → App ops.World P → Type 0
  IsBuiltOf owners app =
      All IsFresh app.plugins.records
      × All IsWhole app.plugins.records
      × Accounted ops (λ t. present ops t new_world) app.world app.plugins.records
      × (app.startup_completed ≡ false)
      × (names app.plugins.records ≡ owners)
      × All IsMade app.plugins.records

  -- The App of the plugins that the configuration enables.
  abbrev pub IsBuilt : App ops.World P → Type 0
  IsBuilt app = IsBuiltOf enabled_names app

  -- Every owner is retired with nothing left, and the world has what it came with.
  abbrev pub IsTornDown : App ops.World P → Type 0
  IsTornDown app =
      All IsGone app.plugins.records × ((t : ℕ) → present ops t app.world ≡ present ops t new_world)

  -- The context that waits for its first frame, with the App in the handoff and the replacement in the
  -- validated slot.
  abbrev pub HandsOver : Slot ops deps → Outcome ops.World P → Type 0
  HandsOver before o =
      (before ≡ none)
      × (c : Published (App ops.World P)) × (app : App ops.World P) × (method : MethodRef)
      × (o.scheduler ≡ some c)
      × (c.context ≡ record {
        handoff = record { lock = free; app = some app };
        gate = new;
        failed = false;
        slot = awaiting_handoff;
        retained = [];
        log = [];
      })
      × IsBuilt app
      × (c.hook.installed ≡ true)
      × (c.hook.original ≢ 0)
      × (matches scheduler_target method ≡ true)
      × (resolver.read method app.shared ≡ some replacement)
      × (o.dropped ≡ none)
      × (o.attempt.outside ≡ app.shared)

  -- The end before there is an App.
  abbrev pub GivesUp : Slot ops deps → Outcome ops.World P → Type 0
  GivesUp before o =
      (o.dropped ≡ none) × (o.scheduler ≡ before) × (o.attempt.gate.control ≡ gate_failed_closed)

  -- The end with an App that is not handed over. The context of this run is published with its gate
  -- closed, or an earlier one stays.
  abbrev pub TearsDown : Slot ops deps → Outcome ops.World P → Type 0
  TearsDown before o =
      (app : App ops.World P) × (o.dropped ≡ some app)
      × IsTornDown app
      × (((before ≡ none)
            × (c : Published (App ops.World P)) × (o.scheduler ≡ some c)
            × (c.context.gate.control ≡ gate_failed_closed)
            × (c.context.handoff.app ≡ none))
          ⊎ ((old : Published (App ops.World P)) × (before ≡ some old) × (o.scheduler ≡ some old)))

  -- The second binding of the slot fails: the App is dropped as it was built.
  abbrev pub Panics : Slot ops deps → Outcome ops.World P → Type 0
  Panics before o =
      (app : App ops.World P) × (method : MethodRef) × (e : HookError) × (o.dropped ≡ some app)
      × IsBuilt app
      × (o.scheduler ≡ before)
      × (bind (slot_memory resolver method) app.shared ≡ err e)

  abbrev pub Settles : Ending → Slot ops deps → Outcome ops.World P → Type 0
  Settles (returned true) before o = HandsOver before o
  Settles (returned false) before o = GivesUp before o ⊎ TearsDown before o
  Settles panicked before o = Panics before o

  abbrev pub IsSettled : Slot ops deps → Outcome ops.World P → Type 0
  IsSettled before o = Settles o.ending before o

  add_plugins-IsBuiltOf :
      (plugins : List ProductionPlugin) (owners : List String) (app : App ops.World P)
      → IsBuiltOf owners app
      → IsBuiltOf
          (owners ++ plugin_names plugins)
          (add_plugins ops services resolver builds plugins app)
  unfolding add_plugins plugin_names
  add_plugins-IsBuiltOf [] owners app h = subst (λ ns. IsBuiltOf ns app) (sym (append-[] owners)) h
  add_plugins-IsBuiltOf (plugin ∷ plugins) owners app
        (fresh, whole, accounted, early, named, made) =
      let name = plugin_name plugin in
      let next = add_plugin ops services name (builds plugin) app in
      subst (λ ns. IsBuiltOf ns (add_plugins ops services resolver builds plugins next))
        (append_assoc owners (name ∷ []) (plugin_names plugins))
        (add_plugins-IsBuiltOf plugins (owners ++ name ∷ []) next (
          add_plugin-IsFresh ops services name (builds plugin) app fresh,
          add_plugin-IsWhole ops services name (builds plugin) app whole,
          add_plugin-Accounted ops services name (builds plugin) app (λ t. present ops t new_world)
              accounted,
          unfold add_plugin in early,
          add_plugin-names ops services name (builds plugin) app ∙ ap (λ ns. ns ++ name ∷ []) named,
          add_plugin-IsMadeBy ops services name (builds plugin) app IsMade (λ r by. (plugin, by))
              made,
        ))

  new_app-IsBuiltOf : (p : P) → IsBuiltOf [] (new_app ops services resolver new_world p)
  new_app-IsBuiltOf p = (tt, tt, λ t. omega arith, refl, refl, tt)

  plugins_enabled : plugin_names (production_plugins config) ≡ enabled_names
  unfolding plugin_names production_plugins
  plugins_enabled =
      go config.debug_enabled config.fps_unlock_fps config.translation_dump config.recon_enabled
    where
      go :
          (a b c d : Bool)
          → plugin_names (
              push_if a debug_plugin
              ++ push_if b fps_plugin
              ++ push_if c translation_dump_plugin
              ++ push_if d recon_plugin)
            ≡ when a "debug" (when b "unlock_fps" (when c "translation_dump" (when d "recon" [])))
      go a b c d = ground arith

  -- The App that the bootstrap builds.
  pub add_plugins-IsBuilt :
      (p : P)
      → IsBuilt (
          add_plugins ops services resolver builds
            (production_plugins config)
            (new_app ops services resolver new_world p))
  add_plugins-IsBuilt p =
      let app =
        add_plugins ops services resolver builds (production_plugins config)
          (new_app ops services resolver new_world p) in
      subst (λ ns. IsBuiltOf ns app) plugins_enabled
        (add_plugins-IsBuiltOf (production_plugins config) [] _ (new_app-IsBuiltOf p))
