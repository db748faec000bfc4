-- ===== src/Runtime/Bootstrap/Publish.antt =====
-- crates/runtime/src/bootstrap.rs from the App build on, with `SchedulerHook::new`, `publish_context`
-- and `install_hook` of crates/runtime/src/scheduler.rs. The outside is the shared state of the App
-- from its build on.
use Prim.Native.String.{String}
use shiny_song_tools.Prelude.{
  ℕ, Bool, true, false, Option, none, some, List, [], ◌∷◌, ◌++◌, if◌then◌else◌, Result, ok, err,
}
use shiny_song_tools.Core.Gate.{RuntimeGate, close}
use shiny_song_tools.Core.Error.{HookError, site_already_registered}
use shiny_song_tools.Core.MethodSlot.{MethodPointerSlot, install}
use shiny_song_tools.Core.MethodSlot.Target.{MethodRef}
use shiny_song_tools.Runtime.Config.{RuntimeConfig}
use shiny_song_tools.Runtime.Handoff.{empty, publish}
use shiny_song_tools.Runtime.Scheduler.{Context, awaiting_handoff}
use shiny_song_tools.Runtime.Host.{WorldOps}
use shiny_song_tools.Runtime.App.{Services, App}
use shiny_song_tools.Runtime.App.Build.{Build, add_plugin}
use shiny_song_tools.Runtime.App.Teardown.{teardown_all}
use shiny_song_tools.Runtime.Bootstrap.{SlotResolver, slot_memory}

pub data ProductionPlugin : Type 0 where
  debug_plugin fps_plugin translation_dump_plugin recon_plugin : ProductionPlugin

-- `Plugin::name`.
abbrev pub plugin_name : ProductionPlugin → String
plugin_name debug_plugin = "debug"
plugin_name fps_plugin = "unlock_fps"
plugin_name translation_dump_plugin = "translation_dump"
plugin_name recon_plugin = "recon"

abbrev pub push_if : Bool → ProductionPlugin → List ProductionPlugin
push_if true plugin = plugin ∷ []
push_if false plugin = []

unfoldable pub production_plugins : RuntimeConfig → List ProductionPlugin
production_plugins config =
    push_if config.debug_enabled debug_plugin
    ++ push_if config.fps_unlock_fps fps_plugin
    ++ push_if config.translation_dump translation_dump_plugin
    ++ push_if config.recon_enabled recon_plugin

-- `replacement` is the address of `scheduler_replacement`.
pub record SchedulerHook : Type 0 where
  pub slot : MethodPointerSlot
  pub original : ℕ
  pub replacement : ℕ
  pub installed : Bool

-- The context in `SCHEDULER`: the part that the frames use, and the hook.
pub record Published (A : Type 0) : Type 0 where
  pub context : Context A
  pub hook : SchedulerHook

-- The calls of the ladder that the outside sees.
pub data Call : Type 0 where
  image exports readiness domain attach hydrate identity resolved detach : Call

-- One run of the bootstrap; `attached` says whether it holds the guard of its attachment.
pub record Attempt (P : Type 0) : Type 0 where
  pub outside : P
  pub calls : List Call
  pub attached : Bool
  pub gate : RuntimeGate

pub data Ending : Type 0 where
  returned : Bool → Ending
  panicked : Ending

-- What a run leaves: its end, `SCHEDULER`, the App that it dropped, and its attempt. After the context
-- is published, the gate of the attempt is the one in the context.
pub record Outcome (W P : Type 0) : Type 0 where
  pub ending : Ending
  pub scheduler : Option (Published (App W P))
  pub dropped : Option (App W P)
  pub attempt : Attempt P

-- The guard of the attachment detaches when it is dropped, on every way out.
abbrev pub drop_guard : {P : Type 0} → Attempt P → Attempt P
drop_guard a = if a.attached then record a { calls = a.calls ++ detach ∷ [] } else a

module _ {A : Type 0} where
  -- `OnceLock::set`.
  unfoldable pub publish_context : Option (Published A) → Published A → Option (Published A) × Bool
  publish_context none c = (some c, true)
  publish_context (some old) c = (some old, false)

  abbrev pub new_context : SchedulerHook → RuntimeGate → Published A
  new_context hook gate = record {
    context = record {
      handoff = empty;
      gate = gate;
      failed = false;
      slot = awaiting_handoff;
      retained = [];
      log = [];
    };
    hook = hook;
  }

module _ (ops : WorldOps) {P : Type 0} (services : Services ops.World P)
    (resolver : SlotResolver P) where
  -- `builds` is the code of the plugins' `build`, in their crates.
  unfoldable pub add_plugins :
      (ProductionPlugin → Build ops.World P)
      → List ProductionPlugin
      → App ops.World P
      → App ops.World P
  unfolding add_plugin
  add_plugins builds [] app = app
  add_plugins builds (plugin ∷ plugins) app =
      add_plugins builds plugins (add_plugin ops services (plugin_name plugin) (builds plugin) app)

  -- `App::new`.
  abbrev pub new_app : ops.World → P → App ops.World P
  new_app world outside = record {
    world = world;
    shared = outside;
    plugins = record { records = []; next_owner = 0 };
    frames = 0;
    startup_completed = false;
  }

  unfoldable pub install_hook :
      MethodRef → SchedulerHook → P → SchedulerHook × P × Result HookError (Unit {0})
  unfolding install
  install_hook method hook p =
      if hook.installed
      then (hook, p, err site_already_registered)
      else (let (p', r) =
            install (slot_memory resolver method) resolver.others hook.slot hook.replacement p in
          (record hook { installed = true }, p', r))

  abbrev pub Ends : Type 0
  Ends = Outcome ops.World P

  -- The end of a run that drops the App that it has: the App is torn down first.
  unfoldable pub drop_app :
      Option (Published (App ops.World P)) → App ops.World P → Attempt P → Ends
  unfolding teardown_all
  drop_app scheduler app a =
      let gone = teardown_all ops services app in
      record {
        ending = returned false;
        scheduler = scheduler;
        dropped = some gone;
        attempt = drop_guard (record a { outside = gone.shared });
      }

  -- `RuntimeGate::close` on the gate of a published context.
  unfoldable pub close_gate : Published (App ops.World P) → Published (App ops.World P)
  unfolding close
  close_gate c = record c { context = record c.context { gate = close c.context.gate } }

  -- The publication of the App. A refusal comes after the App was taken out of its variable, so that
  -- there is none left to tear down.
  unfoldable pub hand_off : Published (App ops.World P) → App ops.World P → Attempt P → Ends
  unfolding publish close_gate
  hand_off c app a =
      let (h, accepted) = publish c.context.handoff app in
      let c' = record c { context = record c.context { handoff = h } } in
      let a' = drop_guard (record a { outside = app.shared }) in
      if accepted
      then record { ending = returned true; scheduler = some c'; dropped = none; attempt = a' }
      else record {
        ending = returned false;
        scheduler = some (close_gate c');
        dropped = some app;
        attempt = a';
      }

  unfoldable pub settle_install :
      Published (App ops.World P)
      → App ops.World P
      → Attempt P
      → SchedulerHook × P × Result HookError (Unit {0})
      → Ends
  unfolding close_gate hand_off drop_app
  settle_install c app a (hook, p, err e) =
      drop_app (some (close_gate (record c { hook = hook }))) (record app { shared = p }) a
  settle_install c app a (hook, p, ok u) =
      hand_off (record c { hook = hook }) (record app { shared = p }) a

  unfoldable pub settle_publication :
      MethodRef
      → SchedulerHook
      → App ops.World P
      → Attempt P
      → Option (Published (App ops.World P)) × Bool
      → Ends
  unfolding install_hook settle_install drop_app
  settle_publication method hook app a (scheduler, false) = drop_app scheduler app a
  settle_publication method hook app a (scheduler, true) =
      settle_install (new_context hook a.gate) app a (install_hook method hook app.shared)

  -- `SchedulerHook::new` binds the slot again, and panics where that fails.
  unfoldable pub settle_hook :
      Option (Published (App ops.World P))
      → MethodRef
      → ℕ
      → ℕ
      → App ops.World P
      → Attempt P
      → Result HookError MethodPointerSlot
      → Ends
  unfolding settle_publication publish_context
  settle_hook scheduler method original replacement app a (err e) = record {
    ending = panicked;
    scheduler = scheduler;
    dropped = some app;
    attempt = drop_guard (record a { outside = app.shared });
  }
  settle_hook scheduler method original replacement app a (ok slot) =
      let hook : SchedulerHook = record {
        slot = slot;
        original = original;
        replacement = replacement;
        installed = false;
      } in
      settle_publication method hook app a (publish_context scheduler (new_context hook a.gate))
