-- ===== src/Runtime/Bootstrap/Run/Handover.antt =====
-- crates/runtime/src/bootstrap.rs: what the bootstrap leaves behind from the slot binding on.
use shiny_song_tools.Prelude.{
  ℕ, ◌≡◌, ◌≢◌, inl, inr, refl, ap, ◌∙◌, Bool, true, false, none, some, List, Result, ok, err, arith,
}
use shiny_song_tools.Core.Gate.{gate_failed_closed, new, close}
use shiny_song_tools.Core.Error.{HookError}
use shiny_song_tools.Core.MethodSlot.{MethodPointerSlot, bind, install}
use shiny_song_tools.Core.MethodSlot.Laws.{bind_captures, install-reads}
use shiny_song_tools.Core.MethodSlot.Target.{MethodRef, matches}
use shiny_song_tools.Runtime.Handoff.{publish}
use shiny_song_tools.Runtime.Host.{WorldOps}
use shiny_song_tools.Runtime.App.{App}
use shiny_song_tools.Runtime.App.Teardown.{teardown_all}
use shiny_song_tools.Runtime.App.Accounting.{present}
use shiny_song_tools.Runtime.App.Accounting.Teardown.{teardown_all-IsGone}
use shiny_song_tools.Runtime.Bootstrap.{slot_memory}
use shiny_song_tools.Runtime.Bootstrap.Publish.{
  production_plugins, SchedulerHook, Call, Attempt, drop_guard, publish_context, new_context,
  add_plugins, new_app, install_hook, drop_app, close_gate, hand_off, settle_install,
  settle_publication, settle_hook,
}
use shiny_song_tools.Runtime.Bootstrap.Run.{
  scheduler_target, BootstrapDeps, Slot, bootstrap_failed, settle_bind,
}
use shiny_song_tools.Runtime.Bootstrap.Run.Endings.{
  IsBuilt, IsTornDown, IsSettled, add_plugins-IsBuilt,
}

module _ (ops : WorldOps) {P : Type 0} (deps : BootstrapDeps ops P) where
  open deps use {api, clock, predicate, resolver, config, services, new_world, builds, replacement}

  teardown_all-IsTornDown :
      (app : App ops.World P)
      → IsBuilt ops deps app
      → IsTornDown ops deps (teardown_all ops services app)
  teardown_all-IsTornDown app (fresh, whole, accounted, early, named, made) =
      teardown_all-IsGone ops services app (λ t. present ops t new_world) whole accounted

  abbrev pub at_gate : P → List Call → Bool → Attempt P
  at_gate p calls attached = record { outside = p; calls = calls; attached = attached; gate = new }

  drop_guard-outside : (a : Attempt P) → (drop_guard a).outside ≡ a.outside
  drop_guard-outside a = ground arith

  drop_guard-gate : (a : Attempt P) → (drop_guard a).gate ≡ a.gate
  drop_guard-gate a = ground arith

  module _ (method : MethodRef) (hook : SchedulerHook) where
    -- An install that succeeds.
    abbrev Installs : SchedulerHook × P × Result HookError (Unit {0}) → Type 0
    Installs (hook', p, err e) = Unit
    Installs (hook', p, ok u) =
        (hook'.installed ≡ true)
        × (hook'.original ≡ hook.original)
        × (resolver.read method p ≡ some hook.replacement)

    abbrev flagged :
        P × Result HookError (Unit {0}) → SchedulerHook × P × Result HookError (Unit {0})
    flagged (p, r) = (record hook { installed = true }, p, r)

    flagged-Installs :
        (r : P × Result HookError (Unit {0}))
        → ((p : P) → r ≡ (p, ok tt) → resolver.read method p ≡ some hook.replacement)
        → Installs (flagged r)
    flagged-Installs (p, err e) h = tt
    flagged-Installs (p, ok u) h = (refl, refl, h p refl)

    install_hook-Installs :
        (p : P)
        → hook.installed ≡ false
        → Installs (install_hook ops services resolver method hook p)
    unfolding install_hook
    install_hook-Installs p off =
        let m = slot_memory resolver method in
        rw off (
          flagged-Installs (install m resolver.others hook.slot hook.replacement p)
            (λ t e. install-reads m resolver.others hook.slot hook.replacement p t e))

    settle_install-IsSettled :
        (app : App ops.World P) (p : P) (calls : List Call) (attached : Bool)
        (r : SchedulerHook × P × Result HookError (Unit {0}))
        → matches scheduler_target method ≡ true
        → hook.original ≢ 0
        → hook.replacement ≡ replacement
        → IsBuilt ops deps app
        → Installs r
        → IsSettled ops deps none (
            settle_install ops services resolver
              (new_context hook new)
              app
              (at_gate p calls attached)
              r)
    unfolding settle_install drop_app hand_off publish close close_gate
    settle_install-IsSettled app p calls attached (hook', q, err e) fits nz same built done = inr (
      teardown_all ops services (record app { shared = q }),
      refl,
      teardown_all-IsTornDown (record app { shared = q }) built,
      inl (
        refl,
        record {
          context = record (new_context hook new).context {
            gate = record { flag = false; control = gate_failed_closed };
          };
          hook = hook';
        },
        refl,
        refl,
        refl,
      ),
    )
    settle_install-IsSettled app p calls attached (hook', q, ok u) fits nz same built done = (
      refl,
      _,
      record app { shared = q },
      method,
      refl,
      refl,
      built,
      done.0,
      rw (done.1) nz,
      fits,
      done.2 ∙ ap some same,
      refl,
      drop_guard-outside (at_gate q calls attached),
    )

    settle_publication-IsSettled :
        (before : Slot ops deps) (app : App ops.World P) (p : P) (calls : List Call)
        (attached : Bool)
        → matches scheduler_target method ≡ true
        → hook.original ≢ 0
        → hook.replacement ≡ replacement
        → hook.installed ≡ false
        → IsBuilt ops deps app
        → IsSettled ops deps before (
            settle_publication ops services resolver method hook app
              (at_gate p calls attached)
              (publish_context before (new_context hook new)))
    unfolding settle_publication publish_context drop_app
    settle_publication-IsSettled none app p calls attached fits nz same off built =
        settle_install-IsSettled app p calls attached
          (install_hook ops services resolver method hook app.shared) fits nz same built
          (install_hook-Installs app.shared off)
    settle_publication-IsSettled (some old) app p calls attached fits nz same off built = inr (
      teardown_all ops services app,
      refl,
      teardown_all-IsTornDown app built,
      inr (old, refl, refl),
    )

  settle_hook-IsSettled :
      (before : Slot ops deps) (method : MethodRef) (original : ℕ) (app : App ops.World P) (p : P)
      (calls : List Call) (attached : Bool) (r : Result HookError MethodPointerSlot)
      → matches scheduler_target method ≡ true
      → original ≢ 0
      → IsBuilt ops deps app
      → bind (slot_memory resolver method) app.shared ≡ r
      → IsSettled ops deps before (
          settle_hook ops services resolver before method original replacement app
            (at_gate p calls attached)
            r)
  unfolding settle_hook
  settle_hook-IsSettled before method original app p calls attached (err e) fits nz built says =
      (app, method, e, refl, built, refl, says)
  settle_hook-IsSettled before method original app p calls attached (ok slot) fits nz built says =
      settle_publication-IsSettled method
        (record { slot = slot; original = original; replacement = replacement; installed = false })
        before app p calls attached fits nz refl refl built

  pub bootstrap_failed-IsSettled :
      (before : Slot ops deps) (a : Attempt P)
      → IsSettled ops deps before (bootstrap_failed ops deps before a)
  unfolding bootstrap_failed close
  bootstrap_failed-IsSettled before a =
      inl (refl, refl, ap (λ g. g.control) (drop_guard-gate (record a { gate = close a.gate })))

  pub settle_bind-IsSettled :
      (before : Slot ops deps) (method : MethodRef) (p : P) (calls : List Call) (attached : Bool)
      (r : Result HookError MethodPointerSlot)
      → matches scheduler_target method ≡ true
      → bind (slot_memory resolver method) p ≡ r
      → IsSettled ops deps before (settle_bind ops deps before method (at_gate p calls attached) r)
  unfolding settle_bind
  settle_bind-IsSettled before method p calls attached (err e) fits says =
      bootstrap_failed-IsSettled before (at_gate p calls attached)
  settle_bind-IsSettled before method p calls attached (ok slot) fits says =
      let app =
        add_plugins ops services resolver builds (production_plugins config)
          (new_app ops services resolver new_world p) in
      settle_hook-IsSettled before method slot.original app p calls attached
        (bind (slot_memory resolver method) app.shared) fits
        (bind_captures (slot_memory resolver method) p slot says).1 (add_plugins-IsBuilt ops deps p)
        refl
