-- ===== src/Runtime/Bootstrap/Run.antt =====
-- crates/runtime/src/bootstrap.rs: `run_bootstrap_with_readiness_wait`, rung by rung. `none` is a wait
-- for readiness that has used up its fuel.
pub mod Endings
pub mod Handover
pub mod Settled
pub mod Climb
pub mod Tests
use shiny_song_tools.Prelude.{
  ℕ, Bool, true, false, Option, none, some, List, [], ◌∷◌, ◌++◌, if◌then◌else◌, Result, ok, err,
}
use shiny_song_tools.Core.Gate.{new, close}
use shiny_song_tools.Core.Error.{HookError, Il2CppError}
use shiny_song_tools.Core.MethodSlot.{MethodPointerSlot, bind}
use shiny_song_tools.Core.MethodSlot.Target.{TargetId, MethodRef, matches}
use shiny_song_tools.Runtime.Config.{RuntimeConfig}
use shiny_song_tools.Runtime.Host.{WorldOps}
use shiny_song_tools.Runtime.App.{Services, App}
use shiny_song_tools.Runtime.App.Build.{Build}
use shiny_song_tools.Runtime.Bootstrap.{
  Clock, BootstrapReadiness, Il2CppApi, SlotResolver, slot_memory,
}
use shiny_song_tools.Runtime.Bootstrap.Polling.{Polled, await_bootstrap_readiness}
use shiny_song_tools.Runtime.Bootstrap.Publish.{
  ProductionPlugin, production_plugins, Published, Call, image, exports, readiness, domain, attach,
  hydrate, identity, resolved, Attempt, returned, Outcome, drop_guard, add_plugins, new_app,
  settle_hook,
}

abbrev pub scheduler_target : TargetId
scheduler_target = record {
  assembly = "UniRx.dll";
  namespace = "UniRx";
  class = "MainThreadDispatcher";
  method = "LateUpdate";
  param_count = 0;
  is_static = false;
  return_type = "void";
  parameter_types = [];
}

-- In milliseconds.
abbrev criware_poll_deadline : ℕ
criware_poll_deadline = 120_000

abbrev criware_poll_backoff : ℕ
criware_poll_backoff = 50

-- `BootstrapDeps` and the other things that the run is given: the world of the ECS library, the code of
-- the plugins, and the address of the replacement.
pub record BootstrapDeps (ops : WorldOps) (P : Type 0) : Type 0 where
  pub api : Il2CppApi P
  pub clock : Clock P
  pub predicate : BootstrapReadiness P clock
  pub resolver : SlotResolver P
  pub config : RuntimeConfig
  pub services : Services ops.World P
  pub new_world : ops.World
  pub builds : ProductionPlugin → Build ops.World P
  pub replacement : ℕ

module _ (ops : WorldOps) {P : Type 0} (deps : BootstrapDeps ops P) where
  open deps use {api, clock, predicate, resolver, config, services, new_world, builds, replacement}

  abbrev pub Slot : Type 0
  Slot = Option (Published (App ops.World P))

  -- No caller passes an App.
  unfoldable pub bootstrap_failed : Slot → Attempt P → Outcome ops.World P
  unfolding close
  bootstrap_failed scheduler a = record {
    ending = returned false;
    scheduler = scheduler;
    dropped = none;
    attempt = drop_guard (record a { gate = close a.gate });
  }

  abbrev pub seen : Call → P → Attempt P → Attempt P
  seen call p a = record a { outside = p; calls = a.calls ++ call ∷ [] }

  abbrev Goes : Type 0
  Goes = Attempt P → Option (Outcome ops.World P)

  -- What a call of the ladder gave, and how the run goes on.
  unfoldable pub settle_rung {ℓ} :
      {A : Type 0} {E : Type ℓ}
      → Slot
      → Call
      → (A → Goes)
      → Attempt P
      → P × Result E A
      → Option (Outcome ops.World P)
  unfolding bootstrap_failed
  settle_rung scheduler call next a (p, ok x) = next x (seen call p a)
  settle_rung scheduler call next a (p, err e) = some (bootstrap_failed scheduler (seen call p a))

  unfoldable pub rung {ℓ} :
      {A : Type 0} {E : Type ℓ} → Slot → Call → (P → P × Result E A) → (A → Goes) → Goes
  unfolding settle_rung
  rung scheduler call op next a = settle_rung scheduler call next a (op a.outside)

  unfoldable pub settle_wait :
      Slot → (Unit {0} → Goes) → Attempt P → Polled P (Unit {0}) → Option (Outcome ops.World P)
  unfolding settle_rung
  settle_wait scheduler next a none = none
  settle_wait scheduler next a (some polled) = settle_rung scheduler readiness next a polled

  unfoldable pub settle_bind :
      Slot → MethodRef → Attempt P → Result HookError MethodPointerSlot → Outcome ops.World P
  unfolding bootstrap_failed add_plugins production_plugins bind settle_hook
  settle_bind scheduler method a (err e) = bootstrap_failed scheduler a
  settle_bind scheduler method a (ok slot) =
      let app =
        add_plugins ops services resolver builds (production_plugins config)
          (new_app ops services resolver new_world a.outside) in
      settle_hook ops services resolver scheduler method slot.original replacement app a
        (bind (slot_memory resolver method) app.shared)

  -- From the resolved method on.
  unfoldable pub from_method : Slot → MethodRef → Goes
  unfolding settle_bind matches
  from_method scheduler method a =
      if matches scheduler_target method
      then some (settle_bind scheduler method a (bind (slot_memory resolver method) a.outside))
      else some (bootstrap_failed scheduler a)

  -- From each call of the ladder on, the last first.
  unfoldable pub from_identity : Slot → Unit {0} → Goes
  unfolding rung from_method
  from_identity scheduler u =
      rung scheduler resolved (resolver.resolve scheduler_target) (from_method scheduler)

  unfoldable pub from_hydrate : Slot → Unit {0} → Goes
  unfolding rung from_identity
  from_hydrate scheduler u = rung scheduler identity api.runtime_identity (from_identity scheduler)

  unfoldable pub from_attach : Slot → Unit {0} → Goes
  unfolding rung from_hydrate
  from_attach scheduler u a =
      rung scheduler hydrate api.hydrate_metadata (from_hydrate scheduler)
        (record a { attached = true })

  unfoldable pub from_domain : Slot → Unit {0} → Goes
  unfolding rung from_attach
  from_domain scheduler u = rung scheduler attach api.attach_current_thread (from_attach scheduler)

  unfoldable pub from_readiness : Slot → Unit {0} → Goes
  unfolding rung from_domain
  from_readiness scheduler u = rung scheduler domain api.domain_get (from_domain scheduler)

  unfoldable pub wait : Slot → ℕ → ℕ → ℕ → Unit {0} → Goes
  unfolding settle_wait await_bootstrap_readiness from_readiness
  wait scheduler fuel deadline backoff u a =
      settle_wait scheduler (from_readiness scheduler) a
        (await_bootstrap_readiness clock predicate fuel deadline backoff a.outside)

  unfoldable pub from_image : Slot → ℕ → ℕ → ℕ → Unit {0} → Goes
  unfolding rung wait
  from_image scheduler fuel deadline backoff u =
      rung scheduler exports api.load_exports (wait scheduler fuel deadline backoff)

  unfoldable pub run_bootstrap_with_readiness_wait :
      Slot → ℕ → ℕ → ℕ → P → Option (Outcome ops.World P)
  unfolding rung from_image new
  run_bootstrap_with_readiness_wait scheduler fuel deadline backoff p =
      rung scheduler image api.unity_framework_image (from_image scheduler fuel deadline backoff)
        (record { outside = p; calls = []; attached = false; gate = new })

  -- The pauses of 2400 rounds reach the deadline.
  unfoldable pub run_bootstrap : Slot → P → Option (Outcome ops.World P)
  unfolding run_bootstrap_with_readiness_wait
  run_bootstrap scheduler p =
      run_bootstrap_with_readiness_wait scheduler 2401 criware_poll_deadline criware_poll_backoff p
