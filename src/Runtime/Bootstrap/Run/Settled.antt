-- ===== src/Runtime/Bootstrap/Run/Settled.antt =====
-- crates/runtime/src/bootstrap.rs: what a run of the bootstrap leaves behind, on every way out.
use shiny_song_tools.Prelude.{
  ℕ, suc, ◌+◌, ◌*◌, ◌≤◌, refl, Bool, true, false, Option, none, some, List, [], ◌∷◌, ◌++◌, if-elim,
  Result, ok, err,
}
use shiny_song_tools.Core.MethodSlot.{bind}
use shiny_song_tools.Core.MethodSlot.Target.{MethodRef, matches}
use shiny_song_tools.Runtime.Host.{WorldOps}
use shiny_song_tools.Runtime.Bootstrap.{slot_memory}
use shiny_song_tools.Runtime.Bootstrap.Publish.{
  Call, image, exports, readiness, domain, attach, hydrate, identity, resolved, Attempt, Outcome,
}
use shiny_song_tools.Runtime.Bootstrap.Run.{
  scheduler_target, BootstrapDeps, Slot, settle_rung, rung, settle_wait, from_method, from_identity,
  from_hydrate, from_attach, from_domain, from_readiness, wait, from_image,
  run_bootstrap_with_readiness_wait,
}
use shiny_song_tools.Runtime.Bootstrap.Run.Endings.{IsSettled}
use shiny_song_tools.Runtime.Bootstrap.Polling.{Polled, await_bootstrap_readiness}
use shiny_song_tools.Runtime.Bootstrap.Polling.Ends.{
  Terminates, await_bootstrap_readiness-Terminates,
}
use shiny_song_tools.Runtime.Bootstrap.Run.Handover.{
  at_gate, bootstrap_failed-IsSettled, settle_bind-IsSettled,
}

module _ (ops : WorldOps) {P : Type 0} (deps : BootstrapDeps ops P) where
  open deps use {api, clock, predicate, resolver, config, services, new_world, builds, replacement}

  -- The run has an end, and the end is as stated.
  abbrev pub Completes : Slot ops deps → Option (Outcome ops.World P) → Type 0
  Completes before none = ⊥
  Completes before (some o) = IsSettled ops deps before o

  abbrev Goes-Completes : Slot ops deps → (Attempt P → Option (Outcome ops.World P)) → Type 0
  Goes-Completes before next =
      (p : P) (calls : List Call) (attached : Bool)
      → Completes before (next (at_gate ops deps p calls attached))

  settle_rung-Completes {ℓ} :
      {A : Type 0} {E : Type ℓ} (before : Slot ops deps) (call : Call)
      (next : A → Attempt P → Option (Outcome ops.World P))
      → ((x : A) → Goes-Completes before (next x))
      → (p : P) (calls : List Call) (attached : Bool) (r : P × Result E A)
      → Completes before
          (settle_rung ops deps before call next (at_gate ops deps p calls attached) r)
  unfolding settle_rung
  settle_rung-Completes before call next h p calls attached (q, ok x) =
      h x q (calls ++ call ∷ []) attached
  settle_rung-Completes before call next h p calls attached (q, err e) =
      bootstrap_failed-IsSettled ops deps before (at_gate ops deps q (calls ++ call ∷ []) attached)

  rung-Completes {ℓ} :
      {A : Type 0} {E : Type ℓ} (before : Slot ops deps) (call : Call) (op : P → P × Result E A)
      (next : A → Attempt P → Option (Outcome ops.World P))
      → ((x : A) → Goes-Completes before (next x))
      → Goes-Completes before (rung ops deps before call op next)
  unfolding rung
  rung-Completes before call op next h p calls attached =
      settle_rung-Completes before call next h p calls attached (op p)

  from_method-Completes :
      (before : Slot ops deps) (method : MethodRef)
      → Goes-Completes before (from_method ops deps before method)
  unfolding from_method
  from_method-Completes before method p calls attached =
      if-elim (Completes before) (matches scheduler_target method) _ _
        (λ fits.
          settle_bind-IsSettled ops deps before method p calls attached
            (bind (slot_memory resolver method) p) fits refl)
        (λ drifted. bootstrap_failed-IsSettled ops deps before (at_gate ops deps p calls attached))

  from_identity-Completes :
      (before : Slot ops deps) (u : Unit {0})
      → Goes-Completes before (from_identity ops deps before u)
  unfolding from_identity
  from_identity-Completes before u =
      rung-Completes before resolved (resolver.resolve scheduler_target)
        (from_method ops deps before) (from_method-Completes before)

  from_hydrate-Completes :
      (before : Slot ops deps) (u : Unit {0})
      → Goes-Completes before (from_hydrate ops deps before u)
  unfolding from_hydrate
  from_hydrate-Completes before u =
      rung-Completes before identity api.runtime_identity (from_identity ops deps before)
        (from_identity-Completes before)

  from_attach-Completes :
      (before : Slot ops deps) (u : Unit {0})
      → Goes-Completes before (from_attach ops deps before u)
  unfolding from_attach
  from_attach-Completes before u p calls attached =
      rung-Completes before hydrate api.hydrate_metadata (from_hydrate ops deps before)
        (from_hydrate-Completes before) p calls true

  from_domain-Completes :
      (before : Slot ops deps) (u : Unit {0})
      → Goes-Completes before (from_domain ops deps before u)
  unfolding from_domain
  from_domain-Completes before u =
      rung-Completes before attach api.attach_current_thread (from_attach ops deps before)
        (from_attach-Completes before)

  from_readiness-Completes :
      (before : Slot ops deps) (u : Unit {0})
      → Goes-Completes before (from_readiness ops deps before u)
  unfolding from_readiness
  from_readiness-Completes before u =
      rung-Completes before domain api.domain_get (from_domain ops deps before)
        (from_domain-Completes before)

  settle_wait-Completes :
      (before : Slot ops deps) (deadline_at : ℕ) (p : P) (calls : List Call) (attached : Bool)
      (polled : Polled P (Unit {0}))
      → Terminates clock predicate deadline_at polled
      → Completes before (
          settle_wait ops deps before
            (from_readiness ops deps before)
            (at_gate ops deps p calls attached)
            polled)
  unfolding settle_wait
  settle_wait-Completes before deadline_at p calls attached none ends = elim ends [ ]
  settle_wait-Completes before deadline_at p calls attached (some polled) ends =
      settle_rung-Completes before readiness (from_readiness ops deps before)
        (from_readiness-Completes before) p calls attached polled

  from_image-Completes :
      (before : Slot ops deps) (k deadline backoff : ℕ)
      → deadline ≤ k * backoff
      → (u : Unit {0})
      → Goes-Completes before (from_image ops deps before (suc k) deadline backoff u)
  unfolding from_image wait
  from_image-Completes before k deadline backoff h u =
      rung-Completes before exports api.load_exports (wait ops deps before (suc k) deadline backoff)
        (λ u q calls attached.
          settle_wait-Completes before (clock.now q + deadline) q calls attached
            (await_bootstrap_readiness clock predicate (suc k) deadline backoff q)
            (await_bootstrap_readiness-Terminates clock predicate k deadline backoff q h))

  -- Where the pauses of `k` rounds of the readiness wait reach its deadline, a run of the bootstrap has
  -- an end on every way through it. It returns true only if no context was published before; then the new
  -- context waits for its first frame with a fresh gate, its handoff holds an App with exactly the owners
  -- of the plugins that the configuration enables, in their order, none of whose gates has been opened
  -- and each of whom is as its build left it, active with all that it registered, or, where its build
  -- failed, retired with nothing left; the hook is installed over an original that is not null, and the
  -- slot of the validated method holds the replacement. If it returns false before there is an App, the
  -- gate of the run is closed and no context is published. If it returns false later, every owner of the
  -- App is retired with nothing left and the world has the resources that it came with; the context that
  -- it published has its gate closed and an empty handoff, and an earlier context stays as it was. It
  -- panics only if the second binding of the slot fails.
  pub run_bootstrap_with_readiness_wait-Completes :
      (before : Slot ops deps) (k deadline backoff : ℕ) (p : P)
      → deadline ≤ k * backoff
      → Completes before
          (run_bootstrap_with_readiness_wait ops deps before (suc k) deadline backoff p)
  unfolding run_bootstrap_with_readiness_wait
  run_bootstrap_with_readiness_wait-Completes before k deadline backoff p h =
      rung-Completes before image api.unity_framework_image
        (from_image ops deps before (suc k) deadline backoff)
        (from_image-Completes before k deadline backoff h) p [] false
