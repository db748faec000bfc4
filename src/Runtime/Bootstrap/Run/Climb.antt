-- ===== src/Runtime/Bootstrap/Run/Climb.antt =====
-- crates/runtime/src/bootstrap.rs: the order of the calls that a run of the bootstrap makes.
use shiny_song_tools.Prelude.{
  ℕ, ◌≡◌, ◌⊎◌, Bool, true, false, Option, none, some, List, [], ◌∷◌, ◌++◌, Result, ok, err,
}
use shiny_song_tools.Runtime.Host.{WorldOps}
use shiny_song_tools.Runtime.App.{App}
use shiny_song_tools.Runtime.Bootstrap.Polling.{Polled, await_bootstrap_readiness}
use shiny_song_tools.Runtime.Bootstrap.Publish.{
  Call, image, exports, readiness, domain, attach, hydrate, identity, resolved, detach, returned,
  Outcome,
}
use shiny_song_tools.Runtime.Bootstrap.Run.{scheduler_target, BootstrapDeps}

abbrev pub ladder : List Call
ladder = image ∷ exports ∷ readiness ∷ domain ∷ attach ∷ hydrate ∷ identity ∷ resolved ∷ []

abbrev pub guard_calls : Bool → List Call
guard_calls true = detach ∷ []
guard_calls false = []

module _ (ops : WorldOps) {P : Type 0} (deps : BootstrapDeps ops P) where
  open deps use {api, clock, predicate, resolver, config, services, new_world, builds, replacement}

  abbrev end_of {ℓ} : {A : Type 0} {E : Type ℓ} → P × Result E A → P × Bool
  end_of (p, ok x) = (p, true)
  end_of (p, err e) = (p, false)

  abbrev end_of_wait : Polled P (Unit {0}) → Option (P × Bool)
  end_of_wait none = none
  end_of_wait (some polled) = some (end_of polled)

  module _ (fuel deadline backoff : ℕ) where
    -- What a call of the ladder makes of the outside, and whether it succeeds.
    abbrev pub answer : Call → P → Option (P × Bool)
    answer image p = some (end_of (api.unity_framework_image p))
    answer exports p = some (end_of (api.load_exports p))
    answer readiness p =
        end_of_wait (await_bootstrap_readiness clock predicate fuel deadline backoff p)
    answer domain p = some (end_of (api.domain_get p))
    answer attach p = some (end_of (api.attach_current_thread p))
    answer hydrate p = some (end_of (api.hydrate_metadata p))
    answer identity p = some (end_of (api.runtime_identity p))
    answer resolved p = some (end_of (resolver.resolve scheduler_target p))
    answer detach p = none

    -- The calls succeed one after the other, and lead from one outside to the other.
    abbrev pub Went : P → List Call → P → Type 0
    Went p [] q = p ≡ q
    Went p (c ∷ cs) q = (r : P) × (answer c p ≡ some (r, true)) × Went r cs q

    -- The calls before the last one succeeded, and the last one failed.
    abbrev Failed : P → List Call → Type 0
    Failed p done =
        (front : List Call) × (last : Call) × (q : P) × (r : P) × (done ≡ front ++ last ∷ [])
        × Went p front q
        × (answer last q ≡ some (r, false))

    -- The calls are the first ones of the ladder, and a detach after them exactly if the thread was
    -- attached. All of the ladder was called and succeeded; or the last call failed, those before it
    -- succeeded, and the run returned false.
    abbrev pub IsClimb : P → Outcome ops.World P → Type 0
    IsClimb start o =
        (done left : List Call) × (done ++ left ≡ ladder)
        × (o.attempt.calls ≡ done ++ guard_calls o.attempt.attached)
        × (((left ≡ []) × (q : P) × Went start done q)
            ⊎ (Failed start done × (o.ending ≡ returned false)))

    abbrev pub Climbs : P → Option (Outcome ops.World P) → Type 0
    Climbs start none = Unit
    Climbs start (some o) = IsClimb start o

  -- With the thread attached, an end of the run adds the detach and makes no other call.
  abbrev Detaches : List Call → Outcome ops.World P → Type 0
  Detaches calls o = (o.attempt.calls ≡ calls ++ detach ∷ []) × (o.attempt.attached ≡ true)

  module _ (fuel deadline backoff : ℕ) (start : P) where
    -- From the calls that have succeeded on, in order.
    abbrev Good : P → List Call → Type 0
    Good p calls = Went fuel deadline backoff start calls p

    abbrev Climbed : Option (Outcome ops.World P) → Type 0
    Climbed o = Climbs fuel deadline backoff start o
