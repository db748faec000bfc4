-- ===== src/Runtime/Bootstrap/Polling.antt =====
-- The two polling loops of crates/runtime/src/bootstrap.rs. The fuel counts the polls; `none` is a loop
-- that has used it up.
pub mod Ends
pub mod Tests
use Prim.Native.String.{String}
use shiny_song_tools.Prelude.{
  ℕ, zero, suc, ◌+◌, ◌-◌, Bool, true, false, Option, none, some, leb, if◌then◌else◌, Result, ok,
  err,
}
use shiny_song_tools.Core.Error.{Il2CppError, readiness_deadline_exceeded, image_not_found}
use shiny_song_tools.Runtime.Bootstrap.{Clock, BootstrapReadiness, ImageTable}

abbrev pub min : ℕ → ℕ → ℕ
min a b = if leb a b then a else b

abbrev pub Polled : Type 0 → Type 0 → Type 0
Polled P A = Option (P × Result Il2CppError A)

module _ {P : Type 0} (clock : Clock P) (readiness : BootstrapReadiness P clock) where
  unfoldable pub pause : ℕ → ℕ → P → P
  pause deadline_at backoff p = clock.sleep (min backoff (deadline_at - clock.now p)) p

  -- The rest of one round: what the predicate answered, the deadline, and the further rounds.
  unfoldable pub settle_poll :
      ℕ → P → Result Il2CppError Bool → Polled P (Unit {0}) → Polled P (Unit {0})
  settle_poll deadline_at p (err e) rest = some (p, err e)
  settle_poll deadline_at p (ok true) rest = some (p, ok tt)
  settle_poll deadline_at p (ok false) rest =
      if leb deadline_at (clock.now p) then some (p, err readiness_deadline_exceeded) else rest

  unfoldable pub poll_readiness : ℕ → ℕ → ℕ → P → Polled P (Unit {0})
  unfolding settle_poll pause
  poll_readiness zero deadline_at backoff p = none
  poll_readiness (suc fuel) deadline_at backoff p =
      let (p', answer) = readiness.is_ready p in
      settle_poll deadline_at p' answer
        (poll_readiness fuel deadline_at backoff (pause deadline_at backoff p'))

  unfoldable pub await_bootstrap_readiness : ℕ → ℕ → ℕ → P → Polled P (Unit {0})
  unfolding poll_readiness
  await_bootstrap_readiness fuel deadline backoff p =
      poll_readiness fuel (clock.now p + deadline) backoff p

module _ {P : Type 0} (clock : Clock P) (images : ImageTable P clock) where
  unfoldable pub settle_look : ℕ → P → Option String → Polled P String → Polled P String
  settle_look deadline_at p (some path) rest = some (images.open_handle path p)
  settle_look deadline_at p none rest =
      if leb deadline_at (clock.now p) then some (p, err image_not_found) else rest

  unfoldable pub poll_image : ℕ → ℕ → ℕ → P → Polled P String
  unfolding settle_look
  poll_image zero deadline_at backoff p = none
  poll_image (suc fuel) deadline_at backoff p =
      let (p', path) = images.enumerate_unity_framework p in
      settle_look deadline_at p' path (poll_image fuel deadline_at backoff (clock.sleep backoff p'))

  unfoldable pub await_unity_framework : ℕ → ℕ → ℕ → P → Polled P String
  unfolding poll_image
  await_unity_framework fuel deadline backoff p = poll_image fuel (clock.now p + deadline) backoff p
