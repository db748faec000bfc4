-- ===== src/Runtime/Bootstrap/Polling/Ends.antt =====
-- The ends of the polling loops of crates/runtime/src/bootstrap.rs.
use Prim.Native.String.{String}
use shiny_song_tools.Prelude.{
  ℕ, zero, suc, ◌+◌, ◌-◌, ◌*◌, ◌≤◌, ◌<◌, ◌≡◌, refl, Bool, true, false, Option, none, some, leb,
  Result, ok, err, arith, inl, inr, ◌⊎◌, if-elim,
}
use shiny_song_tools.Core.Error.{Il2CppError, readiness_deadline_exceeded, image_not_found}
use shiny_song_tools.Runtime.Bootstrap.{Clock, BootstrapReadiness, ImageTable}
use shiny_song_tools.Runtime.Bootstrap.Polling.{
  min, Polled, pause, settle_poll, poll_readiness, await_bootstrap_readiness, settle_look,
  poll_image, await_unity_framework,
}

module _ {P : Type 0} (clock : Clock P) (readiness : BootstrapReadiness P clock) where
  -- A poll: the state that it starts from and the one that it ends in, with its answer.
  abbrev Answers : P → P → Result Il2CppError Bool → Type 0
  Answers p p' answer = readiness.is_ready p ≡ (p', answer)

  -- The loop ends right after a poll, with what the poll said, or with the expiry of the deadline
  -- after a poll that said no.
  abbrev pub EndsAt : ℕ → P → Result Il2CppError (Unit {0}) → Type 0
  EndsAt deadline_at p' (ok u) = (p : P) × Answers p p' (ok true)
  EndsAt deadline_at p' (err e) =
      (p : P) × (Answers p p' (err e)
        ⊎ (Answers p p' (ok false)
            × (deadline_at ≤ clock.now p')
            × (e ≡ readiness_deadline_exceeded)))

  pause-later :
      (k deadline_at backoff : ℕ) (p p' : P)
      → deadline_at ≤ clock.now p + suc k * backoff
      → clock.now p ≤ clock.now p'
      → deadline_at ≤ clock.now (pause clock readiness deadline_at backoff p') + k * backoff
  unfolding pause
  pause-later k deadline_at backoff p p' h later =
      ground (arith, clock.now-sleep (min backoff (deadline_at - clock.now p')) p')

  abbrev pub Terminates : ℕ → Polled P (Unit {0}) → Type 0
  Terminates deadline_at none = ⊥
  Terminates deadline_at (some (p', r)) = EndsAt deadline_at p' r

  settle_poll-Terminates :
      (deadline_at : ℕ) (p p' : P) (answer : Result Il2CppError Bool) (rest : Polled P (Unit {0}))
      → Answers p p' answer
      → (clock.now p' < deadline_at → Terminates deadline_at rest)
      → Terminates deadline_at (settle_poll clock readiness deadline_at p' answer rest)
  unfolding settle_poll
  settle_poll-Terminates deadline_at p p' (err e) rest says more = (p, inl says)
  settle_poll-Terminates deadline_at p p' (ok true) rest says more = (p, says)
  settle_poll-Terminates deadline_at p p' (ok false) rest says more =
      if-elim (Terminates deadline_at) (leb deadline_at (clock.now p')) _ rest
        (λ t. (p, inr (says, ground (arith, t), refl))) (λ f. more (ground (arith, f)))

  poll_readiness-Terminates :
      (k deadline_at backoff : ℕ) (p : P)
      → deadline_at ≤ clock.now p + k * backoff
      → Terminates deadline_at (poll_readiness clock readiness (suc k) deadline_at backoff p)
  unfolding poll_readiness
  poll_readiness-Terminates zero deadline_at backoff p h =
      let (p', answer) = readiness.is_ready p in
      settle_poll-Terminates deadline_at p p' answer none refl
        (λ early. absurd (omega (arith, h, early, readiness.now-is_ready p)))
  poll_readiness-Terminates (suc k) deadline_at backoff p h =
      let (p', answer) = readiness.is_ready p in
      let p'' = pause clock readiness deadline_at backoff p' in
      settle_poll-Terminates deadline_at p p' answer _ refl (λ early.
        poll_readiness-Terminates k deadline_at backoff p''
          (pause-later k deadline_at backoff p p' h (readiness.now-is_ready p)))

  -- Where the pauses of `k` rounds reach the deadline, the wait for readiness is over after at most
  -- `k + 1` polls. It ends right after a poll that answered yes, after one that failed and with its
  -- error, or with the expiry of the deadline, after it and after a poll that answered no.
  pub await_bootstrap_readiness-Terminates :
      (k deadline backoff : ℕ) (p : P)
      → deadline ≤ k * backoff
      → Terminates
          (clock.now p + deadline)
          (await_bootstrap_readiness clock readiness (suc k) deadline backoff p)
  unfolding await_bootstrap_readiness
  await_bootstrap_readiness-Terminates k deadline backoff p h =
      poll_readiness-Terminates k (clock.now p + deadline) backoff p (omega (arith, h))

  -- The predicate does not fail, and from the time `ready_at` on it does not answer no.
  abbrev pub IsReadyFrom : ℕ → Type 0
  IsReadyFrom ready_at =
      (p p' : P) (answer : Result Il2CppError Bool)
      → Answers p p' answer
      → (answer ≡ ok true) ⊎ ((answer ≡ ok false) × (clock.now p' < ready_at))

  abbrev pub Succeeds : Polled P (Unit {0}) → Type 0
  Succeeds none = ⊥
  Succeeds (some (p, r)) = r ≡ ok tt

  Terminates-Succeeds :
      (deadline_at ready_at : ℕ) (polled : Polled P (Unit {0}))
      → IsReadyFrom ready_at
      → ready_at ≤ deadline_at
      → Terminates deadline_at polled
      → Succeeds polled
  Terminates-Succeeds deadline_at ready_at none from h ends = elim ends [ ]
  Terminates-Succeeds deadline_at ready_at (some (p', ok u)) from h ends = refl
  Terminates-Succeeds deadline_at ready_at (some (p', err e)) from h (p, inl failed) =
      ground (arith, from p p' (err e) failed)
  Terminates-Succeeds deadline_at ready_at (some (p', err e)) from h (p, inr (no_yet, late, e')) =
      ground (arith, from p p' (ok false) no_yet, late, h)

  -- If the predicate never fails and from a time up to the deadline on does not answer no, then the
  -- wait succeeds, within the same number of polls.
  pub await_bootstrap_readiness-Succeeds :
      (k deadline backoff ready_at : ℕ) (p : P)
      → deadline ≤ k * backoff
      → IsReadyFrom ready_at
      → ready_at ≤ clock.now p + deadline
      → Succeeds (await_bootstrap_readiness clock readiness (suc k) deadline backoff p)
  await_bootstrap_readiness-Succeeds k deadline backoff ready_at p h from in_time =
      Terminates-Succeeds (clock.now p + deadline) ready_at _ from in_time
        (await_bootstrap_readiness-Terminates k deadline backoff p h)

module _ {P : Type 0} (clock : Clock P) (images : ImageTable P clock) where
  -- The loop ends right after a look at the table: the image that it named was opened, or none was
  -- named and the deadline is over.
  abbrev pub LooksUntil : ℕ → Polled P String → Type 0
  LooksUntil deadline_at none = ⊥
  LooksUntil deadline_at (some (p'', r)) =
      (p p' : P) × (((path : String) × (images.enumerate_unity_framework p ≡ (p', some path))
          × (images.open_handle path p' ≡ (p'', r)))
        ⊎ ((images.enumerate_unity_framework p ≡ (p'', none))
            × (deadline_at ≤ clock.now p'')
            × (r ≡ err image_not_found)))

  settle_look-LooksUntil :
      (deadline_at : ℕ) (p p' : P) (path : Option String) (rest : Polled P String)
      → images.enumerate_unity_framework p ≡ (p', path)
      → (clock.now p' < deadline_at → LooksUntil deadline_at rest)
      → LooksUntil deadline_at (settle_look clock images deadline_at p' path rest)
  unfolding settle_look
  settle_look-LooksUntil deadline_at p p' (some path) rest says more =
      (p, p', inl (path, says, refl))
  settle_look-LooksUntil deadline_at p p' none rest says more =
      if-elim (LooksUntil deadline_at) (leb deadline_at (clock.now p')) _ rest
        (λ t. (p, p', inr (says, ground (arith, t), refl))) (λ f. more (ground (arith, f)))

  poll_image-LooksUntil :
      (k deadline_at backoff : ℕ) (p : P)
      → deadline_at ≤ clock.now p + k * backoff
      → LooksUntil deadline_at (poll_image clock images (suc k) deadline_at backoff p)
  unfolding poll_image
  poll_image-LooksUntil zero deadline_at backoff p h =
      let (p', path) = images.enumerate_unity_framework p in
      settle_look-LooksUntil deadline_at p p' path none refl
        (λ early. absurd (omega (arith, h, early, images.now-enumerate p)))
  poll_image-LooksUntil (suc k) deadline_at backoff p h =
      let (p', path) = images.enumerate_unity_framework p in
      settle_look-LooksUntil deadline_at p p' path _ refl (λ early.
        poll_image-LooksUntil k deadline_at backoff (clock.sleep backoff p')
          (omega (arith, h, images.now-enumerate p, clock.now-sleep backoff p')))

  -- Where the sleeps of `k` rounds reach the deadline, the wait for the image is over after at most
  -- `k + 1` looks at the image table: with the handle or the error of opening the image that the last
  -- look found, or with a missing image, after the deadline and a look that found none.
  pub await_unity_framework-LooksUntil :
      (k deadline backoff : ℕ) (p : P)
      → deadline ≤ k * backoff
      → LooksUntil
          (clock.now p + deadline)
          (await_unity_framework clock images (suc k) deadline backoff p)
  unfolding await_unity_framework
  await_unity_framework-LooksUntil k deadline backoff p h =
      poll_image-LooksUntil k (clock.now p + deadline) backoff p (omega (arith, h))
