-- ===== src/Runtime/Bootstrap/Polling/Tests.antt =====
-- Waits on a clock whose state is the time: the predicate and the image are there from time 3 on.
use shiny_song_tools.Prelude.{
  ℕ, ◌+◌, ◌≡◌, inl, inr, refl, sym, ap, ◌∙◌, Bool-cases, none, some, leb, if◌then◌else◌, ok, err,
  arith,
}
use shiny_song_tools.Core.Error.{image_not_found}
use shiny_song_tools.Runtime.Bootstrap.{Clock, BootstrapReadiness, ImageTable}
use shiny_song_tools.Runtime.Bootstrap.Polling.{
  await_bootstrap_readiness, await_unity_framework, poll_readiness, settle_poll, pause, poll_image,
  settle_look,
}
use shiny_song_tools.Runtime.Bootstrap.Polling.Ends.{
  Terminates, IsReadyFrom, await_bootstrap_readiness-Terminates,
}

abbrev pub ticking : Clock ℕ
ticking = record { now = λ p. p; sleep = λ d p. p + d; now-sleep = λ d p. omega arith }

abbrev pub ready_from_3 : BootstrapReadiness ℕ ticking
ready_from_3 = record { is_ready = λ p. (p, ok (leb 3 p)); now-is_ready = λ p. omega arith }

abbrev image_from_3 : ImageTable ℕ ticking
image_from_3 = record {
  enumerate_unity_framework = λ p. (p, if leb 3 p then some "UnityFramework" else none);
  open_handle = λ path p. (p, ok path);
  now-enumerate = λ p. omega arith;
}

found_at_4 : await_unity_framework ticking image_from_3 6 10 2 0 ≡ some (4, ok "UnityFramework")
unfolding await_unity_framework poll_image settle_look
found_at_4 = refl

too_late : await_unity_framework ticking image_from_3 6 2 2 0 ≡ some (2, err image_not_found)
unfolding await_unity_framework poll_image settle_look
too_late = refl

ready_at_4 : await_bootstrap_readiness ticking ready_from_3 6 10 2 0 ≡ some (4, ok tt)
unfolding await_bootstrap_readiness poll_readiness settle_poll pause
ready_at_4 = refl

await_bootstrap_readiness-Terminates_example :
    Terminates ticking ready_from_3 10 (await_bootstrap_readiness ticking ready_from_3 6 10 2 0)
await_bootstrap_readiness-Terminates_example =
    await_bootstrap_readiness-Terminates ticking ready_from_3 5 10 2 0 (omega arith)

ready_from_3-IsReadyFrom : IsReadyFrom ticking ready_from_3 3
ready_from_3-IsReadyFrom p p' answer says =
    let t : p ≡ p' = ap (λ x. x.0) says in
    let a : ok (leb 3 p) ≡ answer = ap (λ x. x.1) says in
    elim (Bool-cases (leb 3 p)) [
      | inl e ↦ inl (sym a ∙ ap ok e)
      | inr e ↦ inr (sym a ∙ ap ok e, ground (arith, t, e))
    ]
