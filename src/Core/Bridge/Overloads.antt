-- ===== src/Core/Bridge/Overloads.antt =====
-- The overloads of a name by what they have, and not by the order in which they are found.
use Prim.Native.String.{String}
use text.Mathlib.Text.{◌==◌ as str_eq}
use text.Mathlib.TextEquality.{eq_iff}
use shiny_song_tools.Prelude.{
  ℕ, ◌≡◌, refl, ap, subst, ◌∙◌, arith, ◌&&◌, Bool, true, false, Bool-cases, inl, inr, List, [], ◌∷◌,
  ◌++◌, All, length, ◌==◌,
}
use shiny_song_tools.Core.Bridge.{CachedMethod, Fits, IsOnly, overloads}

module _ (name : String) (count : ℕ) where
  abbrev test : CachedMethod → Bool
  test m = str_eq m.name name && (length m.args == count)

  test-Fits : (m : CachedMethod) → test m ≡ true → Fits name count m
  test-Fits m h = (ground (arith, h, eq_iff m.name name), ground (arith, h))

  Fits-test : (m : CachedMethod) → test m ≡ false → ¬ Fits name count m
  Fits-test m h (same, n) = ground (arith, h, eq_iff m.name name, same, n)

  overloads-none :
      (ms : List CachedMethod) → overloads name count ms ≡ [] → All (λ n. ¬ Fits name count n) ms
  unfolding overloads
  overloads-none [] h = tt
  overloads-none (m ∷ ms) h = elim (Bool-cases (test m)) [
    | inl t ↦ absurd (ground (arith, t, h))
    | inr t ↦ (Fits-test m t, overloads-none ms (ground (arith, t, h)))
  ]

  later-IsOnly :
      (n m : CachedMethod) (ms : List CachedMethod)
      → test n ≡ false
      → IsOnly name count ms m
      → IsOnly name count (n ∷ ms) m
  later-IsOnly n m ms t (front, back, e, fits, before, after) =
      (n ∷ front, back, ap (λ xs. n ∷ xs) e, fits, (Fits-test n t, before), after)

  pub overloads-IsOnly :
      (ms : List CachedMethod) (m : CachedMethod)
      → overloads name count ms ≡ m ∷ []
      → IsOnly name count ms m
  unfolding overloads
  overloads-IsOnly [] m h = ground (arith, h)
  overloads-IsOnly (n ∷ ms) m h = elim (Bool-cases (test n)) [
    | inr t ↦ later-IsOnly n m ms t (overloads-IsOnly ms m (ground (arith, t, h)))
    | inl t ↦
        let same : n ≡ m = ground (arith, t, h) in
        (
          [],
          ms,
          ap (λ x. x ∷ ms) same,
          subst (Fits name count) same (test-Fits n t),
          tt,
          overloads-none ms (ground (arith, t, h)),
        )
  ]

  Fits-true : (m : CachedMethod) → Fits name count m → test m ≡ true
  Fits-true m (same, n) = ground (arith, eq_iff m.name name, same, n)

  Fits-false : (m : CachedMethod) → ¬ Fits name count m → test m ≡ false
  Fits-false m h = elim (Bool-cases (test m)) [ inl t ↦ absurd (h (test-Fits m t)) | inr t ↦ t ]

  none-overloads :
      (ms : List CachedMethod) → All (λ n. ¬ Fits name count n) ms → overloads name count ms ≡ []
  unfolding overloads
  none-overloads [] h = refl
  none-overloads (m ∷ ms) h = ground (arith, Fits-false m h.0, none-overloads ms h.1)

  only_front :
      (front back : List CachedMethod) (m : CachedMethod)
      → Fits name count m
      → All (λ n. ¬ Fits name count n) front
      → All (λ n. ¬ Fits name count n) back
      → overloads name count (front ++ m ∷ back) ≡ m ∷ []
  unfolding overloads
  only_front [] back m fits before after =
      ground (arith, Fits-true m fits, none-overloads back after)
  only_front (n ∷ front) back m fits before after =
      ground (arith, Fits-false n before.0, only_front front back m fits before.1 after)

  pub IsOnly-overloads :
      (ms : List CachedMethod) (m : CachedMethod)
      → IsOnly name count ms m
      → overloads name count ms ≡ m ∷ []
  IsOnly-overloads ms m (front, back, e, fits, before, after) =
      ap (overloads name count) e ∙ only_front front back m fits before after
