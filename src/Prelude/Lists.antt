-- ===== src/Prelude/Lists.antt =====
-- Lists measured and indexed by native numbers, under the library's names.
use Prim.Native.Nat.{ℕ, zero, suc, ◌+◌, ◌≤◌}
use mathlib.Core.Path.{◌≡◌, refl, ap}
use mathlib.Core.List.{List, [], ◌∷◌, ◌++◌}
use mathlib.Core.Option.{Option, none, some}
use mathlib.Core.Logic.{◌⊎◌, inl, inr}
use native.Mathlib.Omega.{arith}

module _ {ℓ} {A : Type ℓ} where
  abbrev pub length : List A → ℕ
  length [] = 0
  length (x ∷ xs) = suc (length xs)

  abbrev pub get_elem? : List A → ℕ → Option A
  get_elem? [] i = none
  get_elem? (x ∷ xs) zero = some x
  get_elem? (x ∷ xs) (suc i) = get_elem? xs i

  pub length-append : (xs ys : List A) → length (xs ++ ys) ≡ length xs + length ys
  length-append [] ys = omega arith
  length-append (x ∷ xs) ys = omega (arith, length-append xs ys)

  abbrev pub All {κ} : (A → Type κ) → List A → Type κ
  All P [] = Unit
  All P (x ∷ xs) = P x × All P xs

  pub All-append {κ} : (P : A → Type κ) (xs ys : List A) → All P xs → All P ys → All P (xs ++ ys)
  All-append P [] ys hx hy = hy
  All-append P (x ∷ xs) ys hx hy = (hx.0, All-append P xs ys hx.1 hy)

  pub All-single {κ} : (P : A → Type κ) (x : A) → P x → All P (x ∷ [])
  All-single P x h = (h, tt)

  pub append-[] : (xs : List A) → xs ++ [] ≡ xs
  append-[] [] = refl
  append-[] (x ∷ xs) = ap (λ ys. x ∷ ys) (append-[] xs)

  pub append_assoc : (xs ys zs : List A) → (xs ++ ys) ++ zs ≡ xs ++ (ys ++ zs)
  append_assoc [] ys zs = refl
  append_assoc (x ∷ xs) ys zs = ap (λ us. x ∷ us) (append_assoc xs ys zs)

  pub List-cases : (xs : List A) → (xs ≡ []) ⊎ ((x : A) × (ys : List A) × (xs ≡ x ∷ ys))
  List-cases [] = inl refl
  List-cases (x ∷ xs) = inr (x, xs, refl)

  cons_head : {x y : A} {xs ys : List A} → x ∷ xs ≡ y ∷ ys → x ≡ y
  cons_head e = ground (arith, e)

  cons_tail : {x y : A} {xs ys : List A} → x ∷ xs ≡ y ∷ ys → xs ≡ ys
  cons_tail e = ground (arith, e)

  -- Two splits of a list at the same place are the same.
  pub append_split :
      (xs ys us vs : List A) → xs ++ us ≡ ys ++ vs → length xs ≡ length ys → (xs ≡ ys) × (us ≡ vs)
  append_split [] [] us vs e len = (refl, e)
  append_split [] (y ∷ ys) us vs e len = ground arith
  append_split (x ∷ xs) [] us vs e len = ground arith
  append_split (x ∷ xs) (y ∷ ys) us vs e len =
      let (es, ts) = append_split xs ys us vs (cons_tail e) (omega (arith, len)) in
      (ground (arith, es, cons_head e), ts)

  abbrev pub take : ℕ → List A → List A
  take zero xs = []
  take (suc n) [] = []
  take (suc n) (x ∷ xs) = x ∷ take n xs

  pub take-nil : (n : ℕ) → [] ≡ take n []
  take-nil zero = refl
  take-nil (suc n) = refl

  pub take-length : (n : ℕ) (xs : List A) → length xs ≤ n → take n xs ≡ xs
  take-length zero [] h = refl
  take-length zero (x ∷ xs) h = absurd (omega (arith, h))
  take-length (suc n) [] h = refl
  take-length (suc n) (x ∷ xs) h = ap (λ us. x ∷ us) (take-length n xs (omega (arith, h)))

  pub take-append_full : (n : ℕ) (xs ys : List A) → n ≤ length xs → take n (xs ++ ys) ≡ take n xs
  take-append_full zero xs ys h = refl
  take-append_full (suc n) [] ys h = absurd (omega (arith, h))
  take-append_full (suc n) (x ∷ xs) ys h =
      ap (λ us. x ∷ us) (take-append_full n xs ys (omega (arith, h)))

  pub length-take_full : (n : ℕ) (xs : List A) → n ≤ length xs → length (take n xs) ≡ n
  length-take_full zero xs h = refl
  length-take_full (suc n) [] h = absurd (omega (arith, h))
  length-take_full (suc n) (x ∷ xs) h = omega (arith, length-take_full n xs (omega (arith, h)))

  pub length-take : (n : ℕ) (xs : List A) → length (take n xs) ≤ n
  length-take zero xs = omega arith
  length-take (suc n) [] = omega arith
  length-take (suc n) (x ∷ xs) = omega (arith, length-take n xs)

  -- What was cut off does not come back.
  pub take-append_take : (n : ℕ) (xs ys : List A) → take n (take n xs ++ ys) ≡ take n (xs ++ ys)
  take-append_take zero xs ys = refl
  take-append_take (suc n) [] ys = refl
  take-append_take (suc n) (x ∷ xs) ys = ap (λ us. x ∷ us) (take-append_take n xs ys)
