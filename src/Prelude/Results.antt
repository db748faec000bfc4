-- ===== src/Prelude/Results.antt =====
-- Values that may be errors.
use mathlib.Core.Path.{◌≡◌, refl, sym, subst}
use mathlib.Core.Logic.{◌⊎◌, inl, inr}

pub data Result {ℓ κ} (E : Type ℓ) (A : Type κ) : Type (ℓ ⊔ κ) where
  ok : A → Result E A
  err : E → Result E A

infixl 5 ◌>>=◌ ◌>>◌
abbrev pub ◌>>=◌ {ℓ κ μ} :
    {E : Type ℓ} {A : Type κ} {B : Type μ} → Result E A → (A → Result E B) → Result E B
ok a >>= f = f a
err e >>= f = err e

abbrev pub ◌>>◌ {ℓ κ} : {E : Type ℓ} {B : Type κ} → Result E (Unit {0}) → Result E B → Result E B
m >> k = m >>= λ _. k

pub Result-cases {ℓ κ} :
    {E : Type ℓ} {A : Type κ} (r : Result E A) → ((a : A) × (r ≡ ok a)) ⊎ ((e : E) × (r ≡ err e))
Result-cases (ok a) = inl (a, refl)
Result-cases (err e) = inr (e, refl)

pub ok-elim {ℓ κ} :
    {E A : Type 0} {C : Type ℓ} (P : C → Type κ) (r : Result E A) (a : A) (f : E → C) (g : A → C)
    → r ≡ ok a
    → P (g a)
    → P (elim r [ err e ↦ f e | ok x ↦ g x ])
ok-elim P r a f g e t = subst (λ x. P (elim x [ err e' ↦ f e' | ok y ↦ g y ])) (sym e) t

pub Result-elim {ℓ κ} :
    {E A : Type 0} {C : Type ℓ} (P : C → Type κ) (r : Result E A) (f : E → C) (g : A → C)
    → ((e : E) → P (f e))
    → ((a : A) → P (g a))
    → P (elim r [ err e ↦ f e | ok x ↦ g x ])
Result-elim P (ok a) f g hf hg = hg a
Result-elim P (err e) f g hf hg = hf e
