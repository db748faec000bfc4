-- ===== src/Core/MethodSlot/Target.antt =====
-- `TargetId`, `MethodRef` and the comparison of the declared with the resolved method.
use Prim.Native.String.{String}
use text.Mathlib.Text.{◌==◌ as str_eq}
use text.Mathlib.TextEquality.{eq_iff}
use shiny_song_tools.Prelude.{
  ℕ, ◌≡◌, ◌↔◌, refl, Bool, true, false, not, ◌&&◌, List, [], ◌∷◌, arith, ◌==◌, length,
}

pub data HookMechanism : Type 0 where
  method_pointer_slot entry_patch : HookMechanism

pub record TargetId : Type 0 where
  pub assembly : String
  pub namespace : String
  pub class : String
  pub method : String
  pub param_count : ℕ  -- u32
  pub is_static : Bool
  pub return_type : String
  pub parameter_types : List String

pub record MethodRef : Type 0 where
  pub assembly : String
  pub namespace : String
  pub class : String
  pub method : String
  pub param_count : ℕ  -- u32
  pub is_static : Bool
  pub return_type : String
  pub parameter_types : List String
  pub is_generic : Bool
  pub is_inflated : Bool
  pub method_info : ℕ
  pub method_pointer_slot : ℕ

abbrev pub bool_eq : Bool → Bool → Bool
bool_eq true b = b
bool_eq false b = not b

-- `Iterator::eq` over strings.
types_eq : List String → List String → Bool
types_eq [] [] = true
types_eq [] (b ∷ bs) = false
types_eq (a ∷ as') [] = false
types_eq (a ∷ as') (b ∷ bs) = str_eq a b && types_eq as' bs

-- `TargetId::matches`; `MethodRef::matches_target` is the same test from the other side.
unfoldable pub matches : TargetId → MethodRef → Bool
unfolding types_eq
matches t actual =
    str_eq t.assembly actual.assembly
    && str_eq t.namespace actual.namespace
    && str_eq t.class actual.class
    && str_eq t.method actual.method
    && t.param_count == actual.param_count
    && length t.parameter_types == t.param_count
    && bool_eq t.is_static actual.is_static
    && str_eq t.return_type actual.return_type
    && types_eq t.parameter_types actual.parameter_types
    && not actual.is_generic
    && not actual.is_inflated

types_eq_iff : (xs ys : List String) → (types_eq xs ys ≡ true) ↔ (xs ≡ ys)
unfolding types_eq
types_eq_iff [] [] = (λ _. refl, λ _. refl)
types_eq_iff [] (b ∷ bs) = (λ h. cc, λ h. cc)
types_eq_iff (a ∷ xs) [] = (λ h. cc, λ h. cc)
types_eq_iff (a ∷ xs) (b ∷ bs) = (
  λ h. ground (arith, eq_iff a b, types_eq_iff xs bs),
  λ h. ground (arith, eq_iff a b, types_eq_iff xs bs),
)

-- What the comparison promises.
pub record SameMethod (t : TargetId) (r : MethodRef) : Type 0 where
  pub same_assembly : t.assembly ≡ r.assembly
  pub same_namespace : t.namespace ≡ r.namespace
  pub same_class : t.class ≡ r.class
  pub same_method : t.method ≡ r.method
  pub same_arity : t.param_count ≡ r.param_count
  pub full_arity : length r.parameter_types ≡ r.param_count
  pub same_static : t.is_static ≡ r.is_static
  pub same_return : t.return_type ≡ r.return_type
  pub same_parameters : t.parameter_types ≡ r.parameter_types
  pub not_generic : r.is_generic ≡ false
  pub not_inflated : r.is_inflated ≡ false

bool_eq_iff : (a b : Bool) → (bool_eq a b ≡ true) ↔ (a ≡ b)
bool_eq_iff a b = (λ h. ground arith, λ h. ground arith)

-- A resolved method passes the test exactly if its names, its static flag, its return type and its
-- whole list of parameter types are the declared ones, the declared arity counts that list, and the
-- method is neither generic nor inflated.
pub matches-SameMethod : (t : TargetId) (r : MethodRef) → (matches t r ≡ true) ↔ SameMethod t r
unfolding matches
matches-SameMethod t r = (
  λ h. ground (
    arith,
    eq_iff t.assembly r.assembly,
    eq_iff t.namespace r.namespace,
    eq_iff t.class r.class,
    eq_iff t.method r.method,
    eq_iff t.return_type r.return_type,
    types_eq_iff t.parameter_types r.parameter_types,
    bool_eq_iff t.is_static r.is_static,
  ),
  λ h. ground (
    arith,
    eq_iff t.assembly r.assembly,
    eq_iff t.namespace r.namespace,
    eq_iff t.class r.class,
    eq_iff t.method r.method,
    eq_iff t.return_type r.return_type,
    types_eq_iff t.parameter_types r.parameter_types,
    bool_eq_iff t.is_static r.is_static,
  ),
)
