-- ===== src/Plugins/Dump/Maps.antt =====
-- The ordered maps of crates/translation_dump/src/lib.rs by their lookups: association lists with each
-- key once. The order of the keys takes no part.
use Prim.Native.String.{String}
use text.Mathlib.Text.{◌==◌ as str_eq}
use text.Mathlib.TextEquality.{eq_iff}
use shiny_song_tools.Prelude.{
  ◌≡◌, refl, ◌∙◌, Bool, true, false, ◌&&◌, Option, none, some, List, [], ◌∷◌, arith, if◌then◌else◌,
  Bool-cases, inl, inr, subst, ap,
}

str_eq_left : (a b q : String) → str_eq a b ≡ true → str_eq a q ≡ str_eq b q
str_eq_left a b q h = ap (λ x. str_eq x q) ((eq_iff a b).0 h)

str_eq_right : (a b q : String) → str_eq b q ≡ true → str_eq a b ≡ str_eq a q
str_eq_right a b q h = ap (λ x. str_eq a x) ((eq_iff b q).0 h)

module _ {V : Type 0} where
  -- `get`.
  unfoldable pub find : String → List (String × V) → Option V
  find q [] = none
  find q (e ∷ m) = if str_eq e.0 q then some e.1 else find q m

  unfoldable pub insert : String → V → List (String × V) → List (String × V)
  insert k v [] = (k, v) ∷ []
  insert k v (e ∷ m) = let rest = insert k v m in if str_eq e.0 k then (e.0, v) ∷ m else e ∷ rest

  pub find-insert :
      (q k : String) (v : V) (m : List (String × V))
      → find q (insert k v m) ≡ (if str_eq k q then some v else find q m)
  unfolding find insert
  find-insert q k v [] = refl
  find-insert q k v (e ∷ m) =
      let ih = find-insert q k v m in
      elim (Bool-cases (str_eq e.0 k)) [
        | inl a ↦ ground (arith, a, str_eq_left e.0 k q a)
        | inr a ↦ elim (Bool-cases (str_eq k q)) [
          | inl b ↦ ground (arith, a, b, ih, str_eq_right e.0 k q b)
          | inr b ↦ ground (arith, a, b, ih)
        ]
      ]

abbrev pub LocalifyMap : Type 0
LocalifyMap = List (String × List (String × String))

abbrev pub bucket_of : Option (List (String × String)) → List (String × String)
bucket_of none = []
bucket_of (some bucket) = bucket

-- `get` of a category, then of an id.
unfoldable pub text_in : LocalifyMap → String → String → Option String
unfolding find
text_in m category id = find id (bucket_of (find category m))

-- `entry(category).or_default()`, for its effect.
unfoldable pub or_default : String → LocalifyMap → LocalifyMap
unfolding find insert
or_default category m = insert category (bucket_of (find category m)) m

-- `entry(category).or_default().insert(id, text)`, with the text that was there.
unfoldable pub put : String → String → String → LocalifyMap → LocalifyMap × Option String
unfolding find insert
put category id text m =
    let bucket = bucket_of (find category m) in
    (insert category (insert id text bucket) m, find id bucket)

bucket_of_if :
    (b : Bool) (bucket : List (String × String)) (o : Option (List (String × String)))
    → bucket_of (if b then some bucket else o) ≡ (if b then bucket else bucket_of o)
bucket_of_if true bucket o = refl
bucket_of_if false bucket o = refl

pub find-bucket_of :
    (c category : String) (bucket : List (String × String)) (m : LocalifyMap)
    → bucket_of (find c (insert category bucket m))
      ≡ (if str_eq category c then bucket else bucket_of (find c m))
find-bucket_of c category bucket m =
    ap bucket_of (find-insert c category bucket m)
    ∙ bucket_of_if (str_eq category c) bucket (find c m)

pub find_same :
    (c category : String) (m : LocalifyMap) → str_eq category c ≡ true → find category m ≡ find c m
find_same c category m h = ap (λ x. find x m) ((eq_iff category c).0 h)

-- A new empty category adds no text.
pub text_in-or_default :
    (category c i : String) (m : LocalifyMap) → text_in (or_default category m) c i ≡ text_in m c i
unfolding text_in or_default
text_in-or_default category c i m =
    let e = find-bucket_of c category (bucket_of (find category m)) m in
    elim (Bool-cases (str_eq category c)) [
      | inl a ↦ ground (arith, a, e, find_same c category m a)
      | inr a ↦ ground (arith, a, e)
    ]

-- What is found after a text was put.
pub text_in-put :
    (category id text c i : String) (m : LocalifyMap)
    → text_in (put category id text m).0 c i
      ≡ (if str_eq category c && str_eq id i then some text else text_in m c i)
unfolding text_in put
text_in-put category id text c i m =
    let bucket = bucket_of (find category m) in
    let e = find-bucket_of c category (insert id text bucket) m in
    elim (Bool-cases (str_eq category c)) [
      | inl a ↦ ground (arith, a, e, find_same c category m a, find-insert i id text bucket)
      | inr a ↦ ground (arith, a, e)
    ]

-- `old.as_deref() == Some(text)`.
abbrev pub same_text : Option String → String → Bool
same_text none text = false
same_text (some old) text = str_eq old text

find_put_back :
    (category id c i text : String) (m : LocalifyMap)
    → same_text (put category id text m).1 text ≡ true
    → str_eq category c ≡ true
    → str_eq id i ≡ true
    → text_in m c i ≡ some text
unfolding put text_in
find_put_back category id c i text m same a b =
    subst (λ x. find i (bucket_of (find x m)) ≡ some text) ((eq_iff category c).0 a)
      (subst (λ x. find x (bucket_of (find category m)) ≡ some text) ((eq_iff id i).0 b)
        (same_some (find id (bucket_of (find category m))) same))
  where
    same_some : (o : Option String) → same_text o text ≡ true → o ≡ some text
    same_some none h = ground (arith, h)
    same_some (some old) h = ap some ((eq_iff old text).0 h)

-- Putting the text that is there already changes nothing that can be found.
pub text_in-put_same :
    (category id text c i : String) (m : LocalifyMap)
    → same_text (put category id text m).1 text ≡ true
    → text_in (put category id text m).0 c i ≡ text_in m c i
text_in-put_same category id text c i m same =
    let e = text_in-put category id text c i m in
    elim (Bool-cases (str_eq category c)) [
      | inl a ↦ elim (Bool-cases (str_eq id i)) [
        | inl b ↦ ground (arith, a, b, e, find_put_back category id c i text m same a b)
        | inr b ↦ ground (arith, a, b, e)
      ]
      | inr a ↦ ground (arith, a, e)
    ]
