-- ===== src/Plugins/Dump/Walk/Ids.antt =====
-- What the walk reads of an inner dictionary, from ids to texts.
use Prim.Native.String.{String}
use text.Mathlib.Text.{◌==◌ as str_eq}
use shiny_song_tools.Prelude.{
  ℕ, ◌+◌, ◌≤◌, ◌==◌, ◌≡◌, ◌≢◌, ◌⊎◌, inl, inr, refl, sym, subst, ◌∙◌, ap, arith, true, false, Option,
  none, some, List, [], ◌∷◌, length, ltb, if◌then◌else◌, if_true, if_false, ok-elim, Result, ok,
  Bool-cases,
}
use shiny_song_tools.Plugins.Dump.{Texts}
use shiny_song_tools.Plugins.Dump.Maps.{find, insert, find-insert}
use shiny_song_tools.Plugins.Dump.Walk.{
  GameMemory, WalkError, dict_entries, dict_count, entry_hash, entry_key, entry_value,
  max_walk_entries, entry_at, is_negative, read_string, walk_ids, walk_int_dictionary,
}

null_test : (n : ℕ) → n ≡ 0 → (n == 0) ≡ true
null_test n h = ground (arith, h)

pub some_test : (n : ℕ) → n ≢ 0 → (n == 0) ≡ false
some_test n h = ground (arith, h)

pub bound_test :
    (count n : ℕ) → count ≡ n → n ≤ max_walk_entries → ltb max_walk_entries count ≡ false
bound_test count n e h = ground (arith, e, h)

-- The entries of a dictionary in their order; `none` is a freed one.
abbrev pub IdEntries : Type 0
IdEntries = List (Option (ℕ × String))

abbrev pub CategoryEntries : Type 0
CategoryEntries = List (Option (String × IdEntries))

module _ (texts : Texts) where
  -- The text under an id, of the last entry that has it, over `old`.
  abbrev pub text_under : IdEntries → String → Option String → Option String
  text_under [] q old = old
  text_under (none ∷ es) q old = text_under es q old
  text_under (some (id, text) ∷ es) q old =
      text_under es q (if str_eq (texts.u32_to_string id) q then some text else old)

  -- The text under a category and an id, over `old`. An entry with an empty category has none.
  abbrev pub text_of : CategoryEntries → String → String → Option String → Option String
  text_of [] c q old = old
  text_of (none ∷ es) c q old = text_of es c q old
  text_of (some (category, ids) ∷ es) c q old =
      text_of es c q (
        if str_eq category "" then old else if str_eq category c then text_under ids q old else old)

module _ (texts : Texts) (m : GameMemory) where
  abbrev pub HasIds : ℕ → ℕ → IdEntries → Type 0
  HasIds entries index [] = Unit
  HasIds entries index (none ∷ es) =
      (is_negative (m.read_u32 (entry_at entries index + entry_hash)) ≡ true)
      × HasIds entries (index + 1) es
  HasIds entries index (some (id, text) ∷ es) =
      (is_negative (m.read_u32 (entry_at entries index + entry_hash)) ≡ false)
      × (m.read_u32 (entry_at entries index + entry_key) ≡ id)
      × (read_string texts m (m.read_ptr (entry_at entries index + entry_value)) ≡ ok text)
      × HasIds entries (index + 1) es

  -- A walk that ended well, and left the texts of the entries over those of `old`.
  abbrev pub ReadsIds :
      IdEntries
      → List (String × String)
      → List (String × String) × Result WalkError (Unit {0})
      → Type 0
  ReadsIds es old (out, result) =
      (result ≡ ok tt) × ((q : String) → find q out ≡ text_under texts es q (find q old))

  walk_ids-ReadsIds :
      (entries index : ℕ) (es : IdEntries) (old : List (String × String))
      → HasIds entries index es
      → ReadsIds es old (walk_ids texts m entries index (length es) old)
  unfolding walk_ids
  walk_ids-ReadsIds entries index [] old h = (refl, λ q. refl)
  walk_ids-ReadsIds entries index (none ∷ es) old h =
      if_true (ReadsIds (none ∷ es) old) _ _ _ h.0
        (walk_ids-ReadsIds entries (index + 1) es old h.1)
  walk_ids-ReadsIds entries index (some (id, text) ∷ es) old h =
      let (freed, key, value, later) = h in
      let k = texts.u32_to_string (m.read_u32 (entry_at entries index + entry_key)) in
      let (ended, found) = walk_ids-ReadsIds entries (index + 1) es (insert k text old) later in
      if_false (ReadsIds (some (id, text) ∷ es) old) _ _ _ freed (
        ok-elim (ReadsIds (some (id, text) ∷ es) old) _ text _ _ value (
          ended,
          λ q.
              found q
              ∙ ap (text_under texts es q) (
                  find-insert q k text old
                  ∙ ap (λ n. if str_eq (texts.u32_to_string n) q then some text else find q old)
                      key),
        ))

  -- A null dictionary, and one without an array, has no entries.
  abbrev pub HasIntDictionary : ℕ → IdEntries → Type 0
  HasIntDictionary dict es =
      (((dict ≡ 0) ⊎ (m.read_ptr (dict + dict_entries) ≡ 0)) × (es ≡ []))
      ⊎ ((dict ≢ 0)
          × (m.read_ptr (dict + dict_entries) ≢ 0)
          × (m.read_u32 (dict + dict_count) ≡ length es)
          × (length es ≤ max_walk_entries)
          × HasIds (m.read_ptr (dict + dict_entries)) 0 es)

  ReadsIds-nothing :
      (es : IdEntries) (old : List (String × String)) → es ≡ [] → ReadsIds es old (old, ok tt)
  ReadsIds-nothing es old e = (refl, λ q. ap (λ us. text_under texts us q (find q old)) (sym e))

  pub walk_int_dictionary-ReadsIds :
      (dict : ℕ) (es : IdEntries) (old : List (String × String))
      → HasIntDictionary dict es
      → ReadsIds es old (walk_int_dictionary texts m dict old)
  unfolding walk_int_dictionary
  walk_int_dictionary-ReadsIds dict es old (inl (nothing, e)) = elim nothing [
    | inl null ↦ if_true (ReadsIds es old) _ _ _ (null_test dict null) (ReadsIds-nothing es old e)
    | inr null ↦ elim (Bool-cases (dict == 0)) [
      | inl t ↦ if_true (ReadsIds es old) _ _ _ t (ReadsIds-nothing es old e)
      | inr t ↦
          if_false (ReadsIds es old) _ _ _ t
            (if_true (ReadsIds es old) _ _ _ (null_test _ null) (ReadsIds-nothing es old e))
    ]
  ]
  walk_int_dictionary-ReadsIds dict es old (inr (some_dict, some_array, count, bounded, held)) =
      if_false (ReadsIds es old) _ _ _ (some_test _ some_dict) (
        if_false (ReadsIds es old) _ _ _ (some_test _ some_array) (
          if_false (ReadsIds es old) _ _ _ (bound_test _ _ count bounded) (
            subst
              (λ n. ReadsIds es old (walk_ids texts m (m.read_ptr (dict + dict_entries)) 0 n old))
              (sym count) (walk_ids-ReadsIds _ 0 es old held))))
