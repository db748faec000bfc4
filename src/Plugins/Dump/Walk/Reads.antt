-- ===== src/Plugins/Dump/Walk/Reads.antt =====
-- What the walk reads from a memory that holds a dictionary of dictionaries.
use Prim.Native.String.{String}
use text.Mathlib.Text.{◌==◌ as str_eq}
use shiny_song_tools.Prelude.{
  ℕ, ◌+◌, ◌≤◌, ◌==◌, ◌≡◌, ◌≢◌, inl, inr, refl, sym, subst, ◌∙◌, ap, arith, true, false, ◌||◌, none,
  some, List, [], ◌∷◌, length, ltb, if◌then◌else◌, if_true, if_false, ok-elim, Result, ok,
  Bool-cases,
}
use shiny_song_tools.Plugins.Dump.{Texts}
use shiny_song_tools.Plugins.Dump.Maps.{
  LocalifyMap, bucket_of, find, insert, text_in, find-bucket_of, find_same,
}
use shiny_song_tools.Plugins.Dump.Walk.{
  GameMemory, WalkError, dict_entries, dict_count, entry_hash, entry_key, entry_value,
  max_walk_entries, entry_at, is_negative, read_string, walk_int_dictionary, walk_categories,
  walk_string_dictionary,
}
use shiny_song_tools.Plugins.Dump.Walk.Ids.{
  IdEntries, CategoryEntries, text_under, text_of, HasIntDictionary, walk_int_dictionary-ReadsIds,
  some_test, bound_test,
}

shape_test :
    (array count n : ℕ)
    → array ≢ 0
    → count ≡ n
    → n ≤ max_walk_entries
    → ((array == 0) || ltb max_walk_entries count) ≡ false
shape_test array count n h e b = rw (some_test array h) (bound_test count n e b)

module _ (texts : Texts) (m : GameMemory) where
  -- The entries of the outer dictionary. That of an empty category may hold anything.
  abbrev pub HasCategories : ℕ → ℕ → CategoryEntries → Type 0
  HasCategories entries index [] = Unit
  HasCategories entries index (none ∷ es) =
      (is_negative (m.read_u32 (entry_at entries index + entry_hash)) ≡ true)
      × HasCategories entries (index + 1) es
  HasCategories entries index (some (category, ids) ∷ es) =
      (is_negative (m.read_u32 (entry_at entries index + entry_hash)) ≡ false)
      × (read_string texts m (m.read_ptr (entry_at entries index + entry_key)) ≡ ok category)
      × (str_eq category "" ≡ false
          → HasIntDictionary texts m (m.read_ptr (entry_at entries index + entry_value)) ids)
      × HasCategories entries (index + 1) es

  abbrev ReadsCategories :
      CategoryEntries → LocalifyMap → LocalifyMap × Result WalkError (Unit {0}) → Type 0
  ReadsCategories es old (out, result) =
      (result ≡ ok tt) × ((c q : String) → text_in out c q ≡ text_of texts es c q (text_in old c q))

  -- One category with its bucket, as a text of the map.
  text_in-insert :
      (category c q : String) (ids : IdEntries) (bucket : List (String × String))
      (old : LocalifyMap)
      → ((i : String)
          → find i bucket ≡ text_under texts ids i (find i (bucket_of (find category old))))
      → text_in (insert category bucket old) c q
        ≡ (if str_eq category c then text_under texts ids q (text_in old c q) else text_in old c q)
  unfolding text_in
  text_in-insert category c q ids bucket old h =
      let e = find-bucket_of c category bucket old in
      elim (Bool-cases (str_eq category c)) [
        | inl a ↦ ground (arith, a, e, h q, find_same c category old a)
        | inr a ↦ ground (arith, a, e)
      ]

  walk_categories-ReadsCategories :
      (entries index : ℕ) (es : CategoryEntries) (old : LocalifyMap)
      → HasCategories entries index es
      → ReadsCategories es old (walk_categories texts m entries index (length es) old)
  unfolding walk_categories
  walk_categories-ReadsCategories entries index [] old h = (refl, λ c q. refl)
  walk_categories-ReadsCategories entries index (none ∷ es) old h =
      if_true (ReadsCategories (none ∷ es) old) _ _ _ h.0
        (walk_categories-ReadsCategories entries (index + 1) es old h.1)
  walk_categories-ReadsCategories entries index (some (category, ids) ∷ es) old h =
      let (freed, key, inner, later) = h in
      let Goal = ReadsCategories (some (category, ids) ∷ es) old in
      let walked =
        walk_int_dictionary texts m (m.read_ptr (entry_at entries index + entry_value))
          (bucket_of (find category old)) in
      if_false Goal _ _ _ freed (
        ok-elim Goal _ category _ _ key (elim (Bool-cases (str_eq category "")) [
          | inl blank ↦ if_true Goal _ _ _ blank (
              let (ended, found) =
                walk_categories-ReadsCategories entries (index + 1) es old later in
              (
                ended,
                λ c q.
                    found c q
                    ∙ ap (text_of texts es c q)
                        (if_true (λ x. text_in old c q ≡ x) _ _ _ blank refl),
              ))
          | inr named ↦
              let (inner_ended, read) =
                walk_int_dictionary-ReadsIds texts m _ ids (bucket_of (find category old))
                  (inner named) in
              let (ended, found) =
                walk_categories-ReadsCategories entries (index + 1) es
                  (insert category walked.0 old) later in
              if_false Goal _ _ _ named (
                ok-elim Goal walked.1 tt _ _ inner_ended (
                  ended,
                  λ c q.
                      found c q
                      ∙ ap (text_of texts es c q) (
                          text_in-insert category c q ids walked.0 old read
                          ∙ if_false
                              (λ x.
                                (if str_eq category c
                                  then text_under texts ids q (text_in old c q)
                                  else text_in old c q)
                                ≡ x)
                              _ _ _ named refl),
                ))
        ]))

  -- The memory at `dict` holds an outer dictionary with these entries, of which it has at most the
  -- permitted number.
  abbrev pub HasStringDictionary : ℕ → CategoryEntries → Type 0
  HasStringDictionary dict es =
      (dict ≢ 0)
      × (m.read_ptr (dict + dict_entries) ≢ 0)
      × (m.read_u32 (dict + dict_count) ≡ length es)
      × (length es ≤ max_walk_entries)
      × HasCategories (m.read_ptr (dict + dict_entries)) 0 es

  -- The walk over a dictionary of dictionaries that the memory holds ends without an error, and the map
  -- has the text of the last entry in use for each category and id that the dictionary names, and the
  -- text of before for all others: it reads no freed entry, leaves none out and loses no text.
  pub walk_string_dictionary-Reads :
      (dict : ℕ) (es : CategoryEntries) (old : LocalifyMap)
      → HasStringDictionary dict es
      → ((walk_string_dictionary texts m dict old).1 ≡ ok tt)
        × ((c q : String)
            → text_in (walk_string_dictionary texts m dict old).0 c q
              ≡ text_of texts es c q (text_in old c q))
  unfolding walk_string_dictionary
  walk_string_dictionary-Reads dict es old (some_dict, some_array, count, bounded, held) =
      if_false (ReadsCategories es old) _ _ _ (some_test dict some_dict) (
        if_false (ReadsCategories es old) _ _ _ (shape_test _ _ _ some_array count bounded) (
          subst
            (λ n.
              ReadsCategories es old
                (walk_categories texts m (m.read_ptr (dict + dict_entries)) 0 n old))
            (sym count)
            (walk_categories-ReadsCategories (m.read_ptr (dict + dict_entries)) 0 es old held)))
