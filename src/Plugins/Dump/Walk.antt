-- ===== src/Plugins/Dump/Walk.antt =====
-- crates/translation_dump/src/lib.rs: the walk over the game's dictionary of dictionaries in memory; and
-- crates/core/src/il2cpp_recon.rs: how it reads a string.
pub mod Ids
pub mod Reads
pub mod Tests
use Prim.Native.String.{String}
use text.Mathlib.Text.{◌==◌ as str_eq}
use shiny_song_tools.Prelude.{
  ℕ, zero, suc, ◌+◌, ◌*◌, ◌^◌, Bool, true, false, ◌||◌, Option, none, some, List, [], ◌∷◌, ltb, leb,
  ◌==◌, if◌then◌else◌, Result, ok, err,
}
use shiny_song_tools.Plugins.Dump.{Texts}
use shiny_song_tools.Plugins.Dump.Maps.{LocalifyMap, bucket_of, find, insert}

-- The game's memory while the walk runs, at addresses that do not reach their bound.
pub record GameMemory : Type 0 where
  pub read_u32 : ℕ → ℕ
  pub read_ptr : ℕ → ℕ
  pub read_u16 : ℕ → ℕ

-- The errors, which are texts in the source.
pub data WalkError : Type 0 where
  null_string invalid_utf16 null_outer : WalkError
  malformed_outer malformed_inner : ℕ → WalkError

abbrev pub il2cpp_array_data : ℕ
il2cpp_array_data = 32

abbrev pub dict_entries : ℕ
dict_entries = 24

abbrev pub dict_count : ℕ
dict_count = 32

abbrev pub entry_stride : ℕ
entry_stride = 24

abbrev pub entry_hash : ℕ
entry_hash = 0

abbrev pub entry_key : ℕ
entry_key = 8

abbrev pub entry_value : ℕ
entry_value = 16

abbrev pub max_walk_entries : ℕ
max_walk_entries = 500000

abbrev pub entry_at : ℕ → ℕ → ℕ
entry_at entries index = entries + il2cpp_array_data + index * entry_stride

-- `as i32 < 0`.
abbrev pub is_negative : ℕ → Bool
is_negative word = leb (2 ^ 31) word

units_from : GameMemory → ℕ → ℕ → List ℕ
units_from m ptr zero = []
units_from m ptr (suc left) = m.read_u16 ptr ∷ units_from m (ptr + 2) left

unfoldable pub read_il2cpp_string_utf16 : GameMemory → ℕ → Option (List ℕ)
unfolding units_from
read_il2cpp_string_utf16 m ptr =
    let len = m.read_u32 (ptr + 16) in
    if ptr == 0
    then none
    else if is_negative len || (len == 0)
    then some []
    else some (units_from m (ptr + 20) len)

abbrev decoded : Option String → Result WalkError String
decoded none = err invalid_utf16
decoded (some text) = ok text

module _ (texts : Texts) (m : GameMemory) where
  unfoldable pub read_string : ℕ → Result WalkError String
  unfolding read_il2cpp_string_utf16
  read_string ptr = elim (read_il2cpp_string_utf16 m ptr) [
    | none ↦ err null_string
    | some units ↦ decoded (texts.from_utf16 units)
  ]

  -- The loop over the entries from `index` on, with the number of those that are left. What was inserted
  -- before an error stays.
  unfoldable pub walk_ids :
      ℕ → ℕ → ℕ → List (String × String) → List (String × String) × Result WalkError (Unit {0})
  unfolding read_string insert
  walk_ids entries index zero out = (out, ok tt)
  walk_ids entries index (suc left) out =
      let entry = entry_at entries index in
      let skipped = walk_ids entries (index + 1) left out in
      if is_negative (m.read_u32 (entry + entry_hash))
      then skipped
      else elim (read_string (m.read_ptr (entry + entry_value))) [
        | err e ↦ (out, err e)
        | ok text ↦
            walk_ids entries (index + 1) left
              (insert (texts.u32_to_string (m.read_u32 (entry + entry_key))) text out)
      ]

  unfoldable pub walk_int_dictionary :
      ℕ → List (String × String) → List (String × String) × Result WalkError (Unit {0})
  unfolding walk_ids
  walk_int_dictionary dict out =
      let count = m.read_u32 (dict + dict_count) in
      let entries = m.read_ptr (dict + dict_entries) in
      if dict == 0
      then (out, ok tt)
      else if entries == 0
      then (out, ok tt)
      else if ltb max_walk_entries count
      then (out, err (malformed_inner count))
      else walk_ids entries 0 count out

  unfoldable pub walk_categories :
      ℕ → ℕ → ℕ → LocalifyMap → LocalifyMap × Result WalkError (Unit {0})
  unfolding read_string walk_int_dictionary find insert
  walk_categories entries index zero out = (out, ok tt)
  walk_categories entries index (suc left) out =
      let entry = entry_at entries index in
      let skipped = walk_categories entries (index + 1) left out in
      if is_negative (m.read_u32 (entry + entry_hash))
      then skipped
      else elim (read_string (m.read_ptr (entry + entry_key))) [
        | err e ↦ (out, err e)
        | ok category ↦
            if str_eq category ""
            then skipped
            else (let (bucket, walked) =
                  walk_int_dictionary (m.read_ptr (entry + entry_value))
                    (bucket_of (find category out)) in
                elim walked [
                  | err e ↦ (insert category bucket out, err e)
                  | ok u ↦ walk_categories entries (index + 1) left (insert category bucket out)
                ])
      ]

  unfoldable pub walk_string_dictionary :
      ℕ → LocalifyMap → LocalifyMap × Result WalkError (Unit {0})
  unfolding walk_categories
  walk_string_dictionary dict out =
      let count = m.read_u32 (dict + dict_count) in
      let entries = m.read_ptr (dict + dict_entries) in
      if dict == 0
      then (out, err null_outer)
      else if (entries == 0) || ltb max_walk_entries count
      then (out, err (malformed_outer count))
      else walk_categories entries 0 count out
