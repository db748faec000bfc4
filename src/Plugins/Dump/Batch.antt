-- ===== src/Plugins/Dump/Batch.antt =====
-- crates/translation_dump/src/lib.rs: the bulk dump of the scenarios, which asks the game for the parts of
-- each scenario by their names and writes those that it has. The format of a number, the encoding in
-- UTF-16 and the sort are the standard library's.
pub mod Writes
pub mod Probed
pub mod Parts
pub mod Scenarios
pub mod Covered
pub mod Songs
pub mod Tests
use Prim.Native.String.{String}
use shiny_song_tools.Prelude.{
  ℕ, zero, suc, ◌+◌, ◌%◌, ◌^◌, Bool, true, false, ◌&&◌, Option, none, some, List, [], ◌∷◌, ◌++◌,
  map, length, ltb, leb, ◌==◌, if◌then◌else◌, Result, ok, err, ◌>>=◌,
}
use shiny_song_tools.Core.Error.{Il2CppError}
use shiny_song_tools.Core.Bridge.{Cache, resolve_method_va}
use shiny_song_tools.Plugins.Dump.Files.{
  Folder, max_data_file_bytes, json_suffix, underscore, same_chars,
}

-- The errors, which are texts in the source.
pub data BatchError : Type 0 where
  string_new_failed get_bytes_null write_failed : BatchError
  metadata : Il2CppError → BatchError
  function_not_found : String → BatchError
  data_file_too_large : ℕ → BatchError

-- The game during a batch: a new managed string, null as 0; the functions of `DataFile` at an address;
-- and memory.
pub record DataFile : Type 0 where
  pub new_string : List ℕ → ℕ
  pub is_key_exist : ℕ → ℕ → Bool
  pub get_bytes : ℕ → ℕ → ℕ
  pub read_u32 : ℕ → ℕ
  pub read_bytes : ℕ → ℕ → List ℕ

pub record Std : Type 0 where
  pub encode_utf16 : List ℕ → List ℕ
  pub two_digits : ℕ → List ℕ
  pub sort : List (List ℕ) → List (List ℕ)

abbrev found : String → Result Il2CppError (Option ℕ) → Result BatchError ℕ
found name (err e) = err (metadata e)
found name (ok none) = err (function_not_found name)
found name (ok (some va)) = ok va

unfoldable pub data_file_function : Cache → String → Result BatchError ℕ
unfolding resolve_method_va
data_file_function cache name =
    found name (resolve_method_va cache "PRISM.Legacy.dll" "PRISM.DataFile" name 1)

abbrev strip_prefix : List ℕ → List ℕ → Option (List ℕ)
strip_prefix [] cs = some cs
strip_prefix (p ∷ ps) [] = none
strip_prefix (p ∷ ps) (c ∷ cs) = let rest = strip_prefix ps cs in if p == c then rest else none

-- "mlADVInfo_Title_".
abbrev title_prefix : List ℕ
title_prefix =
    109 ∷ 108 ∷ 65 ∷ 68 ∷ 86 ∷ 73 ∷ 110 ∷ 102 ∷ 111 ∷ 95 ∷ 84 ∷ 105 ∷ 116 ∷ 108 ∷ 101 ∷ 95 ∷ []

-- `trim_start_matches`: the prefix as often as it stands there.
trim_start_matches : ℕ → List ℕ → List ℕ
trim_start_matches zero cs = cs
trim_start_matches (suc fuel) cs = elim (strip_prefix title_prefix cs) [
  | none ↦ cs
  | some rest ↦ trim_start_matches fuel rest
]

unfoldable pub sids_of : List (List ℕ) → List (List ℕ)
unfolding trim_start_matches
sids_of [] = []
sids_of (k ∷ ks) =
    let rest = sids_of ks in
    elim (strip_prefix title_prefix k) [
      | none ↦ rest
      | some sid ↦ trim_start_matches (length k) k ∷ rest
    ]

-- `dedup`: of equal neighbours the first stays.
unfoldable pub dedup_after : List ℕ → List (List ℕ) → List (List ℕ)
dedup_after x [] = []
dedup_after x (y ∷ ys) = let rest = dedup_after y ys in if same_chars x y then rest else y ∷ rest

unfoldable pub dedup : List (List ℕ) → List (List ℕ)
unfolding dedup_after
dedup [] = []
dedup (x ∷ xs) = x ∷ dedup_after x xs

module _ (folder : Folder) (std : Std) (game : DataFile) where
  abbrev pub key_of : List ℕ → ℕ
  key_of name = game.new_string (std.encode_utf16 name)

  abbrev written_as : folder.State × Bool → folder.State × Result BatchError (Unit {0})
  written_as (f, true) = (f, ok tt)
  written_as (f, false) = (f, err write_failed)

  unfoldable pub write_array :
      ℕ → List ℕ → folder.State → folder.State × Result BatchError (Unit {0})
  write_array array target f =
      let len = game.read_u32 (array + 24) in
      if ltb max_data_file_bytes len
      then (f, err (data_file_too_large len))
      else written_as
          (folder.write target (game.read_bytes (array + 32) len) (folder.create_dir_all f))

  unfoldable pub dump_one_data_file :
      ℕ → List ℕ → List ℕ → folder.State → folder.State × Result BatchError (Unit {0})
  unfolding write_array
  dump_one_data_file va key target f =
      let array = game.get_bytes va (key_of key) in
      if key_of key == 0
      then (f, err string_new_failed)
      else if array == 0
      then (f, err get_bytes_null)
      else write_array array target f

  -- The locals of the loop over the parts of one scenario, and the folder.
  pub record Probe : Type 0 where
    pub part : ℕ
    pub misses : ℕ
    pub files_written : ℕ
    pub dir : folder.State

  pub data Next : Type 0 where
    going : Probe → Next
    ended : folder.State → Result BatchError ℕ → Next

  abbrev pub part_name : List ℕ → ℕ → List ℕ
  part_name sid part = sid ++ underscore ∷ std.two_digits part ++ json_suffix

  abbrev pub wrapping_next : ℕ → ℕ
  wrapping_next part = (part + 1) % 2 ^ 32

  unfoldable pub after_dump : Probe → folder.State × Result BatchError (Unit {0}) → Next
  after_dump s (f, err e) = ended f (err e)
  after_dump s (f, ok tt) = going (record {
    part = wrapping_next s.part;
    misses = 0;
    files_written = s.files_written + 1;
    dir = f;
  })

  module _ (is_key_va get_bytes_va : ℕ) (sid : List ℕ) where
    -- One turn of the loop.
    unfoldable pub probe_part : Probe → Next
    unfolding dump_one_data_file after_dump
    probe_part s =
        let name = part_name sid s.part in
        if leb 5 s.misses
        then ended s.dir (ok s.files_written)
        else if key_of name == 0
        then ended s.dir (err string_new_failed)
        else if game.is_key_exist is_key_va (key_of name)
        then after_dump s (dump_one_data_file get_bytes_va name name s.dir)
        else going (record s { part = wrapping_next s.part; misses = s.misses + 1 })

    -- The loop on fuel; `none` when it runs out.
    unfoldable pub probe_parts : ℕ → Probe → Option (folder.State × Result BatchError ℕ)
    unfolding probe_part
    probe_parts zero s = none
    probe_parts (suc fuel) s = elim (probe_part s) [
      | ended f r ↦ some (f, r)
      | going s' ↦ probe_parts fuel s'
    ]
