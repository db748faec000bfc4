-- ===== src/Plugins/Dump/Files.antt =====
-- crates/translation_dump/src/lib.rs: how the game's data files get to the disk, by the hook of
-- `DataFile.GetBytes` and by `dump_one_data_file`. A path or a name is the list of its characters; UTF-16
-- decoding is the standard library's.
pub mod Names
use shiny_song_tools.Prelude.{
  ℕ, zero, suc, ◌+◌, ◌*◌, ◌^◌, Bool, true, false, not, ◌&&◌, ◌||◌, Option, none, some, List, [],
  ◌∷◌, map, length, ltb, leb, ◌==◌, if◌then◌else◌, Result, ok, err,
}
use shiny_song_tools.Plugins.Dump.{DumpDiagnostics, fetch_add}

abbrev pub max_data_file_bytes : ℕ
max_data_file_bytes = 64 * 1024 * 1024

abbrev pub underscore : ℕ
underscore = 95

abbrev pub dot : ℕ
dot = 46

abbrev between : ℕ → ℕ → ℕ → Bool
between lo hi c = leb lo c && leb c hi

abbrev is_ascii_alphanumeric : ℕ → Bool
is_ascii_alphanumeric c = between 48 57 c || between 65 90 c || between 97 122 c

-- The characters that a file name keeps.
abbrev pub is_kept : ℕ → Bool
is_kept c = is_ascii_alphanumeric c || (c == underscore) || (c == dot)

abbrev pub sanitize_char : ℕ → ℕ
sanitize_char c = if is_kept c then c else underscore

unfoldable pub sanitize : List ℕ → List ℕ
sanitize cs = map sanitize_char cs

abbrev pub same_chars : List ℕ → List ℕ → Bool
same_chars [] [] = true
same_chars [] (d ∷ ds) = false
same_chars (c ∷ cs) [] = false
same_chars (c ∷ cs) (d ∷ ds) = (c == d) && same_chars cs ds

-- ".json".
abbrev pub json_suffix : List ℕ
json_suffix = 46 ∷ 106 ∷ 115 ∷ 111 ∷ 110 ∷ []

abbrev pub ends_with : List ℕ → List ℕ → Bool
ends_with [] suffix = same_chars [] suffix
ends_with (c ∷ cs) suffix = same_chars (c ∷ cs) suffix || ends_with cs suffix

abbrev pub starts_dot : List ℕ → Bool
starts_dot [] = false
starts_dot (c ∷ cs) = c == dot

-- `contains("..")`.
abbrev pub has_dots : List ℕ → Bool
has_dots [] = false
has_dots (c ∷ cs) = ((c == dot) && starts_dot cs) || has_dots cs

-- The files of a folder, by their names.
pub record Folder : Type 1 where
  pub State : Type 0
  pub exists : List ℕ → State → Bool
  pub create_dir_all : State → State
  pub write : List ℕ → List ℕ → State → State × Bool

-- What the hook reads of the game: a managed string, the characters of its units, and memory, where a
-- fault stops the process.
pub record GameData : Type 0 where
  pub string_utf16 : ℕ → Option (List ℕ)
  pub from_utf16_lossy : List ℕ → List ℕ
  pub read_u32 : ℕ → Option ℕ
  pub read_bytes : ℕ → ℕ → List ℕ

module _ (folder : Folder) where
  -- The container of the hook sites, without what has no part in the hook.
  pub record FilesSites : Type 0 where
    pub json_dir : folder.State
    pub diagnostics : DumpDiagnostics

  unfoldable pub keep_file : List ℕ → List ℕ → FilesSites → FilesSites
  keep_file name bytes sites = if folder.exists name sites.json_dir then sites else record {
    json_dir = (folder.write name bytes sites.json_dir).0;
    diagnostics = record sites.diagnostics {
      get_bytes_dumps = fetch_add sites.diagnostics.get_bytes_dumps;
    };
  }

  unfoldable pub keep_sanitized : List ℕ → List ℕ → FilesSites → FilesSites
  unfolding keep_file
  keep_sanitized name bytes sites = if has_dots name then sites else keep_file name bytes sites

  module _ (game : GameData) where
    unfoldable pub keep_array : List ℕ → ℕ → ℕ → FilesSites → FilesSites
    unfolding keep_sanitized sanitize
    keep_array path value len sites =
        if (len == 0) || ltb max_data_file_bytes len
        then sites
        else keep_sanitized (sanitize path) (game.read_bytes (value + 32) len) sites

    unfoldable pub read_array : List ℕ → ℕ → FilesSites → Option FilesSites
    unfolding keep_array
    read_array path value sites =
        if not (ends_with path json_suffix) || has_dots path
        then some sites
        else elim (game.read_u32 (value + 24)) [
          | some len ↦ some (keep_array path value len sites)
          | none ↦ none
        ]

    -- The handler of the hook after its call of the original, which returned `value`; it is returned
    -- again. `none` is a fault.
    unfoldable pub get_bytes_hook : ℕ → ℕ → FilesSites → Option FilesSites
    unfolding read_array
    get_bytes_hook path value sites =
        let seen = record sites {
          diagnostics = record sites.diagnostics {
            get_bytes_seen = fetch_add sites.diagnostics.get_bytes_seen;
          };
        } in
        elim (game.string_utf16 path) [
          | some units ↦ read_array (game.from_utf16_lossy units) value seen
          | none ↦ some seen
        ]
