-- ===== src/Plugins/Dump/Batch/Songs.antt =====
-- crates/translation_dump/src/lib.rs: `lyrics_dump_handler`, the batch of songs from the cursor on, and
-- which of their files it writes. The ids of the songs are those of a category of the tables, and the
-- folder is the one of the lyrics; the attempt to create the folder above it is left out. The
-- replacement in a pattern is the standard library's.
use shiny_song_tools.Prelude.{
  ℕ, ◌+◌, ◌≡◌, Bool, true, false, not, ◌||◌, Option, List, [], ◌∷◌, All, arith, length, ltb, leb,
  ◌==◌, if◌then◌else◌, if-elim, Result, ok, err,
}
use shiny_song_tools.Core.Bridge.{Cache}
use shiny_song_tools.Plugins.Dump.Files.{Folder, sanitize}
use shiny_song_tools.Plugins.Dump.Batch.{
  DataFile, Std, BatchError, data_file_function, key_of, dump_one_data_file,
}
use shiny_song_tools.Plugins.Dump.Batch.Writes.{IsKeeping, Grows, Dumped, dump_one_data_file-Dumped}
use shiny_song_tools.Plugins.Dump.Batch.Scenarios.{skip, unwrap_or}

-- "{id}_lyrics", "lyrics/{id}" and so on.
abbrev default_patterns : List (List ℕ)
default_patterns =
    (123 ∷ 105 ∷ 100 ∷ 125 ∷ 95 ∷ 108 ∷ 121 ∷ 114 ∷ 105 ∷ 99 ∷ 115 ∷ [])
    ∷ (108 ∷ 121 ∷ 114 ∷ 105 ∷ 99 ∷ 115 ∷ 47 ∷ 123 ∷ 105 ∷ 100 ∷ 125 ∷ [])
    ∷ (109 ∷ 117 ∷ 115 ∷ 105 ∷ 99 ∷ 47 ∷ 123 ∷ 105 ∷ 100 ∷ 125 ∷ 95 ∷ 108 ∷ 121 ∷ 114 ∷ 105 ∷ 99
        ∷ 115 ∷ [])
    ∷ (109 ∷ 117 ∷ 115 ∷ 105 ∷ 99 ∷ 47 ∷ 123 ∷ 105 ∷ 100 ∷ 125 ∷ 47 ∷ 108 ∷ 121 ∷ 114 ∷ 105 ∷ 99
        ∷ 115 ∷ [])
    ∷ (109 ∷ 117 ∷ 115 ∷ 105 ∷ 99 ∷ 115 ∷ 99 ∷ 111 ∷ 114 ∷ 101 ∷ 47 ∷ 123 ∷ 105 ∷ 100 ∷ 125 ∷ [])
    ∷ (109 ∷ 117 ∷ 115 ∷ 105 ∷ 99 ∷ 115 ∷ 99 ∷ 111 ∷ 114 ∷ 101 ∷ 47 ∷ 123 ∷ 105 ∷ 100 ∷ 125 ∷ 95
        ∷ 115 ∷ 99 ∷ 111 ∷ 114 ∷ 101 ∷ [])
    ∷ (108 ∷ 121 ∷ 114 ∷ 105 ∷ 99 ∷ 47 ∷ 123 ∷ 105 ∷ 100 ∷ 125 ∷ [])
    ∷ []

abbrev patterns_of : List (List ℕ) → List (List ℕ)
patterns_of [] = default_patterns
patterns_of (p ∷ ps) = p ∷ ps

pub record LyricsDumpResponse : Type 0 where
  pub total_music : ℕ
  pub cursor : ℕ
  pub files_written : ℕ
  pub patterns_used : List (List ℕ)
  pub done : Bool

module _ (folder : Folder) (std : Std) (game : DataFile)
    (replace_id : List ℕ → List ℕ → List ℕ) where
  -- The locals of the loop, with the cursor that the plugin's state keeps, and the folder.
  pub record Songs : Type 0 where
    pub lyrics_cursor : ℕ
    pub processed : ℕ
    pub files_written : ℕ
    pub dir : folder.State

  module _ (is_key_va get_bytes_va : ℕ) where
    -- The game has no file of this key.
    abbrev pub is_missing : List ℕ → Bool
    is_missing key =
        (key_of folder std game key == 0)
        || not (game.is_key_exist is_key_va (key_of folder std game key))

    -- The loop over the patterns of one song, with the number of the files written so far.
    unfoldable pub try_patterns :
        List ℕ → List (List ℕ) → ℕ → folder.State → folder.State × Result BatchError ℕ
    unfolding dump_one_data_file sanitize
    try_patterns id [] written f = (f, ok written)
    try_patterns id (p ∷ ps) written f =
        let key = replace_id p id in
        let target = sanitize key in
        let o = dump_one_data_file folder std game get_bytes_va key target f in
        let skipped = try_patterns id ps written f in
        if is_missing key || folder.exists target f
        then skipped
        else elim o.1 [ err e ↦ (o.0, err e) | ok u ↦ try_patterns id ps (written + 1) o.0 ]

    -- The loop over the songs from the cursor on.
    unfoldable pub scan_songs :
        List (List ℕ) → ℕ → List (List ℕ) → Songs → Songs × Result BatchError (Unit {0})
    unfolding try_patterns
    scan_songs patterns limit [] s = (s, ok tt)
    scan_songs patterns limit (id ∷ ids) s =
        let o = try_patterns id patterns s.files_written s.dir in
        if ltb s.processed limit
        then elim o.1 [
          | err e ↦ (record s { dir = o.0 }, err e)
          | ok written ↦ scan_songs patterns limit ids (record {
            lyrics_cursor = s.lyrics_cursor + 1;
            processed = s.processed + 1;
            files_written = written;
            dir = o.0;
          })
        ]
        else (s, ok tt)

  abbrev respond :
      ℕ
      → List (List ℕ)
      → Songs × Result BatchError (Unit {0})
      → (ℕ × folder.State) × Result BatchError LyricsDumpResponse
  respond total patterns (s, err e) = ((s.lyrics_cursor, s.dir), err e)
  respond total patterns (s, ok u) = (
    (s.lyrics_cursor, s.dir),
    ok (record {
      total_music = total;
      cursor = s.lyrics_cursor;
      files_written = s.files_written;
      patterns_used = patterns;
      done = leb total s.lyrics_cursor;
    }),
  )

  -- The handler: the cursor and the folder afterwards, and the response.
  unfoldable pub lyrics_dump :
      Cache
      → List (List ℕ)
      → List (List ℕ)
      → Option ℕ
      → ℕ
      → folder.State
      → (ℕ × folder.State) × Result BatchError LyricsDumpResponse
  unfolding data_file_function skip scan_songs
  lyrics_dump cache requested music_ids limit cursor f =
      elim (data_file_function cache "IsKeyExist") [
        | err e ↦ ((cursor, f), err e)
        | ok is_key_va ↦ elim (data_file_function cache "GetBytes") [
          | err e ↦ ((cursor, f), err e)
          | ok get_bytes_va ↦ respond (length music_ids) (patterns_of requested) (
              scan_songs is_key_va get_bytes_va (patterns_of requested) (unwrap_or 20 limit)
                (skip cursor music_ids)
                (record { lyrics_cursor = cursor; processed = 0; files_written = 0; dir = f }))
        ]
      ]

  module _ (keeping : IsKeeping folder) (is_key_va get_bytes_va : ℕ) where
    -- The file of this pattern is in the folder, if the game has it.
    abbrev Filed : List ℕ → folder.State → List ℕ → Type 0
    Filed id f p =
        is_missing is_key_va get_bytes_va (replace_id p id) ≡ false
        → folder.exists (sanitize (replace_id p id)) f ≡ true

    abbrev pub Files :
        List ℕ → List (List ℕ) → folder.State → folder.State × Result BatchError ℕ → Type 0
    Files id ps f (g, ok written) = Grows folder f g × All (Filed id g) ps
    Files id ps f (g, err e) = Grows folder f g

    Files-cons :
        (id p : List ℕ) (ps : List (List ℕ)) (f g : folder.State)
        (r : folder.State × Result BatchError ℕ)
        → Grows folder f g
        → Filed id g p
        → Files id ps g r
        → Files id (p ∷ ps) f r
    Files-cons id p ps f g (h, ok written) grows filed (more, all) =
        ((λ n e. more n (grows n e)), ((λ has. more (sanitize (replace_id p id)) (filed has)), all))
    Files-cons id p ps f g (h, err e) grows filed more = λ n x. more n (grows n x)

    dumped-Files :
        (id p : List ℕ) (ps : List (List ℕ)) (f : folder.State)
        (run : folder.State → folder.State × Result BatchError ℕ)
        (o : folder.State × Result BatchError (Unit {0}))
        → Dumped folder (sanitize (replace_id p id)) f o
        → ((g : folder.State) → Files id ps g (run g))
        → Files id (p ∷ ps) f (elim o.1 [ err e ↦ (o.0, err e) | ok u ↦ run o.0 ])
    dumped-Files id p ps f run (g, err e) grows rest = grows
    dumped-Files id p ps f run (g, ok tt) (grows, there) rest =
        Files-cons id p ps f g (run g) grows (λ has. there) (rest g)

    -- A song loses no file of the folder, and without an error each key of it that the game has is there
    -- under its sanitized name.
    try_patterns-Files :
        (id : List ℕ) (ps : List (List ℕ)) (written : ℕ) (f : folder.State)
        → Files id ps f (try_patterns is_key_va get_bytes_va id ps written f)
    unfolding try_patterns
    try_patterns-Files id [] written f = ((λ n e. e), tt)
    try_patterns-Files id (p ∷ ps) written f =
        let key = replace_id p id in
        let target = sanitize key in
        let o = dump_one_data_file folder std game get_bytes_va key target f in
        if-elim (Files id (p ∷ ps) f)
          (is_missing is_key_va get_bytes_va key || folder.exists target f) _ _
          (λ t.
            Files-cons id p ps f f (try_patterns is_key_va get_bytes_va id ps written f) (λ n e. e)
              (λ has. ground (arith, has, t)) (try_patterns-Files id ps written f))
          (λ t.
            dumped-Files id p ps f (λ g. try_patterns is_key_va get_bytes_va id ps (written + 1) g)
              o (dump_one_data_file-Dumped folder keeping std game get_bytes_va key target f)
              (λ g. try_patterns-Files id ps (written + 1) g))
