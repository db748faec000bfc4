-- ===== src/Plugins/Dump/Files/Names.antt =====
-- The names of the files that the hook of `DataFile.GetBytes` writes.
use shiny_song_tools.Prelude.{
  ℕ, ◌+◌, ◌≡◌, refl, ap, ◌∙◌, true, false, not, ◌&&◌, ◌||◌, Bool-cases, Option-cases, if_true, ◌⊎◌,
  inl, inr, Option, none, some, List, [], ◌∷◌, arith, ◌==◌, if-elim, Option-elim, All,
}
use shiny_song_tools.Plugins.Dump.{fetch_add}
use shiny_song_tools.Plugins.Dump.Files.{
  is_kept, sanitize_char, sanitize, same_chars, ends_with, starts_dot, has_dots, json_suffix,
  underscore, dot, Folder, FilesSites, GameData, keep_file, keep_sanitized, keep_array, read_array,
  get_bytes_hook,
}

sanitize_char-kept : (c : ℕ) → is_kept (sanitize_char c) ≡ true
sanitize_char-kept c = if-elim (λ d. is_kept d ≡ true) (is_kept c) _ _ (λ t. t) (λ t. refl)

sanitize_char-dot : (c : ℕ) → (sanitize_char c == dot) ≡ (c == dot)
sanitize_char-dot c =
    if-elim (λ d. (d == dot) ≡ (c == dot)) (is_kept c) _ _ (λ t. refl) (λ t. ground (arith, t))

starts_dot-sanitize : (cs : List ℕ) → starts_dot (sanitize cs) ≡ starts_dot cs
unfolding sanitize
starts_dot-sanitize [] = refl
starts_dot-sanitize (c ∷ cs) = sanitize_char-dot c

-- Sanitizing neither makes nor removes two dots in a row.
has_dots-sanitize : (cs : List ℕ) → has_dots (sanitize cs) ≡ has_dots cs
unfolding sanitize
has_dots-sanitize [] = refl
has_dots-sanitize (c ∷ cs) =
    rw (sanitize_char-dot c, starts_dot-sanitize cs, has_dots-sanitize cs) refl

same_chars-sanitize :
    (cs ds : List ℕ)
    → All (λ d. is_kept d ≡ true) ds
    → same_chars cs ds ≡ true
    → same_chars (sanitize cs) ds ≡ true
unfolding sanitize
same_chars-sanitize [] [] kept h = refl
same_chars-sanitize [] (d ∷ ds) kept h = h
same_chars-sanitize (c ∷ cs) [] kept h = h
same_chars-sanitize (c ∷ cs) (d ∷ ds) kept h =
    let same : c ≡ d = ground (arith, h) in
    let k : is_kept c ≡ true = ap is_kept same ∙ kept.0 in
    let rest = same_chars-sanitize cs ds kept.1 (ground (arith, h)) in
    if_true (λ x. ((x == d) && same_chars (sanitize cs) ds) ≡ true) (is_kept c) c underscore k
      (ground (arith, same, rest))

json_suffix_kept : All (λ d. is_kept d ≡ true) json_suffix
json_suffix_kept = (refl, (refl, (refl, (refl, (refl, tt)))))

ends_with-sanitize :
    (cs : List ℕ) → ends_with cs json_suffix ≡ true → ends_with (sanitize cs) json_suffix ≡ true
unfolding sanitize
ends_with-sanitize [] h = h
ends_with-sanitize (c ∷ cs) h = elim (Bool-cases (same_chars (c ∷ cs) json_suffix)) [
  | inl t ↦ ground (arith, same_chars-sanitize (c ∷ cs) json_suffix json_suffix_kept t)
  | inr t ↦ ground (arith, ends_with-sanitize cs (ground (arith, h, t)))
]

sanitize-kept : (cs : List ℕ) → All (λ c. is_kept c ≡ true) (sanitize cs)
unfolding sanitize
sanitize-kept [] = tt
sanitize-kept (c ∷ cs) = (sanitize_char-kept c, sanitize-kept cs)

-- A name that stays within its folder: letters, digits, underscores and dots, no two of these in a row,
-- with the suffix of a JSON file.
pub record IsProper (name : List ℕ) : Type 0 where
  pub all_kept : All (λ c. is_kept c ≡ true) name
  pub no_dots : has_dots name ≡ false
  pub suffixed : ends_with name json_suffix ≡ true

sanitize-IsProper :
    (path : List ℕ)
    → ends_with path json_suffix ≡ true
    → has_dots path ≡ false
    → IsProper (sanitize path)
sanitize-IsProper path suffix dots = record {
  all_kept = sanitize-kept path;
  no_dots = has_dots-sanitize path ∙ dots;
  suffixed = ends_with-sanitize path suffix;
}

module _ (folder : Folder) where
  -- The array became a new file with a proper name.
  pub record Adds (a b : FilesSites folder) : Type 0 where
    pub name : List ℕ
    pub bytes : List ℕ
    pub proper : IsProper name
    pub was_absent : folder.exists name a.json_dir ≡ false
    pub written : b.json_dir ≡ (folder.write name bytes a.json_dir).0
    pub counted : b.diagnostics.get_bytes_dumps ≡ fetch_add a.diagnostics.get_bytes_dumps

  -- At most one file is added, and a count of one says so.
  abbrev pub Stays : FilesSites folder → FilesSites folder → Type 0
  Stays a b =
      (b.diagnostics.get_bytes_seen ≡ a.diagnostics.get_bytes_seen)
      × (((b.json_dir ≡ a.json_dir)
            × (b.diagnostics.get_bytes_dumps ≡ a.diagnostics.get_bytes_dumps))
          ⊎ Adds a b)

  idle : (a : FilesSites folder) → Stays a a
  idle a = (refl, inl (refl, refl))

  keep_file-Stays :
      (name bytes : List ℕ) (a : FilesSites folder)
      → IsProper name
      → Stays a (keep_file folder name bytes a)
  unfolding keep_file
  keep_file-Stays name bytes a proper =
      if-elim (Stays a) (folder.exists name a.json_dir) _ _ (λ t. idle a)
        (λ t. (
          refl,
          inr (record {
            name = name;
            bytes = bytes;
            proper = proper;
            was_absent = t;
            written = refl;
            counted = refl;
          }),
        ))

  keep_sanitized-Stays :
      (name bytes : List ℕ) (a : FilesSites folder)
      → IsProper name
      → Stays a (keep_sanitized folder name bytes a)
  unfolding keep_sanitized
  keep_sanitized-Stays name bytes a proper =
      if-elim (Stays a) (has_dots name) _ _ (λ t. idle a) (λ t. keep_file-Stays name bytes a proper)

  module _ (game : GameData) where
    keep_array-Stays :
        (path : List ℕ) (value len : ℕ) (a : FilesSites folder)
        → IsProper (sanitize path)
        → Stays a (keep_array folder game path value len a)
    unfolding keep_array
    keep_array-Stays path value len a proper =
        if-elim (Stays a) _ _ _ (λ t. idle a)
          (λ t. keep_sanitized-Stays (sanitize path) (game.read_bytes (value + 32) len) a proper)

    -- The call returns, or the length of the array cannot be read.
    abbrev pub StaysOrFaults : ℕ → FilesSites folder → Option (FilesSites folder) → Type 0
    StaysOrFaults value a (some b) = Stays a b
    StaysOrFaults value a none = game.read_u32 (value + 24) ≡ none

    read_array-StaysOrFaults :
        (path : List ℕ) (value : ℕ) (a : FilesSites folder)
        → StaysOrFaults value a (read_array folder game path value a)
    unfolding read_array
    read_array-StaysOrFaults path value a =
        if-elim (StaysOrFaults value a) (not (ends_with path json_suffix) || has_dots path) _ _
          (λ t. idle a)
          (λ t.
            let proper = sanitize-IsProper path (ground (arith, t)) (ground (arith, t)) in
            elim (Option-cases (game.read_u32 (value + 24))) [
              | inl e ↦ rw e e
              | inr (len, e) ↦ rw e (keep_array-Stays path value len a proper)
            ])

    -- What a call of the hook does: it counts itself, and stays within the folder.
    abbrev pub HooksProperly : ℕ → FilesSites folder → Option (FilesSites folder) → Type 0
    HooksProperly value a (some b) =
        (b.diagnostics.get_bytes_seen ≡ fetch_add a.diagnostics.get_bytes_seen)
        × (((b.json_dir ≡ a.json_dir)
              × (b.diagnostics.get_bytes_dumps ≡ a.diagnostics.get_bytes_dumps))
            ⊎ Adds a b)
    HooksProperly value a none = game.read_u32 (value + 24) ≡ none

    -- The sites after the call was counted.
    abbrev seen : FilesSites folder → FilesSites folder
    seen a = record a {
      diagnostics = record a.diagnostics {
        get_bytes_seen = fetch_add a.diagnostics.get_bytes_seen;
      };
    }

    seen-HooksProperly :
        (value : ℕ) (a : FilesSites folder) (o : Option (FilesSites folder))
        → StaysOrFaults value (seen a) o
        → HooksProperly value a o
    seen-HooksProperly value a none h = h
    seen-HooksProperly value a (some b) (counted, inl same) = (counted, inl same)
    seen-HooksProperly value a (some b) (counted, inr added) = (
      counted,
      inr (record {
        name = added.name;
        bytes = added.bytes;
        proper = added.proper;
        was_absent = added.was_absent;
        written = added.written;
        counted = added.counted;
      }),
    )

    -- Whatever path the game loads, a call of the hook counts itself and leaves the folder as it was, or
    -- writes one file, which was absent, under a name of letters, digits, underscores and dots, without two
    -- dots in a row and with the suffix `.json`, and counts it; or the length of the array is unreadable,
    -- which is a fault.
    pub get_bytes_hook-HooksProperly :
        (path value : ℕ) (a : FilesSites folder)
        → HooksProperly value a (get_bytes_hook folder game path value a)
    unfolding get_bytes_hook
    get_bytes_hook-HooksProperly path value a =
        Option-elim (HooksProperly value a) (game.string_utf16 path) _ _
          (λ units.
            let path' = game.from_utf16_lossy units in
            seen-HooksProperly value a (read_array folder game path' value (seen a))
              (read_array-StaysOrFaults path' value (seen a)))
          (refl, inl (refl, refl))
