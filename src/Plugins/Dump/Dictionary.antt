-- ===== src/Plugins/Dump/Dictionary.antt =====
-- crates/translation_dump/src/lib.rs: the debug topics that dump the dictionary of the game, flush the
-- tables and report their state. The offset of the field in the class comes from the metadata.
use Prim.Native.String.{String}
use shiny_song_tools.Prelude.{
  ℕ, ◌+◌, ◌≡◌, ◌≢◌, ◌⊎◌, arith, inl, inr, refl, ap, ◌∙◌, sym, subst, Bool, Option, none, some, [],
  ◌∷◌, length, ◌==◌, if◌then◌else◌, if-elim, Result, ok, err,
}
use shiny_song_tools.Core.Error.{PluginError}
use shiny_song_tools.Plugins.Dump.{Texts, DumpDiagnostics}
use shiny_song_tools.Plugins.Dump.Maps.{LocalifyMap, text_in}
use shiny_song_tools.Plugins.Dump.Merged.{said, merge_map-said}
use shiny_song_tools.Plugins.Dump.State.{Disk, DumpState, merge_map, Flushed, flush}
use shiny_song_tools.Plugins.Dump.Atomic.{IsAtomic}
use shiny_song_tools.Plugins.Dump.Saved.{Agree, IsSaved, merge_map-IsSaved, Saves, flush-Saves}
use shiny_song_tools.Plugins.Dump.Walk.{GameMemory, WalkError, walk_string_dictionary}

-- The errors, which are texts in the source.
pub data DicError : Type 0 where
  not_captured surface_unavailable dic_missing dic_null : DicError
  walk_failed : WalkError → DicError
  flush_failed : PluginError → DicError

pub record DumpDicResponse : Type 0 where
  pub instance : ℕ
  pub merged_categories : ℕ
  pub merged_entries : ℕ
  pub flushed : Bool

pub record DumpStatusResponse : Type 0 where
  pub categories : ℕ
  pub entries : ℕ
  pub dirty : Bool
  pub diagnostics : DumpDiagnostics

-- The number of the entries of all categories.
unfoldable pub count_entries : LocalifyMap → ℕ
count_entries [] = 0
count_entries (b ∷ m) = length b.1 + count_entries m

-- The counters are reported one by one in the source.
unfoldable pub dump_status_handler : DumpState → DumpStatusResponse
unfolding count_entries
dump_status_handler s = record {
  categories = length s.entries;
  entries = count_entries s.entries;
  dirty = s.dirty;
  diagnostics = s.diagnostics;
}

module _ (disk : Disk) (texts : Texts) (m : GameMemory) where
  abbrev pub Dumped : Type 0
  Dumped = disk.State × DumpState × Result DicError DumpDicResponse

  unfoldable settle_dictionary : ℕ → LocalifyMap → Flushed disk → Dumped
  unfolding count_entries
  settle_dictionary instance parsed (f, s, err e) = (f, s, err (flush_failed e))
  settle_dictionary instance parsed (f, s, ok flushed) = (
    f,
    s,
    ok (record {
      instance = instance;
      merged_categories = length parsed;
      merged_entries = count_entries parsed;
      flushed = flushed;
    }),
  )

  unfoldable merge_walked :
      ℕ → LocalifyMap × Result WalkError (Unit {0}) → disk.State → DumpState → Dumped
  unfolding settle_dictionary merge_map flush
  merge_walked instance (parsed, err e) f s = (f, s, err (walk_failed e))
  merge_walked instance (parsed, ok u) f s =
      settle_dictionary instance parsed (flush disk f (merge_map parsed s))

  unfoldable walk_field : ℕ → ℕ → disk.State → DumpState → Dumped
  unfolding merge_walked walk_string_dictionary
  walk_field instance dic_offset f s =
      let dic_ptr = m.read_ptr (instance + dic_offset) in
      if dic_ptr == 0
      then (f, s, err dic_null)
      else merge_walked instance (walk_string_dictionary texts m dic_ptr []) f s

  -- `surface` is the class of the manager, with the offset of its field `dic`.
  unfoldable pub dump_dic_handler : ℕ → Option (Option ℕ) → disk.State → DumpState → Dumped
  unfolding walk_field
  dump_dic_handler instance surface f s =
      if instance == 0 then (f, s, err not_captured) else elim surface [
        | none ↦ (f, s, err surface_unavailable)
        | some field ↦ elim field [
          | none ↦ (f, s, err dic_missing)
          | some dic_offset ↦ walk_field instance dic_offset f s
        ]
      ]

  -- There is a manager with the field and a dictionary in it, and the walk from there read this map, to its
  -- end.
  abbrev pub Walks : ℕ → Option (Option ℕ) → LocalifyMap → Type 0
  Walks instance surface parsed =
      (instance ≢ 0)
      × (dic_offset : ℕ) × (surface ≡ some (some dic_offset))
      × (m.read_ptr (instance + dic_offset) ≢ 0)
      × (walk_string_dictionary texts m (m.read_ptr (instance + dic_offset)) [] ≡ (parsed, ok tt))

  -- The tables have what the map says last of an id, and else what they had.
  abbrev pub Gets : LocalifyMap → DumpState → DumpState → Type 0
  Gets parsed s s' =
      (c i : String) → text_in s'.entries c i ≡ said parsed c i (text_in s.entries c i)

  abbrev Merges : LocalifyMap → DumpState → Dumped → Type 0
  Merges parsed s (f', s', ok response) =
      Gets parsed s s'
      × Agree (disk.saved f') s'.entries
      × (response.merged_categories ≡ length parsed)
  Merges parsed s (f', s', err e) = Gets parsed s s' × IsSaved (disk.saved f') s'

  -- Nothing was touched.
  abbrev Untouched : disk.State → DumpState → Dumped → Type 0
  Untouched f s (f', s', ok response) = ⊥
  Untouched f s (f', s', err e) = (f' ≡ f) × (s' ≡ s)

  -- What a dump leaves.
  abbrev pub Leaves : ℕ → Option (Option ℕ) → disk.State → DumpState → Dumped → Type 0
  Leaves instance surface f s x =
      ((((parsed : LocalifyMap) → ¬ Walks instance surface parsed)) × Untouched f s x)
      ⊎ ((parsed : LocalifyMap) × Walks instance surface parsed × Merges parsed s x)

  settle_dictionary-Merges :
      (atomic : IsAtomic disk) (instance : ℕ) (parsed : LocalifyMap) (s : DumpState)
      (r : Flushed disk)
      → Saves disk atomic (merge_map parsed s) r
      → Merges parsed s (settle_dictionary instance parsed r)
  unfolding settle_dictionary
  settle_dictionary-Merges atomic instance parsed s (g, s', err e) h =
      (λ c i. ap (λ n. text_in n c i) h.0 ∙ merge_map-said parsed s c i, h.1)
  settle_dictionary-Merges atomic instance parsed s (g, s', ok b) h = (
    λ c i. ap (λ n. text_in n c i) h.0 ∙ merge_map-said parsed s c i,
    subst (Agree (disk.saved g)) (sym h.0) h.1,
    refl,
  )

  merge_walked-Leaves :
      (atomic : IsAtomic disk) (instance dic_offset : ℕ)
      (w : LocalifyMap × Result WalkError (Unit {0})) (f : disk.State) (s : DumpState)
      → instance ≢ 0
      → m.read_ptr (instance + dic_offset) ≢ 0
      → walk_string_dictionary texts m (m.read_ptr (instance + dic_offset)) [] ≡ w
      → IsSaved (disk.saved f) s
      → Leaves instance (some (some dic_offset)) f s (merge_walked instance w f s)
  unfolding merge_walked
  merge_walked-Leaves atomic instance dic_offset (parsed, err e) f s nz full says h =
      inl (λ q (nz', off, same, full', read). cc, (refl, refl))
  merge_walked-Leaves atomic instance dic_offset (parsed, ok u) f s nz full says h =
      let t = merge_map parsed s in
      inr (
        parsed,
        (nz, dic_offset, refl, full, says),
        settle_dictionary-Merges atomic instance parsed s (flush disk f t)
            (flush-Saves disk atomic f t (merge_map-IsSaved (disk.saved f) parsed s h)),
      )

  -- On a disk that keeps its promises, and where a table that is not dirty is the one in the file, a dump
  -- of the dictionary is all or nothing. Either no walk comes to its end, and it reports an error, and
  -- the tables and the files are as they were, whatever a walk that failed had read; or the walk came to
  -- its end, and the tables have what the walked map says last of an id and else what they had. Then with
  -- a response the file has exactly these texts, and with the error of a flush a table that is not dirty
  -- is still the one in the file.
  pub dump_dic_handler-Leaves :
      (atomic : IsAtomic disk) (instance : ℕ) (surface : Option (Option ℕ)) (f : disk.State)
      (s : DumpState)
      → IsSaved (disk.saved f) s
      → Leaves instance surface f s (dump_dic_handler instance surface f s)
  unfolding dump_dic_handler walk_field
  dump_dic_handler-Leaves atomic instance none f s h =
      if-elim (Leaves instance none f s) (instance == 0) _ _ (λ t. inl (no_field, (refl, refl)))
        (λ t. inl (no_field, (refl, refl)))
    where
      no_field : (parsed : LocalifyMap) → ¬ Walks instance none parsed
      no_field parsed (nz, off, same, full, read) = cc
  dump_dic_handler-Leaves atomic instance (some none) f s h =
      if-elim (Leaves instance (some none) f s) (instance == 0) _ _
        (λ t. inl (no_field, (refl, refl))) (λ t. inl (no_field, (refl, refl)))
    where
      no_field : (parsed : LocalifyMap) → ¬ Walks instance (some none) parsed
      no_field parsed (nz, off, same, full, read) = cc
  dump_dic_handler-Leaves atomic instance (some (some dic_offset)) f s h =
      let dic_ptr = m.read_ptr (instance + dic_offset) in
      if-elim (Leaves instance (some (some dic_offset)) f s) (instance == 0) _ _
        (λ null. inl (λ parsed walks. absurd (ground (arith, null, walks.0)), (refl, refl)))
        (λ nz.
          if-elim (Leaves instance (some (some dic_offset)) f s) (dic_ptr == 0) _ _
            (λ null. inl (empty (ground (arith, null)), (refl, refl)))
            (λ full.
              merge_walked-Leaves atomic instance dic_offset
                (walk_string_dictionary texts m dic_ptr []) f s (ground (arith, nz))
                (ground (arith, full)) refl h))
    where
      empty :
          m.read_ptr (instance + dic_offset) ≡ 0
          → (parsed : LocalifyMap) → ¬ Walks instance (some (some dic_offset)) parsed
      empty null parsed (nz, off, same, full, read) = cc
