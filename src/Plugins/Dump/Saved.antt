-- ===== src/Plugins/Dump/Saved.antt =====
-- crates/translation_dump/src/lib.rs: what the dump file has of the tables.
use Prim.Native.String.{String}
use shiny_song_tools.Prelude.{
  ℕ, ◌≡◌, subst, &&-left, refl, sym, ◌∙◌, false, not, ◌&&◌, Option, none, some, List, [], ◌∷◌, leb,
  arith, if◌then◌else◌, if-elim, Result, ok, err, Bool-cases, inl, inr,
}
use shiny_song_tools.Core.Error.{PluginError}
use shiny_song_tools.Plugins.Dump.{
  Texts, DumpRecord, LyricsRecord, Entry, decode, decode_lyrics, flush_interval_frames,
}
use shiny_song_tools.Plugins.Dump.Maps.{
  LocalifyMap, text_in, text_in-or_default, text_in-put_same, put, or_default, same_text,
}
use shiny_song_tools.Plugins.Dump.State.{
  Disk, DumpState, put_text, merge_decoded, merge, merge_records, keep_lyrics, merge_lyrics,
  merge_bucket, merge_map, write_atomic_json, Flushed, settle_flush, flush, discard, flush_if_due,
  dump_update, one_more,
}
use shiny_song_tools.Plugins.Dump.Atomic.{Ends, IsAtomic, write_atomic_json-Ends}

-- The text that a dump file has, if there is one.
abbrev pub found : Option LocalifyMap → String → String → Option String
found none category id = none
found (some m) category id = text_in m category id

abbrev pub Agree : Option LocalifyMap → LocalifyMap → Type 0
Agree file entries = (c i : String) → found file c i ≡ text_in entries c i

-- If the table is not dirty, the file has its texts and no other.
abbrev pub IsSaved : Option LocalifyMap → DumpState → Type 0
IsSaved file s = s.dirty ≡ false → Agree file s.entries

put_text-IsSaved :
    (file : Option LocalifyMap) (category id text : String) (s : DumpState)
    → IsSaved file s
    → IsSaved file (put_text category id text s)
unfolding put
put_text-IsSaved file category id text s h clean c i =
    elim (Bool-cases (same_text (put category id text s.entries).1 text)) [
      | inl same ↦
          h (ground (arith, clean, same)) c i
          ∙ sym (text_in-put_same category id text c i s.entries same)
      | inr differs ↦ absurd (ground (arith, clean, differs))
    ]

module _ (texts : Texts) where
  merge_decoded-IsSaved :
      (file : Option LocalifyMap) (e : Option Entry) (s : DumpState)
      → IsSaved file s
      → IsSaved file (merge_decoded texts e s)
  unfolding merge_decoded
  merge_decoded-IsSaved file none s h = h
  merge_decoded-IsSaved file (some e) s h = put_text-IsSaved file e.category e.id e.text s h

  merge_records-IsSaved :
      (file : Option LocalifyMap) (rs : List DumpRecord) (s : DumpState)
      → IsSaved file s
      → IsSaved file (merge_records texts rs s)
  unfolding merge_records merge
  merge_records-IsSaved file [] s h = h
  merge_records-IsSaved file (r ∷ rs) s h =
      merge_records-IsSaved file rs (merge texts r s)
        (merge_decoded-IsSaved file (decode texts r) s h)

  keep_lyrics-IsSaved :
      (file : Option LocalifyMap) (l : ℕ × String) (s : DumpState)
      → IsSaved file s
      → IsSaved file (keep_lyrics texts l s)
  unfolding keep_lyrics
  keep_lyrics-IsSaved file (source, text) s h =
      if-elim (IsSaved file) (texts.is_blank text) _ _ (λ t. h) (λ f. h)

  merge_lyrics-IsSaved :
      (file : Option LocalifyMap) (rs : List LyricsRecord) (s : DumpState)
      → IsSaved file s
      → IsSaved file (merge_lyrics texts rs s)
  unfolding merge_lyrics
  merge_lyrics-IsSaved file [] s h = h
  merge_lyrics-IsSaved file (r ∷ rs) s h =
      merge_lyrics-IsSaved file rs (keep_lyrics texts (decode_lyrics texts r) s)
        (keep_lyrics-IsSaved file (decode_lyrics texts r) s h)

merge_bucket-IsSaved :
    (file : Option LocalifyMap) (category : String) (es : List (String × String)) (s : DumpState)
    → IsSaved file s
    → IsSaved file (merge_bucket category es s)
unfolding merge_bucket
merge_bucket-IsSaved file category [] s h = h
merge_bucket-IsSaved file category (e ∷ es) s h =
    merge_bucket-IsSaved file category es (put_text category e.0 e.1 s)
      (put_text-IsSaved file category e.0 e.1 s h)

pub merge_map-IsSaved :
    (file : Option LocalifyMap) (m : LocalifyMap) (s : DumpState)
    → IsSaved file s
    → IsSaved file (merge_map m s)
unfolding merge_map
merge_map-IsSaved file [] s h = h
merge_map-IsSaved file (b ∷ m) s h =
    let s' = record s { entries = or_default b.0 s.entries } in
    merge_map-IsSaved file m (merge_bucket b.0 b.1 s') (
      merge_bucket-IsSaved file b.0 b.1 s'
        (λ clean c i. h clean c i ∙ sym (text_in-or_default b.0 c i s.entries)))

-- What is done with the tables, whole: an Update system's run, the two topics that flush.
pub data DumpUse : Type 0 where
  update : List DumpRecord → List LyricsRecord → DumpUse
  dictionary : LocalifyMap → DumpUse
  flush_now : DumpUse

module _ (disk : Disk) (atomic : IsAtomic disk) where
  -- A flush keeps the tables, and the file has them all if it succeeds.
  abbrev pub Saves : DumpState → Flushed disk → Type 0
  Saves s (f, s', ok b) = (s'.entries ≡ s.entries) × Agree (disk.saved f) s.entries
  Saves s (f, s', err e) = (s'.entries ≡ s.entries) × IsSaved (disk.saved f) s'

  settle_flush-Saves :
      (s : DumpState) (f : disk.State) (r : disk.State × Result PluginError (Unit {0}))
      → IsSaved (disk.saved f) s
      → Ends disk s.entries (disk.saved f) r
      → Saves s (settle_flush disk s r)
  unfolding settle_flush
  settle_flush-Saves s f (g, err e) h ends =
      (refl, λ clean. subst (λ o. Agree o s.entries) (sym ends) (h clean))
  settle_flush-Saves s f (g, ok u) h ends =
      let kept : disk.saved (if s.lyrics_dirty then disk.write_lyrics s.lyrics g else g)
          ≡ some s.entries =
        if-elim (λ x. disk.saved x ≡ some s.entries) s.lyrics_dirty (disk.write_lyrics s.lyrics g) g
          (λ t. atomic.write_lyrics-saved s.lyrics g ∙ ends) (λ t. ends) in
      let agree : Agree (disk.saved (if s.lyrics_dirty then disk.write_lyrics s.lyrics g else g))
          s.entries =
        subst (λ o. Agree o s.entries) (sym kept) (λ c i. refl) in
      (refl, agree)

  -- On a disk that keeps its promises, and where a table that is not dirty is the one in the file: a
  -- flush leaves the entries as they are. If it succeeds, the file has all texts of the table and no
  -- other, whether or not it had to be written; if it fails, a table that is not dirty is still the one
  -- in the file.
  pub flush-Saves :
      (f : disk.State) (s : DumpState) → IsSaved (disk.saved f) s → Saves s (flush disk f s)
  unfolding flush
  flush-Saves f s h =
      if-elim (Saves s) (not s.dirty && not s.lyrics_dirty) _ _
        (λ t.
          let clean : s.dirty ≡ false =
            ground (arith, &&-left (not s.dirty) (not s.lyrics_dirty) t) in
          (refl, h clean))
        (λ t.
          settle_flush-Saves s f (write_atomic_json disk s.entries f) h
            (write_atomic_json-Ends disk atomic s.entries f))

  abbrev At : disk.State × DumpState × Result PluginError (Unit {0}) → Type 0
  At (f, s, r) = IsSaved (disk.saved f) s

  Saves-IsSaved : (s : DumpState) (r : Flushed disk) → Saves s r → IsSaved (disk.saved r.0) r.1
  Saves-IsSaved s (f, s', ok b) h = λ clean. subst (Agree (disk.saved f)) (sym h.0) h.1
  Saves-IsSaved s (f, s', err e) h = h.1

  discard-At : (s : DumpState) (r : Flushed disk) → Saves s r → At (discard disk r)
  discard-At s (f, s', ok b) h = Saves-IsSaved s (f, s', ok b) h
  discard-At s (f, s', err e) h = h.1

  flush_if_due-At :
      (f : disk.State) (s : DumpState) → IsSaved (disk.saved f) s → At (flush_if_due disk f s)
  unfolding flush_if_due
  flush_if_due-At f s h =
      let s' = record s { frames_since_flush = one_more s.frames_since_flush } in
      if-elim At (s'.dirty && leb flush_interval_frames s'.frames_since_flush) _ _
        (λ t. discard-At s' (flush disk f s') (flush-Saves f s' h)) (λ t. h)

  -- Each use with the state that it leaves, whatever it returns.
  abbrev pub perform : Texts → DumpUse → disk.State × DumpState → disk.State × DumpState
  perform texts (update records lyrics) (f, s) =
      let (f', s', r) = dump_update disk texts records lyrics f s in (f', s')
  perform texts (dictionary m) (f, s) = let (f', s', r) = flush disk f (merge_map m s) in (f', s')
  perform texts flush_now (f, s) = let (f', s', r) = flush disk f s in (f', s')

  abbrev pub perform_all : Texts → List DumpUse → disk.State × DumpState → disk.State × DumpState
  perform_all texts [] x = x
  perform_all texts (u ∷ us) x = perform_all texts us (perform texts u x)

  perform-IsSaved :
      (texts : Texts) (u : DumpUse) (x : disk.State × DumpState)
      → IsSaved (disk.saved x.0) x.1
      → let (f, s) = perform texts u x in IsSaved (disk.saved f) s
  unfolding dump_update
  perform-IsSaved texts (update records lyrics) (f, s) h =
      flush_if_due-At f (merge_lyrics texts lyrics (merge_records texts records s)) (
        merge_lyrics-IsSaved texts (disk.saved f) lyrics (merge_records texts records s)
          (merge_records-IsSaved texts (disk.saved f) records s h))
  perform-IsSaved texts (dictionary m) (f, s) h =
      Saves-IsSaved (merge_map m s) (flush disk f (merge_map m s))
        (flush-Saves f (merge_map m s) (merge_map-IsSaved (disk.saved f) m s h))
  perform-IsSaved texts flush_now (f, s) h = Saves-IsSaved s (flush disk f s) (flush-Saves f s h)

  -- Over any sequence of updates, merges of a whole dictionary and flushes, with whatever failures of
  -- the disk: as long as the table is not dirty, the file has exactly its texts.
  pub perform_all-IsSaved :
      (texts : Texts) (us : List DumpUse) (x : disk.State × DumpState)
      → IsSaved (disk.saved x.0) x.1
      → let (f, s) = perform_all texts us x in IsSaved (disk.saved f) s
  perform_all-IsSaved texts [] x h = h
  perform_all-IsSaved texts (u ∷ us) x h =
      perform_all-IsSaved texts us (perform texts u x) (perform-IsSaved texts u x h)
