-- ===== src/Plugins/Dump/State.antt =====
-- crates/translation_dump/src/lib.rs: `DumpState`, the main thread's tables and their way to the disk.
use Prim.Native.String.{String}
use shiny_song_tools.Prelude.{
  ℕ, ◌+◌, Bool, true, false, not, ◌&&◌, Option, none, some, List, [], ◌∷◌, leb, ltb, ◌==◌,
  if◌then◌else◌, Result, ok, err,
}
use shiny_song_tools.Core.Error.{PluginError}
use shiny_song_tools.Plugins.Dump.{
  Texts, DumpRecord, LyricsRecord, Entry, decode, decode_lyrics, DumpDiagnostics, fetch_add,
  flush_interval_frames,
}
use shiny_song_tools.Plugins.Dump.Maps.{LocalifyMap, find, insert, put, or_default, same_text}

-- The files of the dump. `saved` is the content of the dump file, `staged` that of the temporary one
-- beside it. `write_lyrics` is the attempt to write the lyrics file, whose failure is ignored.
pub record Disk : Type 1 where
  pub State : Type 0
  pub create_dir_all : State → State × Result PluginError (Unit {0})
  pub open_temp : State → State × Result PluginError (Unit {0})
  pub to_writer_pretty : LocalifyMap → State → State × Result PluginError (Unit {0})
  pub write_newline : State → State × Result PluginError (Unit {0})
  pub flush : State → State × Result PluginError (Unit {0})
  pub sync_all : State → State × Result PluginError (Unit {0})
  pub rename : State → State × Result PluginError (Unit {0})
  pub write_lyrics : List (String × String) → State → State
  pub saved : State → Option LocalifyMap
  pub staged : State → Option LocalifyMap

-- The path of the dump file is not remembered here.
pub record DumpState : Type 0 where
  pub entries : LocalifyMap
  pub dirty : Bool
  pub frames_since_flush : ℕ
  pub diagnostics : DumpDiagnostics
  pub lyrics : List (String × String)
  pub lyrics_dirty : Bool

-- What `insert` on the entries does to the dirty flag.
abbrev pub put_text : String → String → String → DumpState → DumpState
unfolding put
put_text category id text s =
    let (entries, old) = put category id text s.entries in
    record s {
      entries = entries;
      dirty = if same_text old text then s.dirty else true;
      diagnostics = record s.diagnostics { merged = fetch_add s.diagnostics.merged };
    }

module _ (texts : Texts) where
  unfoldable pub merge_decoded : Option Entry → DumpState → DumpState
  merge_decoded none s = record s {
    diagnostics = record s.diagnostics { invalid_utf16 = fetch_add s.diagnostics.invalid_utf16 };
  }
  merge_decoded (some e) s = put_text e.category e.id e.text s

  unfoldable pub merge : DumpRecord → DumpState → DumpState
  unfolding merge_decoded decode
  merge r s = merge_decoded (decode texts r) s

  unfoldable pub merge_records : List DumpRecord → DumpState → DumpState
  unfolding merge
  merge_records [] s = s
  merge_records (r ∷ rs) s = merge_records rs (merge r s)

  -- `SRC_MV_OVERLAY` is 0 and `SRC_TIMELINE` is 1.
  count_source : ℕ → DumpDiagnostics → DumpDiagnostics
  count_source source d =
      if source == 0
      then record d { mv_lyrics_kept = fetch_add d.mv_lyrics_kept }
      else (if source == 1
          then record d { timeline_lyrics_kept = fetch_add d.timeline_lyrics_kept }
          else record d { tmp_texts_kept = fetch_add d.tmp_texts_kept })

  is_new : Option String → Bool
  is_new none = true
  is_new (some old) = false

  unfoldable pub keep_lyrics : ℕ × String → DumpState → DumpState
  unfolding count_source is_new find insert
  keep_lyrics (source, text) s = if texts.is_blank text then s else record s {
    lyrics = insert text "" s.lyrics;
    lyrics_dirty = if is_new (find text s.lyrics) then true else s.lyrics_dirty;
    diagnostics = count_source source s.diagnostics;
  }

  unfoldable pub merge_lyrics : List LyricsRecord → DumpState → DumpState
  unfolding keep_lyrics decode_lyrics
  merge_lyrics [] s = s
  merge_lyrics (r ∷ rs) s = merge_lyrics rs (keep_lyrics (decode_lyrics texts r) s)

-- `merge_map`, without its two counts.
unfoldable pub merge_bucket : String → List (String × String) → DumpState → DumpState
merge_bucket category [] s = s
merge_bucket category (e ∷ es) s = merge_bucket category es (put_text category e.0 e.1 s)

unfoldable pub merge_map : LocalifyMap → DumpState → DumpState
unfolding merge_bucket or_default
merge_map [] s = s
merge_map (b ∷ m) s =
    merge_map m (merge_bucket b.0 b.1 (record s { entries = or_default b.0 s.entries }))

-- `saturating_add(1)` on 32 bits.
abbrev pub one_more : ℕ → ℕ
one_more n = if ltb n 4_294_967_295 then n + 1 else 4_294_967_295

module _ (disk : Disk) where
  -- `?` after an operation on the files.
  abbrev pub after :
      disk.State × Result PluginError (Unit {0})
      → (disk.State → disk.State × Result PluginError (Unit {0}))
      → disk.State × Result PluginError (Unit {0})
  after (f, ok u) next = next f
  after (f, err e) next = (f, err e)

  unfoldable pub write_atomic_json :
      LocalifyMap → disk.State → disk.State × Result PluginError (Unit {0})
  write_atomic_json entries f = after (disk.create_dir_all f) λ f. after (disk.open_temp f) λ f.
      after (disk.to_writer_pretty entries f) λ f.
        after (disk.write_newline f)
          λ f. after (disk.flush f) λ f. after (disk.sync_all f) disk.rename

  abbrev pub Flushed : Type 0
  Flushed = disk.State × DumpState × Result PluginError Bool

  unfoldable pub settle_flush : DumpState → disk.State × Result PluginError (Unit {0}) → Flushed
  settle_flush s (f, err e) = (f, s, err e)
  settle_flush s (f, ok u) = (
    if s.lyrics_dirty then disk.write_lyrics s.lyrics f else f,
    record s {
      dirty = false;
      lyrics_dirty = false;
      frames_since_flush = 0;
      diagnostics = record s.diagnostics { flushes = fetch_add s.diagnostics.flushes };
    },
    ok true,
  )

  unfoldable pub flush : disk.State → DumpState → Flushed
  unfolding settle_flush write_atomic_json
  flush f s =
      if not s.dirty && not s.lyrics_dirty
      then (f, record s { frames_since_flush = 0 }, ok false)
      else settle_flush s (write_atomic_json s.entries f)

  abbrev pub discard : Flushed → disk.State × DumpState × Result PluginError (Unit {0})
  discard (f, s, ok b) = (f, s, ok tt)
  discard (f, s, err e) = (f, s, err e)

  unfoldable pub flush_if_due :
      disk.State → DumpState → disk.State × DumpState × Result PluginError (Unit {0})
  unfolding flush
  flush_if_due f s =
      let s' = record s { frames_since_flush = one_more s.frames_since_flush } in
      if s'.dirty && leb flush_interval_frames s'.frames_since_flush
      then discard (flush f s')
      else (f, s', ok tt)

  unfoldable pub dump_update :
      Texts
      → List DumpRecord
      → List LyricsRecord
      → disk.State
      → DumpState
      → disk.State × DumpState × Result PluginError (Unit {0})
  unfolding flush_if_due merge_records merge_lyrics
  dump_update texts records lyrics f s =
      flush_if_due f (merge_lyrics texts lyrics (merge_records texts records s))
