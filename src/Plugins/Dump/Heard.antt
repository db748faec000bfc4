-- ===== src/Plugins/Dump/Heard.antt =====
-- crates/translation_dump/src/lib.rs: the handlers of the three hooks on shown texts (`UpdateLyrics`,
-- `SetLyric` and `TMP_Text.set_text`). They differ in the source that they put into a record.
pub mod Kept
use shiny_song_tools.Prelude.{ℕ, ◌+◌, ◌%◌, ◌^◌, ◌≡◌, Option, none, some, List, [], ◌∷◌, arith}
use shiny_song_tools.Core.Mailbox.{SendOutcome, accepted, replaced, full, busy, ArrayQueue}
use shiny_song_tools.Core.Mailbox.BoundedQueue.{try_send}
use shiny_song_tools.Plugins.Dump.{LyricsRecord, capture_lyrics, DumpDiagnostics, fetch_add}

-- The container of the hook sites, without what has no part in these handlers. `string_utf16` reads a
-- managed string: `none` for a null one.
pub record HeardSites (queue : ArrayQueue LyricsRecord) : Type 0 where
  pub string_utf16 : ℕ → Option (List ℕ)
  pub lyrics : queue.State
  pub diagnostics : DumpDiagnostics

-- The hook that is called.
pub data LyricsHook : Type 0 where
  update_lyrics set_lyric tmp_text : LyricsHook

abbrev pub source_of : LyricsHook → ℕ
source_of update_lyrics = 0
source_of set_lyric = 1
source_of tmp_text = 2

module _ (queue : ArrayQueue LyricsRecord) where
  unfoldable pub count_lyrics_outcome : SendOutcome → DumpDiagnostics → DumpDiagnostics
  count_lyrics_outcome accepted d = record d { lyrics_kept = fetch_add d.lyrics_kept }
  count_lyrics_outcome outcome d = record d { queue_full = fetch_add d.queue_full }

  unfoldable pub send_lyrics : Option LyricsRecord → HeardSites queue → HeardSites queue
  unfolding count_lyrics_outcome try_send
  send_lyrics none sites = sites
  send_lyrics (some r) sites =
      let (q, outcome) = try_send queue r sites.lyrics in
      record sites { lyrics = q; diagnostics = count_lyrics_outcome outcome sites.diagnostics }

  unfoldable pub hear_units : LyricsHook → Option (List ℕ) → HeardSites queue → HeardSites queue
  unfolding send_lyrics capture_lyrics
  hear_units hook none sites = sites
  hear_units hook (some units) sites = send_lyrics (capture_lyrics units (source_of hook)) sites

  -- The callback of a dispatch, which does not call the original: the dispatch passes the call through
  -- after it.
  unfoldable pub hear : LyricsHook → ℕ → HeardSites queue → HeardSites queue
  unfolding hear_units
  hear hook text sites =
      let seen = record sites {
        diagnostics = record sites.diagnostics {
          lyrics_seen = fetch_add sites.diagnostics.lyrics_seen;
        };
      } in
      hear_units hook (sites.string_utf16 text) seen

  -- The handlers of the three hooks.
  unfoldable pub update_lyrics_replacement : ℕ → HeardSites queue → HeardSites queue
  unfolding hear
  update_lyrics_replacement text sites = hear update_lyrics text sites

  unfoldable pub set_lyric_replacement : ℕ → HeardSites queue → HeardSites queue
  unfolding hear
  set_lyric_replacement text sites = hear set_lyric text sites

  unfoldable pub tmp_text_replacement : ℕ → HeardSites queue → HeardSites queue
  unfolding hear
  tmp_text_replacement text sites = hear tmp_text text sites

  unfoldable pub replacement : LyricsHook → ℕ → HeardSites queue → HeardSites queue
  unfolding update_lyrics_replacement set_lyric_replacement tmp_text_replacement
  replacement update_lyrics text sites = update_lyrics_replacement text sites
  replacement set_lyric text sites = set_lyric_replacement text sites
  replacement tmp_text text sites = tmp_text_replacement text sites

  -- Calls of the hooks, each with its text.
  unfoldable pub hear_all : List (LyricsHook × ℕ) → HeardSites queue → HeardSites queue
  unfolding replacement
  hear_all [] sites = sites
  hear_all ((hook, text) ∷ cs) sites = hear_all cs (replacement hook text sites)
