-- ===== src/Plugins/Dump/Tests.antt =====
-- Runs of the dump on a disk that holds two files, and a queue that is a list.
use shiny_song_tools.Prelude.{
  ℕ, zero, suc, ◌≡◌, refl, true, false, Option, none, some, List, [], ◌∷◌, ok, arith,
}
use shiny_song_tools.Core.Mailbox.Tests.{list_queue}
use shiny_song_tools.Plugins.Dump.{Texts, DumpDiagnostics, LyricsRecord, capture}
use shiny_song_tools.Plugins.Dump.Maps.{LocalifyMap, text_in}
use shiny_song_tools.Plugins.Dump.Records.{Captures, capture-Captures}
use shiny_song_tools.Plugins.Dump.Capture.{DumpSites, Hit, of_get_text_or_null, of_get_text}
use shiny_song_tools.Plugins.Dump.Heard.{HeardSites, LyricsHook, update_lyrics, tmp_text, hear_all}
use shiny_song_tools.Plugins.Dump.Heard.Kept.{Keeps, records_of, hear_all-Keeps}
use shiny_song_tools.Plugins.Dump.State.{Disk, DumpState}
use shiny_song_tools.Plugins.Dump.Atomic.{IsAtomic}
use shiny_song_tools.Plugins.Dump.Saved.{
  IsSaved, DumpUse, update, dictionary, flush_now, perform_all, perform_all-IsSaved,
}
use shiny_song_tools.Plugins.Dump.Lyrics.{lyrics_frames, lyrics_frames_wait}

abbrev texts : Texts
texts = record {
  from_utf16 = λ units. some "A";
  to_string = λ n. "7";
  u32_to_string = λ n. "7";
  is_blank = λ s. false;
}

abbrev pub zeroed : DumpDiagnostics
zeroed = record {
  get_bytes_seen = 0;
  get_bytes_dumps = 0;
  lyrics_seen = 0;
  lyrics_kept = 0;
  mv_lyrics_kept = 0;
  timeline_lyrics_kept = 0;
  tmp_texts_kept = 0;
  hook_hits = 0;
  get_text_hits = 0;
  enqueued = 0;
  null_strings = 0;
  oversized = 0;
  queue_full = 0;
  invalid_utf16 = 0;
  merged = 0;
  flushes = 0;
}

capture-Captures_example : Captures texts (65 ∷ []) 7 (65 ∷ []) (capture (65 ∷ []) 7 (65 ∷ []))
capture-Captures_example = capture-Captures texts (65 ∷ []) 7 (65 ∷ [])

-- A null string has the address 0.
abbrev units_at : ℕ → Option (List ℕ)
units_at zero = none
units_at (suc a) = some (65 ∷ [])

abbrev sites : DumpSites (list_queue 1)
sites = record { string_utf16 = units_at; records = []; diagnostics = zeroed; instance = 0 }

abbrev three_hits : List Hit
three_hits =
    record { hits = of_get_text; this = 3; category = 4; id = 7; value = 5 }
    ∷ record { hits = of_get_text; this = 3; category = 4; id = 7; value = 0 }
    ∷ record { hits = of_get_text_or_null; this = 3; category = 4; id = 7; value = 5 }
    ∷ []

pub record Files : Type 0 where
  dump : Option LocalifyMap
  temp : Option LocalifyMap

abbrev pub disk : Disk
disk = record {
  State = Files;
  create_dir_all = λ f. (f, ok tt);
  open_temp = λ f. (record f { temp = none }, ok tt);
  to_writer_pretty = λ m f. (record f { temp = some m }, ok tt);
  write_newline = λ f. (f, ok tt);
  flush = λ f. (f, ok tt);
  sync_all = λ f. (f, ok tt);
  rename = λ f. (record { dump = f.temp; temp = none }, ok tt);
  write_lyrics = λ l f. f;
  saved = λ f. f.dump;
  staged = λ f. f.temp;
}

pub disk-IsAtomic : IsAtomic disk
disk-IsAtomic = record {
  create_dir_all-Quiet = λ f. (refl, refl);
  open_temp-saved = λ f. refl;
  to_writer_pretty-saved = λ m f. refl;
  to_writer_pretty-staged = λ m f e. refl;
  write_newline-Quiet = λ f. (refl, refl);
  flush-Quiet = λ f. (refl, refl);
  sync_all-Quiet = λ f. (refl, refl);
  renamed = λ f m staged. staged;
  write_lyrics-saved = λ l f. refl;
}

abbrev pub no_files : Files
no_files = record { dump = none; temp = none }

abbrev dirty_state : DumpState
dirty_state = record {
  entries = ("menu", ("7", "A") ∷ []) ∷ [];
  dirty = true;
  frames_since_flush = 3;
  diagnostics = zeroed;
  lyrics = [];
  lyrics_dirty = false;
}

abbrev pub clean_state : DumpState
clean_state = record {
  entries = [];
  dirty = false;
  frames_since_flush = 0;
  diagnostics = zeroed;
  lyrics = [];
  lyrics_dirty = false;
}

abbrev uses : List DumpUse
uses = dictionary (("menu", ("7", "A") ∷ []) ∷ []) ∷ update [] [] ∷ flush_now ∷ []

perform_all-IsSaved_example :
    IsSaved
      (disk.saved (perform_all disk disk-IsAtomic texts uses (no_files, clean_state)).0)
      (perform_all disk disk-IsAtomic texts uses (no_files, clean_state)).1
unfolding text_in
perform_all-IsSaved_example =
    perform_all-IsSaved disk disk-IsAtomic texts uses (no_files, clean_state) (λ clean c i. refl)

abbrev two_frames : List (List LyricsRecord)
two_frames = (record { len = 1; source = 0; text = 65 ∷ [] } ∷ []) ∷ [] ∷ []

lyrics_frames_wait_example :
    ((lyrics_frames disk texts two_frames no_files clean_state).0 ≡ no_files)
    × ((lyrics_frames disk texts two_frames no_files clean_state).1.dirty ≡ false)
lyrics_frames_wait_example = lyrics_frames_wait disk texts two_frames no_files clean_state refl

-- Two texts and a null one, on a queue of one place.
abbrev three_calls : List (LyricsHook × ℕ)
three_calls = (update_lyrics, 4) ∷ (tmp_text, 0) ∷ (tmp_text, 5) ∷ []

abbrev heard_sites : HeardSites (list_queue 1)
heard_sites = record { string_utf16 = units_at; lyrics = []; diagnostics = zeroed }

hear_all-Keeps_example :
    Keeps
      (list_queue 1)
      (records_of units_at three_calls)
      3
      heard_sites
      (hear_all (list_queue 1) three_calls heard_sites)
hear_all-Keeps_example = hear_all-Keeps (list_queue 1) three_calls heard_sites (omega arith)
