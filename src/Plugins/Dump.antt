-- ===== src/Plugins/Dump.antt =====
-- crates/translation_dump/src/lib.rs: the records that the callbacks relay to the main thread, and the
-- counters. UTF-16 decoding, the decimal form of an id and `trim` are the standard library's.
pub mod Maps
pub mod Records
pub mod Capture
pub mod Heard
pub mod Files
pub mod Batch
pub mod Merged
pub mod Dictionary
pub mod State
pub mod Atomic
pub mod Saved
pub mod Lyrics
pub mod Walk
pub mod Tests
use Prim.Native.String.{String}
use shiny_song_tools.Prelude.{
  ℕ, zero, suc, ◌+◌, ◌-◌, ◌*◌, ◌%◌, ◌^◌, Bool, true, false, Option, none, some, List, [], ◌∷◌, ◌++◌,
  leb, if◌then◌else◌, length, take, ◌>>?◌, ◌||◌, ltb,
}

abbrev pub category_utf16_capacity : ℕ
category_utf16_capacity = 128

abbrev pub text_utf16_capacity : ℕ
text_utf16_capacity = 2048

abbrev pub flush_interval_frames : ℕ
flush_interval_frames = 60

-- An id is its two's complement.
pub record Texts : Type 0 where
  pub from_utf16 : List ℕ → Option String
  pub to_string : ℕ → String
  pub u32_to_string : ℕ → String
  pub is_blank : String → Bool

-- A capture buffer is a list of its code units.
pub record DumpRecord : Type 0 where
  pub category_len : ℕ
  pub text_len : ℕ
  pub id : ℕ
  pub category : List ℕ
  pub text : List ℕ

pub record LyricsRecord : Type 0 where
  pub len : ℕ
  pub source : ℕ
  pub text : List ℕ

abbrev pub zeros : ℕ → List ℕ
zeros zero = []
zeros (suc n) = 0 ∷ zeros n

-- A zeroed buffer of the given size with the units copied to its front.
abbrev pub buffer : ℕ → List ℕ → List ℕ
buffer capacity units = units ++ zeros (capacity - length units)

unfoldable pub capture : List ℕ → ℕ → List ℕ → Option DumpRecord
capture category id text =
    if ltb category_utf16_capacity (length category) || ltb text_utf16_capacity (length text)
    then none
    else some (record {
      category_len = length category % 2 ^ 16;
      text_len = length text % 2 ^ 16;
      id = id;
      category = buffer category_utf16_capacity category;
      text = buffer text_utf16_capacity text;
    })

unfoldable pub capture_lyrics : List ℕ → ℕ → Option LyricsRecord
capture_lyrics text source =
    if ltb text_utf16_capacity (length text)
    then none
    else some (record {
      len = length text % 2 ^ 16;
      source = source;
      text = buffer text_utf16_capacity text;
    })

-- What a record says: category, id and text.
pub record Entry : Type 0 where
  pub category : String
  pub id : String
  pub text : String

unfoldable pub decode : Texts → DumpRecord → Option Entry
decode texts r = texts.from_utf16 (take r.category_len r.category) >>? λ category.
    texts.from_utf16 (take r.text_len r.text) >>? λ text.
    some (record { category = category; id = texts.to_string r.id; text = text })

abbrev pub unwrap_or_default : Option String → String
unwrap_or_default none = ""
unwrap_or_default (some s) = s

unfoldable pub decode_lyrics : Texts → LyricsRecord → ℕ × String
decode_lyrics texts r = (r.source, unwrap_or_default (texts.from_utf16 (take r.len r.text)))

-- The counters are 64-bit and wrap around.
pub record DumpDiagnostics : Type 0 where
  pub get_bytes_seen : ℕ
  pub get_bytes_dumps : ℕ
  pub lyrics_seen : ℕ
  pub lyrics_kept : ℕ
  pub mv_lyrics_kept : ℕ
  pub timeline_lyrics_kept : ℕ
  pub tmp_texts_kept : ℕ
  pub hook_hits : ℕ
  pub get_text_hits : ℕ
  pub enqueued : ℕ
  pub null_strings : ℕ
  pub oversized : ℕ
  pub queue_full : ℕ
  pub invalid_utf16 : ℕ
  pub merged : ℕ
  pub flushes : ℕ

-- `fetch_add(1)`.
abbrev pub fetch_add : ℕ → ℕ
fetch_add n = (n + 1) % 2 ^ 64
