-- ===== src/Plugins/Dump/Capture.antt =====
-- crates/translation_dump/src/lib.rs: `capture_text`, the handler of both localization hooks after their
-- call of the original.
use shiny_song_tools.Prelude.{ℕ, ◌+◌, ◌%◌, ◌^◌, ◌≡◌, Option, none, some, List, [], ◌∷◌, arith}
use shiny_song_tools.Core.Mailbox.{SendOutcome, accepted, replaced, full, busy, ArrayQueue}
use shiny_song_tools.Core.Mailbox.BoundedQueue.{try_send}
use shiny_song_tools.Plugins.Dump.{DumpRecord, capture, DumpDiagnostics, fetch_add}

-- The container of the hook sites, without what has no part in this handler. `string_utf16` reads a
-- managed string: `none` for a null one.
pub record DumpSites (queue : ArrayQueue DumpRecord) : Type 0 where
  pub string_utf16 : ℕ → Option (List ℕ)
  pub records : queue.State
  pub diagnostics : DumpDiagnostics
  pub instance : ℕ

-- The counter that a hook passes: `hook_hits` of GetTextOrNull, or `get_text_hits` of GetText.
pub data HitCounter : Type 0 where
  of_get_text_or_null of_get_text : HitCounter

-- A call of one of the hooks.
pub record Hit : Type 0 where
  pub hits : HitCounter
  pub this : ℕ
  pub category : ℕ
  pub id : ℕ
  pub value : ℕ

module _ (queue : ArrayQueue DumpRecord) where
  count_outcome : SendOutcome → DumpDiagnostics → DumpDiagnostics
  count_outcome accepted d = record d { enqueued = fetch_add d.enqueued }
  count_outcome full d = record d { queue_full = fetch_add d.queue_full }
  count_outcome replaced d = d
  count_outcome busy d = d

  sent : DumpSites queue → queue.State × SendOutcome → DumpSites queue
  unfolding count_outcome
  sent sites (q, outcome) = record sites {
    records = q;
    diagnostics = count_outcome outcome sites.diagnostics;
  }

  send_captured : Option DumpRecord → DumpSites queue → DumpSites queue
  unfolding sent try_send
  send_captured none sites = record sites {
    diagnostics = record sites.diagnostics { oversized = fetch_add sites.diagnostics.oversized };
  }
  send_captured (some r) sites = sent sites (try_send queue r sites.records)

  capture_units : Option (List ℕ) → ℕ → Option (List ℕ) → DumpSites queue → DumpSites queue
  unfolding send_captured capture
  capture_units (some category) id (some text) sites =
      send_captured (capture category id text) sites
  capture_units category id text sites = record sites {
    diagnostics = record sites.diagnostics {
      null_strings = fetch_add sites.diagnostics.null_strings;
    };
  }

  unfoldable pub count_hit : HitCounter → DumpDiagnostics → DumpDiagnostics
  count_hit of_get_text_or_null d = record d { hook_hits = fetch_add d.hook_hits }
  count_hit of_get_text d = record d { get_text_hits = fetch_add d.get_text_hits }

  -- `this` is the manager, `value` what the original returned; it is returned.
  unfoldable pub capture_text : HitCounter → ℕ → ℕ → ℕ → ℕ → DumpSites queue → DumpSites queue × ℕ
  unfolding capture_units count_hit
  capture_text hits this category id value sites =
      let seen = record sites { diagnostics = count_hit hits sites.diagnostics; instance = this } in
      (capture_units (sites.string_utf16 category) id (sites.string_utf16 value) seen, value)

  abbrev pub capture_all : List Hit → DumpSites queue → DumpSites queue
  capture_all [] sites = sites
  capture_all (h ∷ hs) sites =
      capture_all hs (capture_text h.hits h.this h.category h.id h.value sites).0

  abbrev fates : DumpDiagnostics → ℕ
  fates d = d.enqueued + d.queue_full + d.oversized + d.null_strings

  -- As many hits as were queued, refused by the queue, too long or without a string, as 64-bit numbers.
  abbrev pub IsCounted : DumpDiagnostics → Type 0
  IsCounted d = (d.hook_hits + d.get_text_hits) % 2 ^ 64 ≡ fates d % 2 ^ 64

  -- One hit more than was accounted for.
  abbrev IsAhead : DumpDiagnostics → Type 0
  IsAhead d = (d.hook_hits + d.get_text_hits) % 2 ^ 64 ≡ (fates d + 1) % 2 ^ 64

  count_hit-IsAhead :
      (hits : HitCounter) (d : DumpDiagnostics) → IsCounted d → IsAhead (count_hit hits d)
  unfolding count_hit
  count_hit-IsAhead of_get_text_or_null d h = omega (arith, h)
  count_hit-IsAhead of_get_text d h = omega (arith, h)

  send_captured-IsCounted :
      (r : Option DumpRecord) (sites : DumpSites queue)
      → IsAhead sites.diagnostics
      → IsCounted (send_captured r sites).diagnostics
  unfolding send_captured sent count_outcome try_send
  send_captured-IsCounted none sites h = omega (arith, h)
  send_captured-IsCounted (some r) sites h = ground (arith, h)

  capture_units-IsCounted :
      (category : Option (List ℕ)) (id : ℕ) (text : Option (List ℕ)) (sites : DumpSites queue)
      → IsAhead sites.diagnostics
      → IsCounted (capture_units category id text sites).diagnostics
  unfolding capture_units
  capture_units-IsCounted (some category) id (some text) sites h =
      send_captured-IsCounted (capture category id text) sites h
  capture_units-IsCounted (some category) id none sites h = omega (arith, h)
  capture_units-IsCounted none id (some text) sites h = omega (arith, h)
  capture_units-IsCounted none id none sites h = omega (arith, h)

  -- Over any calls of the two hooks: each hit is counted exactly once by what became of it, as 64-bit
  -- numbers. It was queued, or the queue was full, or it was too long for a record, or one of its
  -- strings was null.
  pub capture_all-IsCounted :
      (hs : List Hit) (sites : DumpSites queue)
      → IsCounted sites.diagnostics
      → IsCounted (capture_all hs sites).diagnostics
  unfolding capture_text
  capture_all-IsCounted [] sites h = h
  capture_all-IsCounted (t ∷ hs) sites h =
      let d = count_hit t.hits sites.diagnostics in
      capture_all-IsCounted hs (capture_text t.hits t.this t.category t.id t.value sites).0 (
        capture_units-IsCounted (sites.string_utf16 t.category) t.id (sites.string_utf16 t.value)
          (record sites { diagnostics = d; instance = t.this })
          (count_hit-IsAhead t.hits sites.diagnostics h))
