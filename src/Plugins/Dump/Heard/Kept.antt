-- ===== src/Plugins/Dump/Heard/Kept.antt =====
-- What the queue of the shown texts holds.
use shiny_song_tools.Prelude.{
  ℕ, suc, ◌+◌, ◌%◌, ◌^◌, ◌≤◌, ◌≡◌, refl, sym, ap, subst, ◌∙◌, Option, none, some, List, [], ◌∷◌,
  ◌++◌, arith, length, length-append, take, take-length, take-append_full, take-append_take,
  length-take, append-[], append_assoc, ltb, if-elim,
}
use shiny_song_tools.Core.Mailbox.{SendOutcome, accepted, replaced, full, busy, ArrayQueue}
use shiny_song_tools.Core.Mailbox.BoundedQueue.{try_send}
use shiny_song_tools.Plugins.Dump.{LyricsRecord, capture_lyrics, DumpDiagnostics, fetch_add}
use shiny_song_tools.Plugins.Dump.Heard.{
  HeardSites, LyricsHook, source_of, send_lyrics, count_lyrics_outcome, hear_units, hear,
  update_lyrics_replacement, set_lyric_replacement, tmp_text_replacement, replacement, hear_all,
  update_lyrics, set_lyric, tmp_text,
}

abbrev record_of : Option LyricsRecord → List LyricsRecord
record_of none = []
record_of (some r) = r ∷ []

abbrev record_of_units : LyricsHook → Option (List ℕ) → List LyricsRecord
record_of_units hook none = []
record_of_units hook (some units) = record_of (capture_lyrics units (source_of hook))

-- The records of the texts that are not null and not too long, in their order.
abbrev pub records_of : (ℕ → Option (List ℕ)) → List (LyricsHook × ℕ) → List LyricsRecord
records_of string_utf16 [] = []
records_of string_utf16 ((hook, text) ∷ cs) =
    record_of_units hook (string_utf16 text) ++ records_of string_utf16 cs

module _ (queue : ArrayQueue LyricsRecord) where
  -- From `sites` to `sites'`, `rs` were offered to the queue, of `calls` calls.
  pub record Keeps (rs : List LyricsRecord) (calls : ℕ) (sites sites' : HeardSites queue)
      : Type 0 where
    pub reads_alike : sites'.string_utf16 ≡ sites.string_utf16
    pub first_kept :
        queue.elements sites'.lyrics ≡ take queue.capacity (queue.elements sites.lyrics ++ rs)
    pub all_counted :
        (sites'.diagnostics.lyrics_kept + sites'.diagnostics.queue_full) % 2 ^ 64
        ≡ (sites.diagnostics.lyrics_kept + sites.diagnostics.queue_full + length rs) % 2 ^ 64
    pub calls_counted :
        sites'.diagnostics.lyrics_seen % 2 ^ 64 ≡ (sites.diagnostics.lyrics_seen + calls) % 2 ^ 64

  pushed-take :
      (r : LyricsRecord) (q : queue.State)
      → length (queue.elements q) ≤ queue.capacity
      → queue.elements (queue.push q r).0 ≡ take queue.capacity (queue.elements q ++ r ∷ [])
  pushed-take r q fits =
      let es = queue.elements q in
      let n = length-append es (r ∷ []) in
      (queue.pushed q r).0
      ∙ if-elim (λ us. us ≡ take queue.capacity (es ++ r ∷ [])) (ltb (length es) queue.capacity) _ _
          (λ t. sym (take-length queue.capacity (es ++ r ∷ []) (ground (arith, n, t))))
          (λ t. sym (
            take-append_full queue.capacity es (r ∷ []) (ground (arith, t))
            ∙ take-length queue.capacity es fits))

  -- An offer is counted once, and is no call.
  abbrev Offer : DumpDiagnostics → DumpDiagnostics → Type 0
  Offer d d' =
      ((d'.lyrics_kept + d'.queue_full) % 2 ^ 64 ≡ (d.lyrics_kept + d.queue_full + 1) % 2 ^ 64)
      × (d'.lyrics_seen ≡ d.lyrics_seen)

  count_lyrics_outcome-Offer :
      (o : SendOutcome) (d : DumpDiagnostics) → Offer d (count_lyrics_outcome queue o d)
  unfolding count_lyrics_outcome
  count_lyrics_outcome-Offer accepted d = (omega arith, refl)
  count_lyrics_outcome-Offer replaced d = (omega arith, refl)
  count_lyrics_outcome-Offer full d = (omega arith, refl)
  count_lyrics_outcome-Offer busy d = (omega arith, refl)

  Keeps-refl :
      (sites : HeardSites queue)
      → length (queue.elements sites.lyrics) ≤ queue.capacity
      → Keeps [] 0 sites sites
  Keeps-refl sites fits =
      let es = queue.elements sites.lyrics in
      record {
        reads_alike = refl;
        first_kept =
            sym (ap (take queue.capacity) (append-[] es) ∙ take-length queue.capacity es fits);
        all_counted = omega arith;
        calls_counted = omega arith;
      }

  send_lyrics-Keeps :
      (r : Option LyricsRecord) (sites : HeardSites queue)
      → length (queue.elements sites.lyrics) ≤ queue.capacity
      → Keeps (record_of r) 0 sites (send_lyrics queue r sites)
  unfolding send_lyrics try_send
  send_lyrics-Keeps none sites fits = Keeps-refl sites fits
  send_lyrics-Keeps (some r) sites fits =
      let (counted, same) =
        count_lyrics_outcome-Offer (try_send queue r sites.lyrics).1 sites.diagnostics in
      record {
        reads_alike = refl;
        first_kept = pushed-take r sites.lyrics fits;
        all_counted = counted;
        calls_counted = ground (arith, same);
      }

  hear_units-Keeps :
      (hook : LyricsHook) (units : Option (List ℕ)) (sites : HeardSites queue)
      → length (queue.elements sites.lyrics) ≤ queue.capacity
      → Keeps (record_of_units hook units) 0 sites (hear_units queue hook units sites)
  unfolding hear_units
  hear_units-Keeps hook none sites fits = Keeps-refl sites fits
  hear_units-Keeps hook (some units) sites fits =
      send_lyrics-Keeps (capture_lyrics units (source_of hook)) sites fits

  hear-Keeps :
      (hook : LyricsHook) (text : ℕ) (sites : HeardSites queue)
      → length (queue.elements sites.lyrics) ≤ queue.capacity
      → Keeps (record_of_units hook (sites.string_utf16 text)) 1 sites (hear queue hook text sites)
  unfolding hear
  hear-Keeps hook text sites fits =
      let k =
        hear_units-Keeps hook (sites.string_utf16 text)
          (record sites {
            diagnostics = record sites.diagnostics {
              lyrics_seen = fetch_add sites.diagnostics.lyrics_seen;
            };
          })
          fits in
      record {
        reads_alike = k.reads_alike;
        first_kept = k.first_kept;
        all_counted = k.all_counted;
        calls_counted = omega (arith, k.calls_counted);
      }

  replacement-Keeps :
      (hook : LyricsHook) (text : ℕ) (sites : HeardSites queue)
      → length (queue.elements sites.lyrics) ≤ queue.capacity
      → Keeps
          (record_of_units hook (sites.string_utf16 text))
          1
          sites
          (replacement queue hook text sites)
  unfolding replacement update_lyrics_replacement set_lyric_replacement tmp_text_replacement
  replacement-Keeps update_lyrics text sites fits = hear-Keeps update_lyrics text sites fits
  replacement-Keeps set_lyric text sites fits = hear-Keeps set_lyric text sites fits
  replacement-Keeps tmp_text text sites fits = hear-Keeps tmp_text text sites fits

  Keeps-Keeps :
      (rs ts : List LyricsRecord) (n : ℕ) (a b c : HeardSites queue)
      → Keeps rs 1 a b
      → Keeps ts n b c
      → Keeps (rs ++ ts) (suc n) a c
  Keeps-Keeps rs ts n a b c k l =
      let es = queue.elements a.lyrics in
      record {
        reads_alike = l.reads_alike ∙ k.reads_alike;
        first_kept =
            l.first_kept
            ∙ ap (λ us. take queue.capacity (us ++ ts)) k.first_kept
            ∙ take-append_take queue.capacity (es ++ rs) ts
            ∙ ap (take queue.capacity) (append_assoc es rs ts);
        all_counted = omega (arith, k.all_counted, l.all_counted, length-append rs ts);
        calls_counted = omega (arith, k.calls_counted, l.calls_counted);
      }

  -- Over any calls of the three hooks on a queue within its capacity: the queue holds what it held and
  -- then, in the order of the calls, the records of the texts that are not null and not too long, all
  -- of it cut at the capacity; the kept and the refused together are as many as these records, and the
  -- seen as many as the calls, as 64-bit numbers.
  pub hear_all-Keeps :
      (cs : List (LyricsHook × ℕ)) (sites : HeardSites queue)
      → length (queue.elements sites.lyrics) ≤ queue.capacity
      → Keeps (records_of sites.string_utf16 cs) (length cs) sites (hear_all queue cs sites)
  unfolding hear_all
  hear_all-Keeps [] sites fits = Keeps-refl sites fits
  hear_all-Keeps ((hook, text) ∷ cs) sites fits =
      let sites' = replacement queue hook text sites in
      let k = replacement-Keeps hook text sites fits in
      let rs = record_of_units hook (sites.string_utf16 text) in
      let short : length (queue.elements sites'.lyrics) ≤ queue.capacity =
        rw k.first_kept (length-take queue.capacity (queue.elements sites.lyrics ++ rs)) in
      let rest : Keeps (records_of sites.string_utf16 cs) (length cs) sites'
          (hear_all queue cs sites') =
        subst (λ read. Keeps (records_of read cs) (length cs) sites' (hear_all queue cs sites'))
          k.reads_alike (hear_all-Keeps cs sites' short) in
      Keeps-Keeps rs (records_of sites.string_utf16 cs) (length cs) sites sites'
        (hear_all queue cs sites') k rest
