-- ===== src/Plugins/Dump/Records.antt =====
-- crates/translation_dump/src/lib.rs: what a captured record says again.
use shiny_song_tools.Prelude.{
  ℕ, zero, suc, ◌-◌, ◌%◌, ◌^◌, ◌≤◌, ◌<◌, ◌≡◌, refl, ◌∙◌, ap, ◌||◌, Option, none, some, List, [],
  ◌∷◌, ◌++◌, arith, length, take, length-append, ltb, ◌>>?◌, Bool-cases, inl, inr, if-elim, ◌⊎◌,
}
use shiny_song_tools.Plugins.Dump.{
  Texts, DumpRecord, LyricsRecord, zeros, buffer, capture, capture_lyrics, decode, decode_lyrics,
  unwrap_or_default, category_utf16_capacity, text_utf16_capacity,
}

take-append : (xs ys : List ℕ) → take (length xs) (xs ++ ys) ≡ xs
take-append [] ys = refl
take-append (x ∷ xs) ys = ap (λ us. x ∷ us) (take-append xs ys)

length-zeros : (n : ℕ) → length (zeros n) ≡ n
length-zeros zero = refl
length-zeros (suc n) = ap suc (length-zeros n)

-- A buffer that the units fit into has its declared size, and gives the units back.
buffer-IsWhole :
    (capacity : ℕ) (units : List ℕ)
    → length units ≤ capacity
    → capacity < 2 ^ 16
    → (length (buffer capacity units) ≡ capacity)
      × (take (length units % 2 ^ 16) (buffer capacity units) ≡ units)
buffer-IsWhole capacity units fits small =
    let e : length units % 2 ^ 16 ≡ length units = omega (arith, fits, small) in
    (
      length-append units (zeros (capacity - length units))
          ∙ omega (arith, length-zeros (capacity - length units), fits),
      rw e (take-append units (zeros (capacity - length units))),
    )

-- What a capture gives, for units that it decodes again.
abbrev pub Captures : Texts → List ℕ → ℕ → List ℕ → Option DumpRecord → Type 0
Captures texts category id text none =
    (category_utf16_capacity < length category) ⊎ (text_utf16_capacity < length text)
Captures texts category id text (some r) =
    (length r.category ≡ category_utf16_capacity)
    × (length r.text ≡ text_utf16_capacity)
    × (decode texts r ≡ (
        texts.from_utf16 category >>? λ c. texts.from_utf16 text >>? λ t.
        some (record { category = c; id = texts.to_string id; text = t })))

-- A capture refuses exactly what does not fit into its buffers, and a record that it makes fills them
-- and decodes to the captured category, id and text, each as a whole: nothing is cut off.
pub capture-Captures :
    (texts : Texts) (category : List ℕ) (id : ℕ) (text : List ℕ)
    → Captures texts category id text (capture category id text)
unfolding capture decode
capture-Captures texts category id text =
    if-elim (Captures texts category id text)
      (ltb category_utf16_capacity (length category) || ltb text_utf16_capacity (length text)) _ _
      (λ t. elim (Bool-cases (ltb category_utf16_capacity (length category))) [
        | inl a ↦ inl (ground (arith, a))
        | inr a ↦ inr (ground (arith, a, t))
      ])
      (λ t.
        let (l1, t1) =
          buffer-IsWhole category_utf16_capacity category (ground (arith, t)) (omega arith) in
        let (l2, t2) = buffer-IsWhole text_utf16_capacity text (ground (arith, t)) (omega arith) in
        (l1, l2, rw (t1, t2) refl))

-- The same of a lyrics record.
abbrev CapturesLyrics : Texts → List ℕ → ℕ → Option LyricsRecord → Type 0
CapturesLyrics texts text source none = text_utf16_capacity < length text
CapturesLyrics texts text source (some r) =
    (length r.text ≡ text_utf16_capacity)
    × (decode_lyrics texts r ≡ (source, unwrap_or_default (texts.from_utf16 text)))

-- A lyrics capture refuses exactly what does not fit, and what it captures is decoded as a whole, with
-- its source; a text that is not UTF-16 is decoded as the empty one.
capture_lyrics-CapturesLyrics :
    (texts : Texts) (text : List ℕ) (source : ℕ)
    → CapturesLyrics texts text source (capture_lyrics text source)
unfolding capture_lyrics decode_lyrics
capture_lyrics-CapturesLyrics texts text source =
    if-elim (CapturesLyrics texts text source) (ltb text_utf16_capacity (length text)) _ _
      (λ t. ground (arith, t))
      (λ t.
        let (l, e) = buffer-IsWhole text_utf16_capacity text (ground (arith, t)) (omega arith) in
        (l, rw e refl))
