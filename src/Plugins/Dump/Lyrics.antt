-- ===== src/Plugins/Dump/Lyrics.antt =====
-- crates/translation_dump/src/lib.rs: when the lyrics get to the disk.
use Prim.Native.String.{String}
use shiny_song_tools.Prelude.{◌≡◌, refl, ◌∙◌, false, List, [], ◌∷◌, arith, if-elim, ℕ}
use shiny_song_tools.Plugins.Dump.{Texts, LyricsRecord, decode_lyrics}
use shiny_song_tools.Plugins.Dump.State.{
  Disk, DumpState, merge_records, keep_lyrics, merge_lyrics, flush_if_due, dump_update,
}

module _ (disk : Disk) (texts : Texts) where
  -- Frames in which lyrics arrive but no localization text does.
  unfoldable pub lyrics_frames :
      List (List LyricsRecord) → disk.State → DumpState → disk.State × DumpState
  lyrics_frames [] f s = (f, s)
  lyrics_frames (l ∷ ls) f s =
      let (f', s', r) = dump_update disk texts [] l f s in lyrics_frames ls f' s'

  keep_lyrics-clean : (l : ℕ × String) (s : DumpState) → (keep_lyrics texts l s).dirty ≡ s.dirty
  unfolding keep_lyrics
  keep_lyrics-clean (source, text) s =
      if-elim (λ (t : DumpState). t.dirty ≡ s.dirty) (texts.is_blank text) _ _ (λ t. refl)
        (λ t. refl)

  merge_lyrics-clean :
      (rs : List LyricsRecord) (s : DumpState) → (merge_lyrics texts rs s).dirty ≡ s.dirty
  unfolding merge_lyrics
  merge_lyrics-clean [] s = refl
  merge_lyrics-clean (r ∷ rs) s =
      merge_lyrics-clean rs (keep_lyrics texts (decode_lyrics texts r) s)
      ∙ keep_lyrics-clean (decode_lyrics texts r) s

  flush_if_due-clean :
      (f : disk.State) (s : DumpState)
      → s.dirty ≡ false
      → let (f', s', r) = flush_if_due disk f s in (f' ≡ f) × (s'.dirty ≡ false)
  unfolding flush_if_due
  flush_if_due-clean f s clean = ground (arith, clean)

  -- While the table of the localization texts is not dirty, no frame touches the disk, whatever lyrics
  -- it keeps and however many frames there are.
  pub lyrics_frames_wait :
      (ls : List (List LyricsRecord)) (f : disk.State) (s : DumpState)
      → s.dirty ≡ false
      → let (f', s') = lyrics_frames ls f s in (f' ≡ f) × (s'.dirty ≡ false)
  unfolding lyrics_frames dump_update merge_records
  lyrics_frames_wait [] f s clean = (refl, clean)
  lyrics_frames_wait (l ∷ ls) f s clean =
      let s1 = merge_lyrics texts l s in
      let (same, clean') = flush_if_due-clean f s1 (merge_lyrics-clean l s ∙ clean) in
      let (f', s', r) = flush_if_due disk f s1 in
      let (rest, clean'') = lyrics_frames_wait ls f' s' clean' in (rest ∙ same, clean'')
