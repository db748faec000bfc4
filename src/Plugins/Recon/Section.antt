-- ===== src/Plugins/Recon/Section.antt =====
-- Where the code section comes from.
use shiny_song_tools.Prelude.{
  ℕ, zero, suc, ◌+◌, ◌*◌, ◌%◌, ◌^◌, ◌≤◌, ◌<◌, ◌==◌, ◌≡◌, ◌≢◌, refl, arith, true, not, ◌||◌, if-elim,
  Option, none, some, ltb,
}
use shiny_song_tools.Plugins.Recon.{
  Image, starts_with, text_segment, text_section_name, mh_magic_64, lc_segment_64, find_section,
  is_text, in_command, walk_commands, macho_text_section,
}

module _ (image : Image) (header : ℕ) where
  -- The offset of a command, counted from the first by the sizes of those before it, with its first words
  -- and all of it before the end of the commands.
  pub data Command (end : ℕ) : ℕ → Type 0 where
    first : Command end 32
    next :
        (offset offset' : ℕ)
        → Command end offset
        → image.read_u32 (header + offset + 4) ≢ 0
        → offset' ≡ offset + image.read_u32 (header + offset + 4)
        → offset' ≤ end
        → Command end offset'

  -- The section with this address and size is one of the segment's, by its name; `a` is where it stands.
  abbrev pub IsSection : ℕ → ℕ → ℕ → ℕ → ℕ × ℕ → Type 0
  IsSection base count s a (va, size) =
      (s < count)
      × (a ≡ base + s * 80)
      × (starts_with image a text_section_name ≡ true)
      × (va ≡ (header + image.read_u64 (a + 32)) % 2 ^ 64)
      × (size ≡ image.read_u64 (a + 40))

  abbrev SectionEnd : ℕ → ℕ → Option (ℕ × ℕ) → Type 0
  SectionEnd base count none = Unit
  SectionEnd base count (some x) = (s : ℕ) × (a : ℕ) × IsSection base count s a x

  SectionEnd-later :
      (base count : ℕ) (o : Option (ℕ × ℕ))
      → SectionEnd (base + 80) count o
      → SectionEnd base (suc count) o
  SectionEnd-later base count none h = tt
  SectionEnd-later base count (some x) (s, a, (within, place, name, va, size)) =
      (suc s, a, (omega (arith, within), omega (arith, place), name, va, size))

  find_section-SectionEnd :
      (base count : ℕ) → SectionEnd base count (find_section image header base count)
  unfolding find_section
  find_section-SectionEnd base zero = tt
  find_section-SectionEnd base (suc count) =
      if-elim (SectionEnd base (suc count)) (starts_with image base text_section_name) _ _
        (λ here. (0, base, (omega arith, omega arith, here, refl, refl)))
        (λ elsewhere. SectionEnd-later base count _ (find_section-SectionEnd (base + 80) count))

  -- A section of the code segment, whose command stands at `offset`.
  abbrev pub IsFound : ℕ → ℕ → ℕ × ℕ → Type 0
  IsFound end offset x =
      Command end offset
      × (offset + 8 ≤ end)
      × (image.read_u32 (header + offset) ≡ lc_segment_64)
      × (starts_with image (header + offset + 8) text_segment ≡ true)
      × ((s : ℕ) × (a : ℕ) × IsSection (header + offset + 72)
            (image.read_u32 (header + offset + 64)) s a x)

  abbrev Found : ℕ → Option (ℕ × ℕ) → Type 0
  Found end none = Unit
  Found end (some x) = (offset : ℕ) × IsFound end offset x

  section-Found :
      (end offset : ℕ) (o : Option (ℕ × ℕ))
      → Command end offset
      → offset + 8 ≤ end
      → is_text image header offset ≡ true
      → SectionEnd (header + offset + 72) (image.read_u32 (header + offset + 64)) o
      → Found end o
  unfolding is_text
  section-Found end offset none c fits text h = tt
  section-Found end offset (some x) c fits text h =
      (offset, (c, fits, ground (arith, text), ground (arith, text), h))

  in_command-Found :
      (end offset : ℕ)
      → Command end offset
      → offset + 8 ≤ end
      → Found end (in_command image header offset)
  unfolding in_command
  in_command-Found end offset c fits =
      if-elim (Found end) (is_text image header offset) _ _
        (λ text.
          section-Found end offset _ c fits text (
            find_section-SectionEnd (header + offset + 72) (image.read_u32 (header + offset + 64))))
        (λ other. tt)

  found_first :
      (end : ℕ) (o later : Option (ℕ × ℕ))
      → Found end o
      → Found end later
      → Found end (elim o [ some found ↦ some found | none ↦ later ])
  found_first end none later h l = l
  found_first end (some x) later h l = h

  walk_commands-Found :
      (end offset left : ℕ)
      → Command end offset
      → Found end (walk_commands image header end offset left)
  unfolding walk_commands
  walk_commands-Found end offset zero c = tt
  walk_commands-Found end offset (suc left) c =
      let cmdsize = image.read_u32 (header + offset + 4) in
      if-elim (Found end) (ltb end (offset + 8)) _ _ (λ short. tt)
        (λ room.
          if-elim (Found end) ((cmdsize == 0) || ltb end (offset + cmdsize)) _ _ (λ broken. tt)
            (λ whole.
              found_first end (in_command image header offset)
                (walk_commands image header end (offset + cmdsize) left)
                (in_command-Found end offset c (ground (arith, room)))
                (walk_commands-Found end (offset + cmdsize) left (
                  next offset (offset + cmdsize) c (ground (arith, whole)) refl
                    (ground (arith, whole))))))

  abbrev pub TextSection : Option (ℕ × ℕ) → Type 0
  TextSection none = Unit
  TextSection (some x) =
      (image.read_u32 header ≡ mh_magic_64)
      × ((offset : ℕ) × IsFound (32 + image.read_u32 (header + 20)) offset x)

  -- A code section that is found is one of the image's: the header has the magic number, the section is one
  -- of those of the segment `__TEXT`, whose command is reached from the first by their sizes and lies
  -- within the commands, and it has the name `__text`.
  macho_text_section-TextSection : TextSection (macho_text_section image header)
  unfolding macho_text_section
  macho_text_section-TextSection =
      if-elim TextSection (not (image.read_u32 header == mh_magic_64)) _ _ (λ other. tt)
        (λ magic. text_of (ground (arith, magic)) _ (
          walk_commands-Found (32 + image.read_u32 (header + 20)) 32 (image.read_u32 (header + 16))
            first))
    where
      text_of :
          image.read_u32 header ≡ mh_magic_64
          → (o : Option (ℕ × ℕ)) → Found (32 + image.read_u32 (header + 20)) o
          → TextSection o
      text_of magic none h = tt
      text_of magic (some x) h = (magic, h)
