-- ===== src/Plugins/Recon.antt =====
-- crates/recon/src/lib.rs: the search for the callers of a function, and the code section of a mapped image.
-- Addresses do not reach their bound; an offset of a branch is its two's complement.
pub mod Callers
pub mod Section
pub mod Tests
use shiny_song_tools.Prelude.{
  ℕ, zero, suc, ◌+◌, ◌-◌, ◌*◌, ◌/◌, ◌%◌, ◌^◌, ◌==◌, Bool, true, false, not, ◌&&◌, ◌||◌, Option,
  none, some, List, [], ◌∷◌, ◌++◌, length, ltb, leb, if◌then◌else◌,
}

pub record CallersResponse : Type 0 where
  pub total : ℕ
  pub truncated : Bool
  pub caller_rvas : List ℕ

-- `word & 0xFC00_0000 == 0x9400_0000`, and the low 26 bits.
unfoldable pub is_bl : ℕ → Bool
is_bl word = word / 2 ^ 26 == 37

-- `text_va + offset + imm26 * 4`, where the immediate is signed, on 64 bits.
unfoldable pub branch_target : ℕ → ℕ → ℕ
branch_target pc word =
    let imm26 = word % 2 ^ 26 in
    if ltb imm26 (2 ^ 25)
    then (pc + imm26 * 4) % 2 ^ 64
    else (pc + 2 ^ 64 - (2 ^ 26 - imm26) * 4) % 2 ^ 64

unfoldable pub calls : ℕ → ℕ → ℕ → Bool
unfolding is_bl branch_target
calls target pc word = is_bl word && (branch_target pc word == target)

-- The body of the loop for a call.
unfoldable pub record_caller : ℕ → ℕ → CallersResponse → CallersResponse
record_caller limit rva r =
    if ltb (length r.caller_rvas) limit
    then record r { total = r.total + 1; caller_rvas = r.caller_rvas ++ rva ∷ [] }
    else record r { total = r.total + 1; truncated = true }

module _ (read_u32 : ℕ → ℕ) (base target_va limit : ℕ) where
  -- The loop over the words from `pc` on, with the number of those that are left.
  unfoldable pub scan : ℕ → ℕ → CallersResponse → CallersResponse
  unfolding calls record_caller
  scan pc zero r = r
  scan pc (suc left) r =
      scan (pc + 4) left
        (if calls target_va pc (read_u32 pc) then record_caller limit (pc - base) r else r)

  -- `callers_query_handler`, where the section is known.
  unfoldable pub callers_query : ℕ → ℕ → CallersResponse
  unfolding scan
  callers_query text_va text_size =
      scan text_va ((text_size + 3) / 4) (record { total = 0; truncated = false; caller_rvas = [] })

-- A mapped image: its bytes, its words and its double words.
pub record Image : Type 0 where
  pub read_u8 : ℕ → ℕ
  pub read_u32 : ℕ → ℕ
  pub read_u64 : ℕ → ℕ

unfoldable pub starts_with : Image → ℕ → List ℕ → Bool
starts_with image a [] = true
starts_with image a (b ∷ bs) = image.read_u8 a == b && starts_with image (a + 1) bs

-- `__TEXT` and `__text` with their terminators.
abbrev pub text_segment : List ℕ
text_segment = 95 ∷ 95 ∷ 84 ∷ 69 ∷ 88 ∷ 84 ∷ 0 ∷ []

abbrev pub text_section_name : List ℕ
text_section_name = 95 ∷ 95 ∷ 116 ∷ 101 ∷ 120 ∷ 116 ∷ 0 ∷ []

abbrev pub mh_magic_64 : ℕ
mh_magic_64 = 0xfeed_facf

abbrev pub lc_segment_64 : ℕ
lc_segment_64 = 0x19

module _ (image : Image) (header : ℕ) where
  -- The loop over the sections from `base` on, with the number of those that are left.
  unfoldable pub find_section : ℕ → ℕ → Option (ℕ × ℕ)
  unfolding starts_with
  find_section base zero = none
  find_section base (suc left) =
      let later = find_section (base + 80) left in
      if starts_with image base text_section_name
      then some ((header + image.read_u64 (base + 32)) % 2 ^ 64, image.read_u64 (base + 40))
      else later

  is_text : ℕ → Bool
  unfolding starts_with
  is_text offset =
      (image.read_u32 (header + offset) == lc_segment_64)
      && starts_with image (header + offset + 8) text_segment

  -- The sections of the command at `offset`, if it is the segment of the code.
  unfoldable pub in_command : ℕ → Option (ℕ × ℕ)
  unfolding is_text find_section
  in_command offset =
      if is_text offset
      then find_section (header + offset + 72) (image.read_u32 (header + offset + 64))
      else none

  -- The loop over the commands from `offset` on, with the number of those that are left.
  unfoldable pub walk_commands : ℕ → ℕ → ℕ → Option (ℕ × ℕ)
  unfolding in_command
  walk_commands end offset zero = none
  walk_commands end offset (suc left) =
      let cmdsize = image.read_u32 (header + offset + 4) in
      let later = walk_commands end (offset + cmdsize) left in
      if ltb end (offset + 8)
      then none
      else if (cmdsize == 0) || ltb end (offset + cmdsize)
      then none
      else elim (in_command offset) [ some found ↦ some found | none ↦ later ]

  unfoldable pub macho_text_section : Option (ℕ × ℕ)
  unfolding walk_commands
  macho_text_section =
      if not (image.read_u32 header == mh_magic_64)
      then none
      else walk_commands (32 + image.read_u32 (header + 20)) 32 (image.read_u32 (header + 16))
