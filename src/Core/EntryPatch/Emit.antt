-- ===== src/Core/EntryPatch/Emit.antt =====
-- crates/core/src/entry_patch.rs: the code of the trampoline, in words.
use Prim.Native.Nat.{bit_and, bit_or, bit_xor}
use shiny_song_tools.Prelude.{
  ℕ, zero, suc, ◌+◌, ◌-◌, ◌*◌, ◌/◌, ◌%◌, ◌^◌, Bool, true, false, ltb, if◌then◌else◌, Result, ok,
  err, ◌>>=◌, Option, none, some, List, [], ◌∷◌, ◌++◌, length, get_elem?,
}
use shiny_song_tools.Core.Error.{HookError, entry_patch_unsupported}
use shiny_song_tools.Core.EntryPatch.{
  Plan, verbatim, b, bl, b_cond, cbz_cbnz, tbz_tbnz, Window, contains, plan_op, plan_size,
  target_index, br_x16, ldr_x16_literal_8,
}

abbrev pub nop : ℕ
nop = 0xD503201F

unfoldable pub b_enc : ℕ → ℕ → ℕ
b_enc top6 imm26_words = bit_or (top6 * 2 ^ 26 % 2 ^ 32) (bit_and imm26_words 0x03FFFFFF)

-- The three words of `mov_imm48`.
unfoldable pub mov_imm48 : ℕ → ℕ → List ℕ
mov_imm48 rd value =
    bit_or (bit_or 0xD2800000 (value % 2 ^ 16 * 2 ^ 5)) rd
    ∷ bit_or (bit_or 0xF2A00000 (value / 2 ^ 16 % 2 ^ 16 * 2 ^ 5)) rd
    ∷ bit_or (bit_or 0xF2C00000 (value / 2 ^ 32 % 2 ^ 16 * 2 ^ 5)) rd
    ∷ []

unfoldable pub far_jump_seq : ℕ → List ℕ
far_jump_seq target = mov_imm48 16 target ++ br_x16 ∷ []

-- `ops_pos[i]`; an index out of range is a panic of the code, and 0 here.
abbrev pub pos_at : List ℕ → ℕ → ℕ
pos_at ops_pos i = elim (get_elem? ops_pos i) [ some p ↦ p | none ↦ 0 ]

-- `word_delta as u32`.
abbrev pub word_delta : List ℕ → ℕ → ℕ → ℕ
word_delta ops_pos pos i = (pos_at ops_pos i + 2 ^ 32 - pos) % 2 ^ 32

-- What `emit_op` appends to the buffer.
unfoldable pub emit_op : Plan → ℕ → ℕ → List ℕ → Window → ℕ → List ℕ
emit_op (verbatim op) index pos ops_pos w base = op ∷ []
emit_op (b target) index pos ops_pos w base =
    if contains w target
    then b_enc 0b000101 (word_delta ops_pos pos (target_index target w)) ∷ []
    else far_jump_seq target
emit_op (bl target) index pos ops_pos w base =
    if contains w target
    then b_enc 0b100101 (word_delta ops_pos pos (target_index target w)) ∷ []
    else mov_imm48 16 target
      ++ mov_imm48 30 (
          if ltb (index + 1) (length ops_pos) then base + pos_at ops_pos (index + 1) * 4 else w.end)
      ++ br_x16 ∷ []
emit_op (b_cond cond inverted target) index pos ops_pos w base =
    if contains w target
    then bit_or
        (bit_or 0x54000000
          (bit_and (word_delta ops_pos pos (target_index target w)) 0x7FFFF * 2 ^ 5))
        (if inverted then bit_xor cond 1 else cond)
      ∷ []
    else bit_or (bit_or 0x54000000 (5 * 2 ^ 5)) (if inverted then cond else bit_xor cond 1)
      ∷ far_jump_seq target
emit_op (cbz_cbnz op rt target) index pos ops_pos w base =
    if contains w target
    then bit_or
        (bit_or (bit_and op 0xFF000000)
          (bit_and (word_delta ops_pos pos (target_index target w)) 0x7FFFF * 2 ^ 5))
        rt
      ∷ []
    else bit_or (bit_or (bit_and (bit_xor op 0x01000000) 0xFF00001F) (5 * 2 ^ 5)) rt
      ∷ far_jump_seq target
emit_op (tbz_tbnz op rt target) index pos ops_pos w base =
    if contains w target
    then bit_or
        (bit_or (bit_and op 0xFFFF8000)
          (bit_and (word_delta ops_pos pos (target_index target w)) 0x3FFFF * 2 ^ 5))
        rt
      ∷ []
    else bit_or (bit_or (bit_and (bit_xor op 0x01000000) 0xFFFF001F) (5 * 2 ^ 5)) rt
      ∷ far_jump_seq target

-- The plans of the displaced words, from an address on; the first refusal is the result.
unfoldable pub plans : List ℕ → ℕ → Result HookError (List Plan)
plans [] pc = ok []
plans (op ∷ ops) pc = plan_op op pc >>= λ p. plans ops (pc + 4) >>= λ ps. ok (p ∷ ps)

-- `ops_pos`, from a word offset on.
unfoldable pub positions : List Plan → Window → ℕ → List ℕ
positions [] w acc = []
positions (p ∷ ps) w acc = acc ∷ positions ps w (acc + plan_size p w)

-- `while buf.len() < pos`, with the difference as its bound.
unfoldable pub pad : ℕ → List ℕ
pad zero = []
pad (suc n) = nop ∷ pad n

-- The loop over the plans: each is padded to its position.
unfoldable pub emit_all : List Plan → ℕ → List ℕ → Window → ℕ → List ℕ → List ℕ
emit_all [] index ops_pos w base buf = buf
emit_all (p ∷ ps) index ops_pos w base buf =
    let pos = pos_at ops_pos index in
    emit_all ps (index + 1) ops_pos w base
      ((buf ++ pad (pos - length buf)) ++ emit_op p index pos ops_pos w base)

abbrev pub window_of : ℕ → List ℕ → Window
window_of entry ops = record { start = entry; end = entry + length ops * 4 }

-- The jump back, after the code: `ldr x16, #8`, `br x16` and the address as two little-endian words.
unfoldable pub tail_of : ℕ → List ℕ
tail_of address = ldr_x16_literal_8 ∷ br_x16 ∷ address % 2 ^ 32 ∷ address / 2 ^ 32 ∷ []

-- `mem` is the page that the system maps, if it does, and `executable` says whether it lets the page
-- be run in the end. The result is the address of the trampoline and its words.
unfoldable pub build_trampoline : Option ℕ → Bool → ℕ → List ℕ → Result HookError (ℕ × List ℕ)
build_trampoline mem executable entry ops = plans ops entry >>= λ ps. place ps mem executable
  where
    place : List Plan → Option ℕ → Bool → Result HookError (ℕ × List ℕ)
    place ps none can = err (entry_patch_unsupported "trampoline mmap failed")
    place ps (some base) false = err (entry_patch_unsupported "trampoline mprotect failed")
    place ps (some base) true =
        let w = window_of entry ops in
        ok (base, emit_all ps 0 (positions ps w 0) w base [] ++ tail_of (entry + length ops * 4))
