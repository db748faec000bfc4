-- ===== src/Core/EntryPatch.antt =====
-- crates/core/src/entry_patch.rs: how the instructions that an entry patch displaces are to be moved.
-- A `u32` and a `usize` are natural numbers below 2 ^ 32 and 2 ^ 64, with the wrap-around written out; a
-- signed offset is its two's complement.
pub mod Emit
pub mod Layout
pub mod Memory
pub mod Tests
use Prim.Native.Nat.{bit_and}
use shiny_song_tools.Prelude.{
  ℕ, ◌+◌, ◌-◌, ◌*◌, ◌/◌, ◌%◌, ◌^◌, Bool, true, false, ◌&&◌, ◌||◌, ltb, leb, ◌==◌, if◌then◌else◌,
  Result, ok, err, List, [], ◌∷◌, ◌++◌,
}
use shiny_song_tools.Core.Error.{HookError, entry_patch_unsupported}

abbrev pub ldr_x16_literal_8 : ℕ
ldr_x16_literal_8 = 0x58000050

abbrev pub br_x16 : ℕ
br_x16 = 0xD61F0200

abbrev pub pacibsp : ℕ
pacibsp = 0xD503237F

-- `Plan`.
pub data Plan : Type 0 where
  verbatim : (op : ℕ) → Plan
  b bl : (target : ℕ) → Plan
  b_cond : (cond : ℕ) → (inverted : Bool) → (target : ℕ) → Plan
  cbz_cbnz tbz_tbnz : (op rt target : ℕ) → Plan

-- A `Range<usize>`.
pub record Window : Type 0 where
  pub start : ℕ
  pub end : ℕ

abbrev pub contains : Window → ℕ → Bool
contains w t = leb w.start t && ltb t w.end

-- The shifts of an `i32` drop the bits above the field, and keep its sign.
unfoldable pub sext : ℕ → ℕ → ℕ
sext value bits =
    let field = value % 2 ^ bits in
    if ltb field (2 ^ (bits - 1)) then field else field + (2 ^ 64 - 2 ^ bits)

abbrev target_of : ℕ → ℕ → ℕ
target_of orig_pc imm = (orig_pc + imm) % 2 ^ 64

unfoldable pub plan_op : ℕ → ℕ → Result HookError Plan
plan_op op orig_pc =
    let top8 = op / 2 ^ 24 in
    if op == pacibsp
    then ok (verbatim op)
    else if (bit_and op 0x7C000000 == 0x14000000) || (bit_and op 0xFC000000 == 0x94000000)
    then (let target = target_of orig_pc (sext (bit_and op 0x03FFFFFF) 26 * 4) in
        if op / 2 ^ 26 == 0b100101 then ok (bl target) else ok (b target))
    else if bit_and top8 0xFE == 0x54
    then ok (
        b_cond (bit_and op 0xF) false
          (target_of orig_pc (sext (bit_and (op / 2 ^ 5) 0x7FFFF) 19 * 4)))
    else if (bit_and top8 0x9F == 0x10) || (bit_and top8 0x9F == 0x90)
    then err (entry_patch_unsupported "adr/adrp in the displaced prologue")
    else if bit_and top8 0x1F == 0x18
    then err (entry_patch_unsupported "literal load in the displaced prologue")
    else if bit_and top8 0x7E == 0x34
    then ok (
        cbz_cbnz op (bit_and op 0x1F)
          (target_of orig_pc (sext (bit_and (op / 2 ^ 5) 0x7FFFF) 19 * 4)))
    else if bit_and top8 0x7E == 0x36
    then ok (
        tbz_tbnz op (bit_and op 0x1F)
          (target_of orig_pc (sext (bit_and (op / 2 ^ 5) 0x3FFFF) 14 * 4)))
    else ok (verbatim op)

-- In words.
unfoldable pub plan_size : Plan → Window → ℕ
plan_size (verbatim op) w = 1
plan_size (b target) w = if contains w target then 1 else 4
plan_size (bl target) w = if contains w target then 1 else 7
plan_size (b_cond cond inverted target) w = if contains w target then 1 else 5
plan_size (cbz_cbnz op rt target) w = if contains w target then 1 else 5
plan_size (tbz_tbnz op rt target) w = if contains w target then 1 else 5

unfoldable pub target_index : ℕ → Window → ℕ
target_index target w = (target - w.start) / 4
