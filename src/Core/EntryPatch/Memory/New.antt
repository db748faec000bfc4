-- ===== src/Core/EntryPatch/Memory/New.antt =====
-- `EntryPatchMemory::new`: what it takes over from the code, and what the patch jumps to.
use shiny_song_tools.Prelude.{
  ℕ, zero, suc, ◌+◌, ◌*◌, ◌/◌, ◌%◌, ◌^◌, ◌<◌, ◌≡◌, ◌≢◌, subst, refl, sym, ap, Bool, true, false,
  not, ◌||◌, ◌==◌, arith, if-elim, Result, ok, err, Result-cases, Option, some, inl, inr, List,
  length, ℕ_discrete,
}
use shiny_song_tools.Core.Error.{HookError}
use shiny_song_tools.Core.EntryPatch.{Plan, br_x16, ldr_x16_literal_8}
use shiny_song_tools.Core.EntryPatch.Emit.{plans, build_trampoline}
use shiny_song_tools.Core.EntryPatch.Layout.{build_trampoline-IsLaid}
use shiny_song_tools.Core.EntryPatch.Memory.{
  Bytes, write, le_bytes, is_reachable, entry_patch_bytes, EntryPatch, read_bytes, from_le,
  instructions, assembled, new, pristine,
}
use shiny_song_tools.Core.EntryPatch.Memory.Laws.{IsSynced}

length-read_bytes : (n addr : ℕ) (m : Bytes) → length (read_bytes n addr m) ≡ n
unfolding read_bytes
length-read_bytes zero addr m = refl
length-read_bytes (suc n) addr m = omega (arith, length-read_bytes n (addr + 1) m)

write-read_bytes : (n addr : ℕ) (m : Bytes) (a : ℕ) → write addr (read_bytes n addr m) m a ≡ m a
unfolding write read_bytes
write-read_bytes zero addr m a = refl
write-read_bytes (suc n) addr m a = elim (ℕ_discrete a addr) [
  | yes e ↦ ground (arith, e, ap m e)
  | no ne ↦ ground (arith, ne, write-read_bytes n (addr + 1) m a)
]

-- What a new memory is: the patch of the entry that the slot holds, as long as the code that it
-- displaces, and a pristine state that is in step with the bytes.
abbrev pub IsNew : ℕ → ℕ → Bytes → EntryPatch → Type 0
IsNew slot replacement m e =
    (e.entry ≡ from_le (read_bytes 8 slot m))
    × (e.entry % 4 ≡ 0)
    × (e.patch ≡ entry_patch_bytes e.entry replacement)
    × (length e.patch ≡ length e.original)
    × (e.replacement ≡ replacement)
    × IsSynced e m (pristine m)

abbrev WhenOk : ℕ → ℕ → Bytes → Result HookError (EntryPatch × List ℕ) → Type 0
WhenOk slot replacement m (ok t) = IsNew slot replacement m t.0
WhenOk slot replacement m (err x) = Unit

new-WhenOk :
    (mem : Option ℕ) (executable : Bool) (slot replacement : ℕ) (m : Bytes)
    → WhenOk slot replacement m (new mem executable slot replacement m)
unfolding new assembled
new-WhenOk mem executable slot replacement m =
    let entry = from_le (read_bytes 8 slot m) in
    let patch = entry_patch_bytes entry replacement in
    let original = read_bytes (length patch) entry m in
    let Good : Result HookError (EntryPatch × List ℕ) → Type 0 = WhenOk slot replacement m in
    if-elim Good ((slot == 0) || not (slot % 8 == 0)) _ _ (λ bad. tt)
      (λ fine.
        if-elim Good ((entry == 0) || not (entry % 4 == 0)) _ _ (λ bad. tt)
          (λ aligned.
            elim (Result-cases (build_trampoline mem executable entry (instructions original))) [
              | inl (t, e) ↦ rw e (
                refl,
                ground (arith, aligned),
                refl,
                sym (length-read_bytes (length patch) entry m),
                refl,
                λ a. sym (write-read_bytes (length patch) entry m a),
              )
              | inr (x, e) ↦ rw e tt
            ]))

-- A slot that is not null and is aligned, and holds an entry that is so, gives a memory if the
-- displaced instructions can be planned and the system gives the trampoline its page: one that patches
-- that entry, with as many bytes as it has saved of the code there, and begins in step with the bytes of
-- the process.
pub new-IsNew :
    (base slot replacement : ℕ) (m : Bytes) (ps : List Plan)
    → let entry = from_le (read_bytes 8 slot m) in
      let original = read_bytes (length (entry_patch_bytes entry replacement)) entry m in
      slot ≢ 0
      → slot % 8 ≡ 0
      → entry ≢ 0
      → entry % 4 ≡ 0
      → plans (instructions original) entry ≡ ok ps
      → (t : EntryPatch × List ℕ) × (new (some base) true slot replacement m ≡ ok t)
        × IsNew slot replacement m t.0
unfolding new
new-IsNew base slot replacement m ps s0 s8 e0 e4 planned =
    let entry = from_le (read_bytes 8 slot m) in
    let original = read_bytes (length (entry_patch_bytes entry replacement)) entry m in
    let (t, built, laid) = build_trampoline-IsLaid base entry (instructions original) ps planned in
    let made = assembled entry replacement (entry_patch_bytes entry replacement) original t in
    let done : new (some base) true slot replacement m ≡ ok made =
      ground (arith, s0, s8, e0, e4, built) in
    (
      made,
      done,
      subst (WhenOk slot replacement m) done (new-WhenOk (some base) true slot replacement m),
    )

-- The far patch is sixteen bytes: the two instructions that load the next eight and jump there, and
-- the replacement in those eight.
pub entry_patch_bytes_far :
    (entry replacement : ℕ)
    → is_reachable entry replacement ≡ false
    → replacement < 2 ^ 64
    → let bytes = entry_patch_bytes entry replacement in
      (length bytes ≡ 16)
      × (from_le bytes % 2 ^ 64 ≡ ldr_x16_literal_8 + br_x16 * 2 ^ 32)
      × (from_le bytes / 2 ^ 64 ≡ replacement)
unfolding entry_patch_bytes le_bytes from_le
entry_patch_bytes_far entry replacement far small =
    rw far (refl, omega (arith, small), omega (arith, small))
