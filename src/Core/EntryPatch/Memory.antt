-- ===== src/Core/EntryPatch/Memory.antt =====
-- crates/core/src/entry_patch.rs: the rewriting of a function's entry, and the slot memory over it. The
-- bytes of the process are a function of the address.
pub mod Laws
pub mod New
use shiny_song_tools.Prelude.{
  ℕ, zero, suc, ◌+◌, ◌-◌, ◌*◌, ◌/◌, ◌%◌, ◌^◌, ◌<◌, ◌≡◌, Bool, true, false, not, ◌&&◌, ◌||◌, leb,
  ltb, ◌==◌, if◌then◌else◌, Result, ok, err, ◌>>=◌, Option, none, some, List, [], ◌∷◌, ◌++◌, length,
}
use shiny_song_tools.Core.Error.{
  HookError, entry_patch_unsupported, installation_failed, slot_malformed,
}
use shiny_song_tools.Core.MethodSlot.{Exchange, swapped, observed}
use shiny_song_tools.Core.EntryPatch.{br_x16, ldr_x16_literal_8}
use shiny_song_tools.Core.EntryPatch.Emit.{b_enc, build_trampoline}

abbrev pub Bytes : Type 0
Bytes = ℕ → ℕ

-- The system calls of a patch: the page size, the staging page, whether its protection can be changed
-- to writable and to executable, and the remapping of the patched copy over the page, which leaves the
-- bytes of the process and its return code. The law is what Mach documents: a successful remap shows
-- the copy, a failed one changes nothing.
pub record System : Type 0 where
  pub page_size : Option ℕ
  pub stage : Bool
  pub writable : Bool
  pub executable : Bool
  pub remap : (now copy : Bytes) → Bytes × Bool
  pub remapped :
      (now copy : Bytes) (a : ℕ)
      → (remap now copy).0 a ≡ (if (remap now copy).1 then copy a else now a)

-- `copy_nonoverlapping` of the bytes to an address.
unfoldable pub write : ℕ → List ℕ → Bytes → Bytes
write addr [] m = m
write addr (x ∷ xs) m = λ a. if a == addr then x else write (addr + 1) xs m a

-- The readback.
unfoldable pub reads_back : ℕ → List ℕ → Bytes → Bool
reads_back addr [] m = true
reads_back addr (x ∷ xs) m = (m addr == x) && reads_back (addr + 1) xs m

confirmed : ℕ → List ℕ → Bytes × Bool → Bytes × Result HookError (Unit {0})
confirmed addr bytes (m, false) = (m, err installation_failed)
confirmed addr bytes (m, true) =
    (m, if reads_back addr bytes m then ok tt else err installation_failed)

remap_staged : System → ℕ → List ℕ → Bytes → Bytes × Result HookError (Unit {0})
unfolding confirmed
remap_staged sys addr bytes m =
    if not sys.stage
    then (m, err (entry_patch_unsupported "staging page mmap failed"))
    else if not (sys.writable && sys.executable)
    then (m, err installation_failed)
    else confirmed addr bytes (sys.remap m (write addr bytes m))

remap_sized : System → ℕ → List ℕ → Bytes → Option ℕ → Bytes × Result HookError (Unit {0})
unfolding remap_staged
remap_sized sys addr bytes m none = (m, err (entry_patch_unsupported "page size unavailable"))
remap_sized sys addr bytes m (some ps) =
    if ltb ps (addr % ps + length bytes)
    then (m, err (entry_patch_unsupported "patch crosses a page boundary"))
    else remap_staged sys addr bytes m

-- The copy differs from the page in the bytes alone, and so does the process after the remap. The lock
-- makes it one step.
unfoldable pub remap_patch : System → ℕ → List ℕ → Bytes → Bytes × Result HookError (Unit {0})
unfolding remap_sized
remap_patch sys addr bytes m = remap_sized sys addr bytes m sys.page_size

-- `to_le_bytes`, of so many bytes.
unfoldable pub le_bytes : ℕ → ℕ → List ℕ
le_bytes zero x = []
le_bytes (suc n) x = x % 256 ∷ le_bytes n (x / 256)

-- A near branch forwards or backwards within 2 ^ 27 bytes, if the distance is a whole number of words.
abbrev pub is_reachable : ℕ → ℕ → Bool
is_reachable entry replacement =
    if leb entry replacement
    then ((replacement - entry) % 4 == 0) && ltb ((replacement - entry) / 4) (2 ^ 25)
    else ((entry - replacement) % 4 == 0) && leb ((entry - replacement) / 4) (2 ^ 25)

-- `imm26 as u32`.
abbrev pub imm26 : ℕ → ℕ → ℕ
imm26 entry replacement =
    if leb entry replacement
    then (replacement - entry) / 4 % 2 ^ 32
    else (2 ^ 32 - (entry - replacement) / 4 % 2 ^ 32) % 2 ^ 32

unfoldable pub entry_patch_bytes : ℕ → ℕ → List ℕ
entry_patch_bytes entry replacement =
    if is_reachable entry replacement
    then le_bytes 4 (b_enc 0b000101 (imm26 entry replacement))
    else le_bytes 4 ldr_x16_literal_8 ++ le_bytes 4 br_x16 ++ le_bytes 8 replacement

-- `EntryPatchMemory`: what does not change, and what does, with the bytes of the process.
pub record EntryPatch : Type 0 where
  pub entry : ℕ
  pub replacement : ℕ
  pub trampoline : ℕ
  pub patch : List ℕ
  pub original : List ℕ

pub data Failure : Type 0 where
  entry_patch_write_failed entry_restore_write_failed : Failure

pub record EntryState : Type 0 where
  pub bytes : Bytes
  pub installed : Bool
  pub failure : Option Failure

unfoldable pub state_word : EntryPatch → EntryState → ℕ
state_word e s = if s.installed then e.replacement else e.trampoline

module _ (sys : System) (e : EntryPatch) where
  rewritten :
      Failure → ℕ → Bool → EntryState → Bytes × Result HookError (Unit {0}) → EntryState × Exchange
  rewritten f current next s (m, ok u) = (record s { bytes = m; installed = next }, swapped)
  rewritten f current next s (m, err x) =
      (record s { bytes = m; failure = some f }, observed current)

  unfoldable pub patch_entry : EntryState → Bytes × Result HookError (Unit {0})
  patch_entry s = remap_patch sys e.entry e.patch s.bytes

  unfoldable pub unpatch_entry : EntryState → Bytes × Result HookError (Unit {0})
  unpatch_entry s = remap_patch sys e.entry e.original s.bytes

  unfoldable pub compare_exchange : EntryState → ℕ → ℕ → EntryState × Exchange
  unfolding rewritten
  compare_exchange s expected new =
      let current = state_word e s in
      if not (expected == current)
      then (s, observed current)
      else if (new == e.replacement) && not s.installed
      then rewritten entry_patch_write_failed current (new == e.replacement) s (patch_entry s)
      else if (new == e.trampoline) && s.installed
      then rewritten entry_restore_write_failed current (new == e.replacement) s (unpatch_entry s)
      else (s, observed current)

-- Volatile reads of consecutive bytes.
unfoldable pub read_bytes : ℕ → ℕ → Bytes → List ℕ
read_bytes zero addr m = []
read_bytes (suc n) addr m = m addr ∷ read_bytes n (addr + 1) m

-- `from_le_bytes`.
unfoldable pub from_le : List ℕ → ℕ
from_le [] = 0
from_le (x ∷ xs) = x + 256 * from_le xs

-- The instruction words; `chunks_exact` drops an incomplete one.
unfoldable pub instructions : List ℕ → List ℕ
instructions (w ∷ x ∷ y ∷ z ∷ rest) = from_le (w ∷ x ∷ y ∷ z ∷ []) ∷ instructions rest
instructions _ = []

-- The new memory with the words of its trampoline, and the state that it begins in.
assembled : ℕ → ℕ → List ℕ → List ℕ → ℕ × List ℕ → EntryPatch × List ℕ
assembled entry replacement patch original (trampoline, words) = (
  record {
    entry = entry;
    replacement = replacement;
    trampoline = trampoline;
    patch = patch;
    original = original;
  },
  words,
)

-- `mem` and `executable` are the system's part in the trampoline.
unfoldable pub new : Option ℕ → Bool → ℕ → ℕ → Bytes → Result HookError (EntryPatch × List ℕ)
unfolding assembled
new mem executable slot replacement m =
    let entry = from_le (read_bytes 8 slot m) in
    let patch = entry_patch_bytes entry replacement in
    let original = read_bytes (length patch) entry m in
    if (slot == 0) || not (slot % 8 == 0)
    then err slot_malformed
    else if (entry == 0) || not (entry % 4 == 0)
    then err slot_malformed
    else build_trampoline mem executable entry (instructions original) >>= λ t.
        ok (assembled entry replacement patch original t)

abbrev pub pristine : Bytes → EntryState
pristine m = record { bytes = m; installed = false; failure = none }
