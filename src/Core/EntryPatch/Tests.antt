-- ===== src/Core/EntryPatch/Tests.antt =====
-- Runs of crates/core/src/entry_patch.rs.
use shiny_song_tools.Prelude.{ℕ, ◌≡◌, refl, arith, true, ok, some, List, [], ◌∷◌}
use shiny_song_tools.Core.EntryPatch.{Plan, verbatim, bl, cbz_cbnz, tbz_tbnz, plan_op, sext}
use shiny_song_tools.Core.EntryPatch.Emit.{
  emit_op, plans, build_trampoline, far_jump_seq, window_of,
}
use shiny_song_tools.Core.EntryPatch.Layout.{IsLaid, build_trampoline-IsLaid}
use shiny_song_tools.Core.EntryPatch.Memory.{
  Bytes, System, write, EntryPatch, compare_exchange, pristine,
}
use shiny_song_tools.Core.EntryPatch.Memory.Laws.{IsSynced, Moved, compare_exchange-Moved}

-- A system that refuses nothing.
abbrev ready : System
ready = record {
  page_size = some 16384;
  stage = true;
  writable = true;
  executable = true;
  remap = λ now copy. (copy, true);
  remapped = λ now copy a. refl;
}

-- `cbz x0` four words on, `add x0, x0, x1`, `tbnz w3, #4` two words back, and a far `bl`.
abbrev displaced : List ℕ
displaced = 0xB4000080 ∷ 0x8B010000 ∷ 0x3727FFC3 ∷ 0x94000100 ∷ []

displaced-plans :
    plans displaced 0x10000
    ≡ ok (
        cbz_cbnz 0xB4000080 0 0x10010
        ∷ verbatim 0x8B010000
        ∷ tbz_tbnz 0x3727FFC3 3 0x10000
        ∷ bl 0x1040C
        ∷ [])
unfolding plans plan_op sext
displaced-plans = refl

-- The far form of a `tbnz` that branches backwards keeps the upper three bits of its old offset: the
-- skip is not the five words of the far jump.
far_tbnz :
    emit_op (tbz_tbnz 0x3727FFC3 3 0xFFF8) 0 0 (0 ∷ []) (window_of 0x10000 (0 ∷ [])) 0x50000
    ≡ 0x362700A3 ∷ far_jump_seq 0xFFF8
unfolding emit_op
far_tbnz = refl

abbrev displaced_plan : List Plan
displaced_plan =
    cbz_cbnz 0xB4000080 0 0x10010
    ∷ verbatim 0x8B010000
    ∷ tbz_tbnz 0x3727FFC3 3 0x10000
    ∷ bl 0x1040C
    ∷ []

build_trampoline-IsLaid_example :
    (t : ℕ × List ℕ) × (build_trampoline (some 0x50000) true 0x10000 displaced ≡ ok t)
    × IsLaid 0x10000 displaced displaced_plan t
build_trampoline-IsLaid_example =
    build_trampoline-IsLaid 0x50000 0x10000 displaced displaced_plan displaced-plans

abbrev zeros : Bytes
zeros a = 0

abbrev near : EntryPatch
near = record {
  entry = 0x1000;
  replacement = 0x9000;
  trampoline = 0x5000;
  patch = 0 ∷ 32 ∷ 0 ∷ 20 ∷ [];
  original = 0 ∷ 0 ∷ 1 ∷ 0x8B ∷ [];
}

abbrev code : Bytes
code = write 0x1000 near.original zeros

compare_exchange-Moved_example :
    Moved near
      (pristine code)
      0x5000
      0x9000
      (compare_exchange ready near (pristine code) 0x5000 0x9000)
    × IsSynced near zeros (compare_exchange ready near (pristine code) 0x5000 0x9000).0
compare_exchange-Moved_example =
    compare_exchange-Moved ready near zeros (pristine code) 0x5000 0x9000 refl (omega arith)
      (λ a. refl)

-- The slot at 8 holds the entry 0x1000, where an `add` stands.
abbrev with_slot : Bytes
with_slot = write 8 (0 ∷ 16 ∷ []) (write 0x1000 (0 ∷ 0 ∷ 1 ∷ 0x8B ∷ []) zeros)
