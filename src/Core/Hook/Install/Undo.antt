-- ===== src/Core/Hook/Install/Undo.antt =====
-- The two restore actions of an installed hook.
use shiny_song_tools.Prelude.{
  ℕ, ◌≡◌, ◌≢◌, ◌⊎◌, inl, inr, refl, subst, true, false, some, Result, ok, err, arith, Bool-cases,
}
use shiny_song_tools.Core.Error.{HookError, ownership_drift, RestoreError, ownership_lost, failed}
use shiny_song_tools.Core.MethodSlot.{SlotMemory, IsLawful, MethodPointerSlot, reads, current}
use shiny_song_tools.Core.MethodSlot
use shiny_song_tools.Core.MethodSlot.Laws.{Outcome, restore-Outcome}
use shiny_song_tools.Core.Hook.Install.{
  HookState, ledger_restore, ledger_result, explicit_restore, explicit_result,
}

module _ (m : SlotMemory) (lawful : IsLawful m) (others : m.State → m.State) where
  -- What a restore action of the ledger may find, with the state, the word and the result it leaves.
  abbrev pub Restored :
      HookState m → m.State → HookState m × m.State × Result RestoreError (Unit {0}) → Type 0
  Restored h s (h', t, ok _) =
      (h'.installed ≡ false)
      × (((h.installed ≡ false) × (t ≡ s))
          ⊎ ((m.read s ≡ some h.replacement) × (m.read t ≡ some h.slot.original)))
  Restored h s (h', t, err ownership_lost) = (h'.installed ≡ false) × (t ≡ s)
  Restored h s (h', t, err failed) =
      (h'.installed ≡ true) × (m.read s ≡ some h.replacement) × (m.read t ≢ some h.slot.original)

  ledger_result-Restored :
      (h : HookState m) (s : m.State) (r : m.State × Result HookError (Unit {0}))
      → Outcome m lawful others ownership_drift h.replacement h.slot.original s r
      → Restored h s (ledger_result m h r)
  unfolding ledger_result
  ledger_result-Restored h s (t, ok _) o = (refl, inr o)
  ledger_result-Restored h s (t, err ownership_drift) o = ground arith
  ledger_result-Restored h s (t, err e) o = ground arith

  -- A restore action that reports success either had nothing installed, and changed nothing, or took
  -- the word from the replacement to the original; lost ownership leaves the word alone; an
  -- unconfirmed restore marks the hook as installed again. In the first two cases the mark is clear.
  pub ledger_restore-Restored :
      (h : HookState m) (s : m.State) → Restored h s (ledger_restore m others h s)
  unfolding ledger_restore
  ledger_restore-Restored h s = elim (Bool-cases h.installed) [
    | inl on ↦ simp on (
        ledger_result-Restored h s (MethodSlot.restore m others h.slot h.replacement s)
          (restore-Outcome m lawful others h.slot h.replacement s))
    | inr off ↦ simp off (refl, inl (refl, refl))
  ]

  cleared :
      (h : HookState m) (u : m.State)
      → h.installed ≡ false
      → ledger_restore m others h u ≡ (h, u, ok tt)
  unfolding ledger_restore
  cleared h u off = ground arith

  restore_drift :
      (slot : MethodPointerSlot) (replacement : ℕ) (s : m.State)
      → m.read s ≢ some replacement
      → MethodSlot.restore m others slot replacement s ≡ (s, err ownership_drift)
  restore_drift slot replacement s ne =
      go (MethodSlot.restore m others slot replacement s)
        (restore-Outcome m lawful others slot replacement s)
    where
      go :
          (r : m.State × Result HookError (Unit {0}))
          → Outcome m lawful others ownership_drift replacement slot.original s r
          → r ≡ (s, err ownership_drift)
      go (t, ok _) o = absurd (ne o.0)
      go (t, err e) (inl o) = cc
      go (t, err e) (inr o) = absurd (ne o.1)

  -- At most once: after a restore action that succeeded or lost the slot, a second run of it
  -- succeeds and touches nothing, whatever the word holds by then.
  pub ledger_restore_twice :
      (h h' : HookState m) (s t u : m.State) (r : Result RestoreError (Unit {0}))
      → ledger_restore m others h s ≡ (h', t, r)
      → r ≢ err failed
      → ledger_restore m others h' u ≡ (h', u, ok tt)
  unfolding ledger_restore
  ledger_restore_twice h h' s t u r e ne =
      cleared h' u (cleared_of r ne (subst (Restored h s) e (ledger_restore-Restored h s)))
    where
      cleared_of :
          (r : Result RestoreError (Unit {0}))
          → r ≢ err failed
          → Restored h s (h', t, r)
          → h'.installed ≡ false
      cleared_of (ok _) ne o = o.0
      cleared_of (err ownership_lost) ne o = o.0
      cleared_of (err failed) ne o = absurd (ne refl)

  -- The explicit restore on a slot in other hands reports drift, leaves the slot alone and clears the
  -- mark, so that a later ledger action has nothing to do.
  pub explicit_restore_drift :
      (h : HookState m) (s : m.State)
      → h.installed ≡ true
      → m.read s ≢ some h.replacement
      → (explicit_restore m others h s ≡ (record h { installed = false }, s, err ownership_drift))
        × (ledger_restore m others (explicit_restore m others h s).0 s
            ≡ (record h { installed = false }, s, ok tt))
  unfolding explicit_restore explicit_result ledger_restore
  explicit_restore_drift h s on ne = ground (arith, restore_drift h.slot h.replacement s ne)
