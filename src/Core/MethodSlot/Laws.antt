-- ===== src/Core/MethodSlot/Laws.antt =====
-- What binding, installing and restoring guarantee over any memory that keeps the contract.
use shiny_song_tools.Prelude.{
  ℕ, ◌≡◌, ◌≢◌, ◌⊎◌, inl, refl, some, Result, ok, err, arith, ==_self, subst, ap,
}
use shiny_song_tools.Core.Error.{HookError, slot_conflict, installation_failed, ownership_drift}
use shiny_song_tools.Core.MethodSlot.{
  Exchange, swapped, observed, SlotMemory, Exchanged, IsLawful, IsWilling, MethodPointerSlot, bind,
  confirm, install, restore,
}

module _ (m : SlotMemory) (lawful : IsLawful m) (others : m.State → m.State) where
  -- The outcome of an exchange of `from` for `to` with its readback.
  abbrev pub Outcome : HookError → ℕ → ℕ → m.State → m.State × Result HookError (Unit {0}) → Type 0
  Outcome lost from to s (t, ok _) = (m.read s ≡ some from) × (m.read t ≡ some to)
  Outcome lost from to s (t, err e) =
      ((e ≡ lost) × (t ≡ s))
      ⊎ ((e ≡ installation_failed) × (m.read s ≡ some from) × (m.read t ≢ some to))

  confirm-Outcome :
      (lost : HookError) (from to : ℕ) (s : m.State) (r : m.State × Exchange)
      → Exchanged m s from to r
      → Outcome lost from to s (confirm m others to lost r)
  unfolding confirm
  confirm-Outcome lost from to s (t, swapped) h = ground (arith)
  confirm-Outcome lost from to s (t, observed a) h = inl (refl, h)

  -- An install that succeeds took the slot from the original to the replacement; one that reports
  -- a conflict changed nothing; one that reports a failed installation did exchange the word, and
  -- the readback no longer found the replacement.
  pub install-Outcome :
      (slot : MethodPointerSlot) (replacement : ℕ) (s : m.State)
      → Outcome slot_conflict slot.original replacement s (install m others slot replacement s)
  unfolding install
  install-Outcome slot replacement s =
      confirm-Outcome slot_conflict slot.original replacement s _
        (lawful.exchanged s slot.original replacement)

  pub restore-Outcome :
      (slot : MethodPointerSlot) (replacement : ℕ) (s : m.State)
      → Outcome ownership_drift replacement slot.original s (restore m others slot replacement s)
  unfolding restore
  restore-Outcome slot replacement s =
      confirm-Outcome ownership_drift replacement slot.original s _
        (lawful.exchanged s replacement slot.original)

module _ (m : SlotMemory) (lawful : IsLawful m) (willing : IsWilling m) where
  exchange_once :
      (from to : ℕ) (lost : HookError) (s : m.State)
      → m.read s ≡ some from
      → (t : m.State) × (confirm m (λ u. u) to lost (m.compare_exchange s from to) ≡ (t, ok tt))
        × (m.read t ≡ some to)
  unfolding confirm
  exchange_once from to lost s h =
      let (t, e) = willing.willing s from to h in
      let now : m.read t ≡ some to =
        (subst (Exchanged m s from to) e (lawful.exchanged s from to)).1 in
      (t, rw (e, now, ==_self to), now)

  restore_drift :
      (slot : MethodPointerSlot) (replacement : ℕ) (s : m.State)
      → m.read s ≡ some slot.original
      → slot.original ≢ replacement
      → restore m (λ u. u) slot replacement s ≡ (s, err ownership_drift)
  unfolding restore confirm
  restore_drift slot replacement s h ne =
      ground (arith, lawful.exchanged s replacement slot.original)

  -- With no other writer, over a memory whose exchange fails only on a mismatch: a slot that holds
  -- the bound original takes the install, the restore brings the original back, and a second
  -- restore reports drift and writes nothing.
  pub restore-install :
      (slot : MethodPointerSlot) (replacement : ℕ) (s : m.State)
      → m.read s ≡ some slot.original
      → slot.original ≢ replacement
      → (t u : m.State) × (install m (λ v. v) slot replacement s ≡ (t, ok tt))
        × (m.read t ≡ some replacement)
        × (restore m (λ v. v) slot replacement t ≡ (u, ok tt))
        × (m.read u ≡ some slot.original)
        × (restore m (λ v. v) slot replacement u ≡ (u, err ownership_drift))
  unfolding install restore
  restore-install slot replacement s h ne =
      let (t, e, a) = exchange_once slot.original replacement slot_conflict s h in
      let (u, f, b) = exchange_once replacement slot.original ownership_drift t a in
      (t, u, e, a, f, b, restore_drift slot replacement u b ne)

-- Binding succeeds only on a word that can be read and is not null, and captures it.
pub bind_captures :
    (m : SlotMemory) (s : m.State) (slot : MethodPointerSlot)
    → bind m s ≡ ok slot
    → (m.read s ≡ some slot.original) × (slot.original ≢ 0)
unfolding bind
bind_captures m s slot h = ground arith

confirm-reads :
    (m : SlotMemory) (others : m.State → m.State) (replacement : ℕ) (t : m.State)
    (r : m.State × Exchange)
    → confirm m others replacement slot_conflict r ≡ (t, ok tt)
    → m.read t ≡ some replacement
unfolding confirm
confirm-reads m others replacement t (u, swapped) h =
    subst (λ v. m.read v ≡ some replacement) (ap (λ x. x.0) h) (ground (arith, ap (λ x. x.1) h))
confirm-reads m others replacement t (u, observed a) h = ground (arith, ap (λ x. x.1) h)

-- An install that succeeds leaves the replacement in the slot, over any memory.
pub install-reads :
    (m : SlotMemory) (others : m.State → m.State) (slot : MethodPointerSlot) (replacement : ℕ)
    (s t : m.State)
    → install m others slot replacement s ≡ (t, ok tt)
    → m.read t ≡ some replacement
unfolding install
install-reads m others slot replacement s t h =
    confirm-reads m others replacement t (m.compare_exchange s slot.original replacement) h
