-- ===== src/Core/MethodSlot.antt =====
-- crates/core/src/method_slot.rs: the slot that holds a method's code pointer, its compare-exchange
-- protocol, and the identity of a hook target. Addresses are natural numbers.
pub mod Target
pub mod Laws
pub mod Raw
pub mod Tests
use shiny_song_tools.Prelude.{
  ℕ, ◌≡◌, Bool, true, false, Option, none, some, Result, ok, err, ◌==◌, if◌then◌else◌,
}
use shiny_song_tools.Core.Error.{
  HookError, slot_conflict, installation_failed, ownership_drift, slot_malformed,
}

-- `Result<(), usize>` of a compare-exchange.
pub data Exchange : Type 0 where
  swapped : Exchange
  observed : ℕ → Exchange

-- The trait: the word may sit in any state.
pub record SlotMemory : Type 1 where
  pub State : Type 0
  pub read : State → Option ℕ
  pub compare_exchange : State → ℕ → ℕ → State × Exchange

-- What the trait asks of an implementation: a successful exchange found `expected` and wrote `new`,
-- a failed one wrote nothing.
abbrev pub Exchanged : (m : SlotMemory) → m.State → ℕ → ℕ → m.State × Exchange → Type 0
Exchanged m s expected new (t, swapped) = (m.read s ≡ some expected) × (m.read t ≡ some new)
Exchanged m s expected new (t, observed actual) = t ≡ s

pub record IsLawful (m : SlotMemory) : Type 0 where
  pub exchanged :
      (s : m.State) (expected new : ℕ)
      → Exchanged m s expected new (m.compare_exchange s expected new)

-- A memory whose exchange never fails where the word is as expected.
pub record IsWilling (m : SlotMemory) : Type 0 where
  pub willing :
      (s : m.State) (expected new : ℕ)
      → m.read s ≡ some expected
      → (t : m.State) × (m.compare_exchange s expected new ≡ (t, swapped))

-- `memory` is shared with others, so its state is passed along; `original` is the bound pointer.
pub record MethodPointerSlot : Type 0 where
  pub original : ℕ

-- `read == Some(n)`.
abbrev pub reads : Option ℕ → ℕ → Bool
reads none n = false
reads (some v) n = v == n

module _ (m : SlotMemory) where
  bind_word : Option ℕ → Result HookError MethodPointerSlot
  bind_word none = err slot_malformed
  bind_word (some current) =
      if current == 0 then err slot_malformed else ok (record { original = current })

  unfoldable pub bind : m.State → Result HookError MethodPointerSlot
  unfolding bind_word
  bind s = bind_word (m.read s)

  -- The readback of `want`. Between the exchange and the readback other writers of the word may
  -- run: `others` is what they do.
  confirm :
      (m.State → m.State)
      → ℕ
      → HookError
      → m.State × Exchange
      → m.State × Result HookError (Unit {0})
  confirm others want lost (s, swapped) =
      (others s, if reads (m.read (others s)) want then ok tt else err installation_failed)
  confirm others want lost (s, observed actual) = (s, err lost)

  unfoldable pub install :
      (m.State → m.State) → MethodPointerSlot → ℕ → m.State → m.State × Result HookError (Unit {0})
  unfolding confirm
  install others slot replacement s =
      confirm others replacement slot_conflict (m.compare_exchange s slot.original replacement)

  unfoldable pub restore :
      (m.State → m.State) → MethodPointerSlot → ℕ → m.State → m.State × Result HookError (Unit {0})
  unfolding confirm
  restore others slot replacement s =
      confirm others slot.original ownership_drift (m.compare_exchange s replacement slot.original)

  unfoldable pub current : m.State → Option ℕ
  current s = m.read s
