-- ===== src/Core/MethodSlot/Raw.antt =====
-- `RawSlotMemory`: one atomic word.
use shiny_song_tools.Prelude.{
  ℕ, ◌≡◌, refl, some, ap, inl, inr, Bool-cases, ==_iff, arith, ◌==◌, if◌then◌else◌,
}
use shiny_song_tools.Core.MethodSlot.{
  SlotMemory, Exchange, swapped, observed, Exchanged, IsLawful, IsWilling,
}

unfoldable pub raw_compare_exchange : ℕ → ℕ → ℕ → ℕ × Exchange
raw_compare_exchange word expected new =
    if word == expected then (new, swapped) else (word, observed word)

abbrev pub raw : SlotMemory
raw = record { State = ℕ; read = some; compare_exchange = raw_compare_exchange }

raw_compare_exchange-Exchanged :
    (s expected new : ℕ) → Exchanged raw s expected new (raw_compare_exchange s expected new)
unfolding raw_compare_exchange
raw_compare_exchange-Exchanged s expected new = elim (Bool-cases (s == expected)) [
  | inl e ↦ rw e (ap some ((==_iff s expected).0 e), refl)
  | inr e ↦ rw e refl
]

-- The atomic word keeps the contract of the trait.
pub raw-IsLawful : IsLawful raw
raw-IsLawful = record { exchanged = raw_compare_exchange-Exchanged }

raw_willing :
    (s expected new : ℕ)
    → some s ≡ some expected
    → (t : ℕ) × (raw_compare_exchange s expected new ≡ (t, swapped))
unfolding raw_compare_exchange
raw_willing s expected new h = (new, ground arith)

pub raw-IsWilling : IsWilling raw
raw-IsWilling = record { willing = raw_willing }
