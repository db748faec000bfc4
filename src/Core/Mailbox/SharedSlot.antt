-- ===== src/Core/Mailbox/SharedSlot.antt =====
-- `SharedSlot`: one owned value behind a mutex that is only tried.
use shiny_song_tools.Prelude.{Bool, true, false, Option, none, some, if◌then◌else◌}
use shiny_song_tools.Core.Mailbox.{SendOutcome, accepted, replaced, Slot, free, contended, poisoned}

module _ {T : Type 0} where
  occupied : Option T → Bool
  occupied none = false
  occupied (some x) = true

  -- `none` is `SlotBusy`.
  unfoldable pub try_send : T → Slot T → Slot T × Option SendOutcome
  unfolding occupied
  try_send x s = elim s.lock [
    | free ↦ (record s { value = some x }, some (if occupied s.value then replaced else accepted))
    | contended ↦ (s, none)
    | poisoned ↦ (s, none)
  ]

  -- A poisoned lock is recovered here.
  unfoldable pub try_read : Slot T → Option T
  try_read s = elim s.lock [ contended ↦ none | _ ↦ s.value ]

  unfoldable pub take : Slot T → Slot T × Option T
  take s = elim s.lock [ contended ↦ (s, none) | _ ↦ (record s { value = none }, s.value) ]

  unfoldable pub is_set : Slot T → Bool
  unfolding occupied
  is_set s = elim s.lock [ free ↦ occupied s.value | _ ↦ true ]
