-- ===== src/Core/Mailbox/BoundedQueue.antt =====
-- `BoundedQueue`: first in, first out, and full at its capacity.
use shiny_song_tools.Prelude.{ℕ, zero, suc, Bool, true, false, Option, if◌then◌else◌}
use shiny_song_tools.Core.Mailbox.{SendOutcome, accepted, full, ArrayQueue}

module _ {T : Type 0} (a : ArrayQueue T) where
  unfoldable pub try_send : T → a.State → a.State × SendOutcome
  try_send x q = let (q', done) = a.push q x in (q', if done then accepted else full)

  unfoldable pub try_read : a.State → a.State × Option T
  try_read q = a.pop q

  unfoldable pub len : a.State → ℕ
  len q = a.len q

  unfoldable pub is_empty : a.State → Bool
  is_empty q = elim (a.len q) [ zero ↦ true | suc n ↦ false ]
