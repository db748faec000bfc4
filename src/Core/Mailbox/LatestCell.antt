-- ===== src/Core/Mailbox/LatestCell.antt =====
-- `LatestCell`: a value overwrites the one before.
use shiny_song_tools.Prelude.{Option, none, some}
use shiny_song_tools.Core.Mailbox.{SendOutcome, accepted, replaced}

module _ {T : Type 0} where
  stored : Option T → SendOutcome
  stored none = accepted
  stored (some x) = replaced

  unfoldable pub try_send : T → Option T → Option T × SendOutcome
  unfolding stored
  try_send x cell = (some x, stored cell)

  unfoldable pub try_read : Option T → Option T
  try_read cell = cell

  unfoldable pub take : Option T → Option T × Option T
  take cell = (none, cell)
