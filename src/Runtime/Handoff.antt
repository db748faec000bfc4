-- ===== src/Runtime/Handoff.antt =====
-- crates/runtime/src/handoff.rs: the one-shot slot that passes the App to the main thread.
use shiny_song_tools.Prelude.{Bool, true, false, Option, none, some}

-- The mutex at the moment of a call.
pub data Lock : Type 0 where
  free held poisoned : Lock

pub record Handoff (A : Type 0) : Type 0 where
  pub lock : Lock
  pub app : Option A

pub data HandoffTake (A : Type 0) : Type 0 where
  ready : A → HandoffTake A
  pending failed : HandoffTake A

module _ {A : Type 0} where
  abbrev pub empty : Handoff A
  empty = record { lock = free; app = none }

  put : Handoff A → A → Option A → Handoff A × Bool
  put h a none = (record h { app = some a }, true)
  put h a (some old) = (h, false)

  -- `publish` waits for the lock. An App that is refused is dropped by the call.
  unfoldable pub publish : Handoff A → A → Handoff A × Bool
  unfolding put
  publish h a = elim h.lock [ poisoned ↦ (h, false) | _ ↦ put h a h.app ]

  taken : Handoff A → Option A → Handoff A × HandoffTake A
  taken h none = (record h { app = none }, pending)
  taken h (some a) = (record h { app = none }, ready a)

  -- `try_take` does not wait.
  unfoldable pub try_take : Handoff A → Handoff A × HandoffTake A
  unfolding taken
  try_take h = elim h.lock [ free ↦ taken h h.app | held ↦ (h, pending) | poisoned ↦ (h, failed) ]
