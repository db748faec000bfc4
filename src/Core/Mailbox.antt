-- ===== src/Core/Mailbox.antt =====
-- crates/core/src/container.rs: the three mailboxes between the callbacks and the main thread. An atomic
-- cell is its value; the lock-free queue of the crossbeam library is a parameter.
pub mod LatestCell
pub mod BoundedQueue
pub mod SharedSlot
pub mod Tests
use shiny_song_tools.Prelude.{
  ℕ, zero, suc, ◌+◌, ◌<◌, ◌≡◌, Bool, true, false, Option, none, some, List, [], ◌∷◌, ◌++◌, length,
  Result, ok, err, if◌then◌else◌, ltb,
}

pub data SendOutcome : Type 0 where
  accepted replaced full busy : SendOutcome

unfoldable pub is_stored : SendOutcome → Bool
is_stored accepted = true
is_stored replaced = true
is_stored full = false
is_stored busy = false

-- `ArrayQueue`: what its documentation promises of a state, by the elements that it shows. A push into
-- a full queue gives the element back.
pub record ArrayQueue (T : Type 0) : Type 1 where
  pub State : Type 0
  pub capacity : ℕ
  pub elements : State → List T
  pub new : State
  pub push : State → T → State × Bool
  pub pop : State → State × Option T
  pub len : State → ℕ
  pub elements-new : elements new ≡ []
  pub pushed :
      (q : State) (x : T)
      → (elements (push q x).0
          ≡ (if ltb (length (elements q)) capacity then elements q ++ x ∷ [] else elements q))
        × ((push q x).1 ≡ ltb (length (elements q)) capacity)
  pub popped_none : (q : State) → elements q ≡ [] → (elements (pop q).0 ≡ []) × ((pop q).1 ≡ none)
  pub popped_some :
      (q : State) (x : T) (xs : List T)
      → elements q ≡ x ∷ xs
      → (elements (pop q).0 ≡ xs) × ((pop q).1 ≡ some x)
  pub len-elements : (q : State) → len q ≡ length (elements q)

-- The mutex of a shared slot at the moment of a call.
pub data SlotLock : Type 0 where
  free contended poisoned : SlotLock

pub record Slot (T : Type 0) : Type 0 where
  pub lock : SlotLock
  pub value : Option T
