-- ===== src/Core/Route.antt =====
-- crates/core/src/plugin_api/route.rs: how the routes from the callbacks to the main thread are drained
-- into the messages of the world. `Messages` is there or not; a message is written at the end.
pub mod Delivery
pub mod Tests
use shiny_song_tools.Prelude.{
  ℕ, zero, suc, ◌+◌, Bool, true, false, Option, none, some, List, [], ◌∷◌, ◌++◌, if◌then◌else◌,
}
use shiny_song_tools.Core.Mailbox.{ArrayQueue, SendOutcome, accepted, is_stored, Slot}
use shiny_song_tools.Core.Mailbox.LatestCell
use shiny_song_tools.Core.Mailbox.BoundedQueue
use shiny_song_tools.Core.Mailbox.SharedSlot

-- What a drain leaves: the mailbox, the messages, and the number delivered.
pub record Drained (T M : Type 0) : Type 0 where
  pub mailbox : M
  pub messages : Option (List T)
  pub delivered : ℕ

module _ {T : Type 0} where
  deliver : {M : Type 0} → Option (List T) → M × Option T → Drained T M
  deliver ms (m, none) = record { mailbox = m; messages = ms; delivered = 0 }
  deliver none (m, some x) = record { mailbox = m; messages = none; delivered = 0 }
  deliver (some ms) (m, some x) = record {
    mailbox = m;
    messages = some (ms ++ x ∷ []);
    delivered = 1;
  }

  -- `MainLatestReader::drain` and `depth`.
  unfoldable pub drain_latest : Option T → Option (List T) → Drained T (Option T)
  unfolding deliver
  drain_latest cell ms = deliver ms (LatestCell.take cell)

  unfoldable pub depth_latest : Option T → ℕ
  depth_latest cell = elim (LatestCell.try_read cell) [ none ↦ 0 | some x ↦ 1 ]

  -- `MainSharedReader::drain` and `depth`.
  unfoldable pub drain_shared : Slot T → Option (List T) → Drained T (Slot T)
  unfolding deliver
  drain_shared slot ms = deliver ms (SharedSlot.take slot)

  unfoldable pub depth_shared : Slot T → ℕ
  depth_shared slot = elim (SharedSlot.try_read slot) [ none ↦ 0 | some x ↦ 1 ]

  module _ (a : ArrayQueue T) where
    -- What callbacks send while a drain runs: each a try that may find the queue full. The values that
    -- the queue took are returned.
    unfoldable pub send_all : List T → a.State → a.State × List T
    send_all [] q = (q, [])
    send_all (x ∷ xs) q =
        let (q', outcome) = BoundedQueue.try_send a x q in
        let (q'', rest) = send_all xs q' in (q'', if is_stored outcome then x ∷ rest else rest)

    -- A run of the loop: the queue, the messages, the number delivered, and the values that the queue
    -- took meanwhile.
    pub record Draining : Type 0 where
      pub queue : a.State
      pub messages : List T
      pub delivered : ℕ
      pub taken : List T

    -- `for _ in 0..watermark`. `sends k` is sent before the pop with `k` rounds left.
    unfoldable pub drain_rounds : (ℕ → List T) → ℕ → Draining → Draining
    drain_rounds sends zero d = d
    drain_rounds sends (suc n) d =
        let (q, took) = send_all (sends n) d.queue in
        let (q', x) = BoundedQueue.try_read a q in
        elim x [
          | none ↦ record d { queue = q'; taken = d.taken ++ took }
          | some v ↦ drain_rounds sends n (record {
            queue = q';
            messages = d.messages ++ v ∷ [];
            delivered = d.delivered + 1;
            taken = d.taken ++ took;
          })
        ]

    -- `MainBoundedReader::drain` and `depth`. Without the messages nothing is popped, and `none` stands
    -- for the return of 0.
    unfoldable pub drain_bounded : (ℕ → List T) → ℕ → a.State → Option (List T) → Option Draining
    drain_bounded sends watermark q none = none
    drain_bounded sends watermark q (some ms) = some (
        drain_rounds sends watermark
          (record { queue = q; messages = ms; delivered = 0; taken = [] }))

    unfoldable pub depth_bounded : a.State → ℕ
    depth_bounded q = BoundedQueue.len a q
