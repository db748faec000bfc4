-- ===== src/Core/Debug/Relay.antt =====
-- crates/core/src/plugin_api/debug.rs: the relay system of the callback domain, between the channel and
-- the two slots that it shares with the callbacks.
pub mod Answered
pub mod Order
pub mod Tests
use Prim.Native.String.{String}
use shiny_song_tools.Prelude.{
  ℕ, Bool, true, false, Option, none, some, List, [], ◌∷◌, ◌++◌, if◌then◌else◌, Result, ok, err,
}
use shiny_song_tools.Core.Mailbox.{SendOutcome, Slot}
use shiny_song_tools.Core.Mailbox.SharedSlot.{try_send, take, is_set}
use shiny_song_tools.Core.Debug.{
  DebugServerError, handler_error, internal_error, DebugWireError, server, typed, referenced,
  foreign, Payload, DebugQueuedRequest, DebugResponse, DebugTopicChannel, leave_pending, respond,
}

-- What a callback leaves in the response slot: its reply as JSON or the error of the conversion, its own
-- error, or a response that is still referred to elsewhere.
pub data Answer (V : Type 0) : Type 0 where
  answered : Result String V → Answer V
  refused : String → Answer V
  shared : Answer V

-- `in_flight` has the ids and connection generations of what was delivered, the oldest first.
pub record CallbackRelay (V D : Type 0) : Type 0 where
  pub channel : DebugTopicChannel V D
  pub request_slot : Slot D
  pub response_slot : Slot (Answer V)
  pub in_flight : List (V × ℕ)

-- The two slots as a callback has them.
pub record CallbackDebugEndpoints (V D : Type 0) : Type 0 where
  pub request : Slot D
  pub response : Slot (Answer V)

module _ {V D : Type 0} where
  -- `stray` says that the request is still referred to elsewhere.
  unfoldable pub handle_pending :
      Bool → (D → Answer V) → CallbackDebugEndpoints V D → CallbackDebugEndpoints V D × Bool
  unfolding take try_send
  handle_pending stray handler e =
      let (slot, x) = take e.request in
      elim x [
        | none ↦ (record e { request = slot }, false)
        | some d ↦
            if stray
            then (record e { request = (try_send d slot).0 }, false)
            else (record e { request = slot; response = (try_send (handler d) e.response).0 }, true)
      ]

  -- The front leaves the inbox only if the slot took its request.
  unfoldable pub settle_delivery :
      DebugQueuedRequest V D
      → List (DebugQueuedRequest V D)
      → Slot D × Option SendOutcome
      → CallbackRelay V D
      → CallbackRelay V D
  settle_delivery q rest (slot, none) r = record r { request_slot = slot }
  settle_delivery q rest (slot, some outcome) r = record r {
    request_slot = slot;
    channel = record r.channel { inbox = rest };
    in_flight = r.in_flight ++ (q.id, q.generation) ∷ [];
  }

  unfoldable pub deliver_payload :
      DebugQueuedRequest V D
      → List (DebugQueuedRequest V D)
      → Payload D
      → CallbackRelay V D
      → CallbackRelay V D
  unfolding settle_delivery try_send respond
  deliver_payload q rest (typed d) r = settle_delivery q rest (try_send d r.request_slot) r
  deliver_payload q rest (referenced d) r = settle_delivery q rest (try_send d r.request_slot) r
  deliver_payload q rest foreign r = record r {
    channel =
        respond q (err (server internal_error "queued request type mismatch"))
          (record r.channel { inbox = rest });
  }

  unfoldable pub deliver_front :
      List (DebugQueuedRequest V D) → CallbackRelay V D → CallbackRelay V D
  unfolding deliver_payload
  deliver_front [] r = r
  deliver_front (q ∷ rest) r = deliver_payload q rest q.payload r

  -- Step 1.
  unfoldable pub deliver : CallbackRelay V D → CallbackRelay V D
  unfolding deliver_front is_set
  deliver r = if is_set r.request_slot then r else deliver_front r.channel.inbox r

  unfoldable pub push_response :
      V × ℕ → Result DebugWireError V → CallbackRelay V D → CallbackRelay V D
  unfolding leave_pending
  push_response (id, generation) result r = record r {
    channel = leave_pending (record r.channel {
      outbox =
          r.channel.outbox ++ record { id = id; result = result; generation = generation } ∷ [];
    });
  }

  -- What a take of the response slot leads to, for the id `i` at the front of `in_flight`, which is
  -- taken off first: `go` is the rest of the loop after a result.
  unfoldable pub settle_take :
      V × ℕ
      → Option (Answer V)
      → (Result DebugWireError V → CallbackRelay V D)
      → CallbackRelay V D
      → CallbackRelay V D
  unfolding try_send
  settle_take i none go left = record left { in_flight = i ∷ left.in_flight }
  settle_take i (some shared) go left = record left {
    response_slot = (try_send shared left.response_slot).0;
  }
  settle_take i (some (refused text)) go left = go (err (server handler_error text))
  settle_take i (some (answered (ok v))) go left = go (ok v)
  settle_take i (some (answered (err text))) go left = go (err (server internal_error text))

  -- Step 2. Before each take the callbacks of other threads may run: `others` is what they do to the
  -- response slot. A response that meets no id is dropped.
  unfoldable pub collect :
      (Slot (Answer V) → Slot (Answer V)) → List (V × ℕ) → CallbackRelay V D → CallbackRelay V D
  unfolding push_response take settle_take
  collect others [] r = record r {
    response_slot = (take (others r.response_slot)).0;
    in_flight = [];
  }
  collect others (i ∷ is) r =
      let (slot, x) = take (others r.response_slot) in
      let left = record r { response_slot = slot; in_flight = is } in
      settle_take i x (λ result. collect others is (push_response i result left)) left

  -- `CallbackRelaySystem::run`.
  unfoldable pub run_relay :
      (Slot (Answer V) → Slot (Answer V)) → CallbackRelay V D → CallbackRelay V D
  unfolding deliver collect
  run_relay others r = let delivered = deliver r in collect others delivered.in_flight delivered
