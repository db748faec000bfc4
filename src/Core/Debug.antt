-- ===== src/Core/Debug.antt =====
-- crates/core/src/plugin_api/debug.rs: the channel of one debug topic, and the handler system of the main
-- domain. A channel is used on the main thread alone, so that its locks take no part.
pub mod Order
pub mod Relay
pub mod Tests
use Prim.Native.String.{String}
use shiny_song_tools.Prelude.{
  ℕ, ◌+◌, ◌-◌, ◌%◌, ◌^◌, Bool, true, false, ◌&&◌, leb, if◌then◌else◌, Result, ok, err, Option, none,
  some, List, [], ◌∷◌, ◌++◌,
}
use shiny_song_tools.Core.Gate.{RuntimeGate, is_open}

pub data DebugServerError : Type 0 where
  runtime_unavailable queue_full payload_too_large : DebugServerError
  plugin_unavailable handler_error internal_error : DebugServerError

pub data DebugWireErrorCode : Type 0 where
  method_not_found invalid_params : DebugWireErrorCode
  server_error : DebugServerError → DebugWireErrorCode

pub record DebugWireError : Type 0 where
  pub code : DebugWireErrorCode
  pub message : String

-- What a payload turns out to be when its handler takes it: the typed request, one that is still
-- referred to elsewhere, or one of another type.
pub data Payload (D : Type 0) : Type 0 where
  typed referenced : D → Payload D
  foreign : Payload D

-- `V` is the type of JSON values.
pub record DebugQueuedRequest (V D : Type 0) : Type 0 where
  pub id : V
  pub payload : Payload D
  pub generation : ℕ

pub record DebugResponse (V : Type 0) : Type 0 where
  pub id : V
  pub result : Result DebugWireError V
  pub generation : ℕ

pub record DebugTopicChannel (V D : Type 0) : Type 0 where
  pub inbox : List (DebugQueuedRequest V D)
  pub outbox : List (DebugResponse V)
  pub pending : ℕ
  pub owner_gate : RuntimeGate
  pub runtime_gate : RuntimeGate

abbrev pub debug_max_pending : ℕ
debug_max_pending = 16

-- How a handler ends: its reply as JSON or the error of the conversion, its own error, or a panic.
pub data HandlerEnd (V : Type 0) : Type 0 where
  replied : Result String V → HandlerEnd V
  failed : String → HandlerEnd V
  panicked : HandlerEnd V

-- The handler with its system state, on the world as `S`.
pub record Handler (S V D : Type 0) : Type 0 where
  pub params_valid : S → Bool
  pub handle : S → D → S × HandlerEnd V

abbrev pub server : DebugServerError → String → DebugWireError
server e text = record { code = server_error e; message = text }

module _ {V D : Type 0} where
  unfoldable pub enqueue :
      V
      → Payload D
      → ℕ
      → DebugTopicChannel V D
      → DebugTopicChannel V D × Result DebugWireError (Unit {0})
  enqueue id payload generation c =
      if leb debug_max_pending c.pending
      then (c, err (server queue_full "topic pending capacity reached"))
      else (
        record c {
          inbox = c.inbox ++ record { id = id; payload = payload; generation = generation } ∷ [];
          pending = (c.pending + 1) % 2 ^ 64;
        },
        ok tt,
      )

  unfoldable pub dispatchable : DebugTopicChannel V D → Bool
  unfolding is_open
  dispatchable c = is_open c.runtime_gate && is_open c.owner_gate

  -- `fetch_sub`, which wraps.
  unfoldable pub leave_pending : DebugTopicChannel V D → DebugTopicChannel V D
  leave_pending c = record c { pending = (c.pending + (2 ^ 64 - 1)) % 2 ^ 64 }

  -- The push to the outbox, and `leave_pending`.
  unfoldable pub respond :
      DebugQueuedRequest V D
      → Result DebugWireError V
      → DebugTopicChannel V D
      → DebugTopicChannel V D
  unfolding leave_pending
  respond q r c = leave_pending (record c {
    outbox = c.outbox ++ record { id = q.id; result = r; generation = q.generation } ∷ [];
  })

  -- What happens inside `catch_unwind`; `none` is a panic.
  module _ {S : Type 0} (h : Handler S V D) where
    ended : S × HandlerEnd V → S × Option (Result DebugWireError V)
    ended (s, replied (ok v)) = (s, some (ok v))
    ended (s, replied (err text)) = (s, some (err (server internal_error text)))
    ended (s, failed text) = (s, some (err (server handler_error text)))
    ended (s, panicked) = (s, none)

    unfoldable pub attempt : S → Payload D → S × Option (Result DebugWireError V)
    unfolding ended
    attempt s (typed d) =
        if h.params_valid s
        then ended (h.handle s d)
        else (s, some (err (server plugin_unavailable "handler params no longer valid")))
    attempt s (referenced d) =
        (s, some (err (server internal_error "queued request has extra references")))
    attempt s foreign = (s, some (err (server internal_error "queued request type mismatch")))

    -- The loop over the drained requests. At a panic the rest goes back to the front of the inbox, in
    -- its order; the flag says whether the run returned without an error.
    unfoldable pub serve :
        List (DebugQueuedRequest V D) → S → DebugTopicChannel V D → S × DebugTopicChannel V D × Bool
    serve [] s c = (s, c, true)
    serve (q ∷ qs) s c =
        let (s', r) = attempt s q.payload in
        elim r [
          | some a ↦ serve qs s' (respond q a c)
          | none ↦ (
            s',
            respond q (err (server plugin_unavailable "debug handler panicked"))
                (record c { inbox = qs ++ c.inbox }),
            false,
          )
        ]

    unfoldable pub run : S → DebugTopicChannel V D → S × DebugTopicChannel V D × Bool
    run s c = serve c.inbox s (record c { inbox = [] })
