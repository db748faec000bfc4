-- ===== src/Core/Debug/Relay/Order.antt =====
-- The order of the requests that pass the relay.
use shiny_song_tools.Prelude.{ℕ, ◌≡◌, some, List, [], ◌∷◌, ◌++◌}
use shiny_song_tools.Core.Mailbox.{Slot}
use shiny_song_tools.Core.Debug.{
  Payload, typed, referenced, foreign, DebugQueuedRequest, DebugResponse,
}
use shiny_song_tools.Core.Debug.Relay.{Answer, shared, CallbackRelay}

module _ {D : Type 0} where
  abbrev pub IsTypedPayload : Payload D → Type 0
  IsTypedPayload (typed d) = Unit
  IsTypedPayload (referenced d) = Unit
  IsTypedPayload foreign = ⊥

module _ {V : Type 0} where
  abbrev pub served : List (DebugResponse V) → List (V × ℕ)
  served [] = []
  served (r ∷ rs) = (r.id, r.generation) ∷ served rs

  -- No callback leaves a response that it still refers to.
  abbrev pub LeavesOwn : (Slot (Answer V) → Slot (Answer V)) → Type 0
  LeavesOwn others = (s : Slot (Answer V)) → (others s).value ≡ some shared → ⊥

module _ {V D : Type 0} where
  abbrev pub waiting : List (DebugQueuedRequest V D) → List (V × ℕ)
  waiting [] = []
  waiting (q ∷ qs) = (q.id, q.generation) ∷ waiting qs

  -- The ids in the order of the conversation: answered, delivered, and still queued.
  abbrev pub tickets : CallbackRelay V D → List (V × ℕ)
  tickets r = served r.channel.outbox ++ (r.in_flight ++ waiting r.channel.inbox)

  -- The payload has the type of the topic.
  abbrev pub IsTyped : DebugQueuedRequest V D → Type 0
  IsTyped q = IsTypedPayload q.payload
