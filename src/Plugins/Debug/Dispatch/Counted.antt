-- ===== src/Plugins/Debug/Dispatch/Counted.antt =====
-- The requests and responses in the places of the debug plugin, counted.
use shiny_song_tools.Prelude.{
  ℕ, ◌+◌, ◌<◌, ◌≡◌, refl, ap, ◌∙◌, arith, Bool, ◌==◌, if-elim, Option, none, some, List, [], ◌∷◌,
  ◌++◌, length, length-append, leb, if◌then◌else◌,
}
use shiny_song_tools.Core.Debug.{DebugQueuedRequest, DebugResponse}
use shiny_song_tools.Runtime.Topics.{TopicEntry}
use shiny_song_tools.Plugins.Debug.{
  Json, WireRequest, WireResponse, DebugTransport, Refusal, max_outbox_responses, push_response,
  ok_body, error_body, respond_ok, respond_error,
}

-- How many of the requests and responses in a place have an id and a generation that `p` picks. Each has
-- its own `p`, so that equal counts for all `p` mean that the place holds the same ones.
module _ {V : Type 0} (p : V → ℕ → Bool) where
  abbrev pub picked : V → ℕ → ℕ
  picked id g = if p id g then 1 else 0

  abbrev pub requests : List (WireRequest V) → ℕ
  requests [] = 0
  requests (q ∷ qs) = picked q.id q.generation + requests qs

  abbrev pub queued : {D : Type 0} → List (DebugQueuedRequest V D) → ℕ
  queued [] = 0
  queued (q ∷ qs) = picked q.id q.generation + queued qs

  -- The responses of the connection `current`.
  abbrev pub answers : ℕ → List (DebugResponse V) → ℕ
  answers current [] = 0
  answers current (r ∷ rs) =
      (if r.generation == current then picked r.id r.generation else 0) + answers current rs

  abbrev pub topic_requests : {D : Type 0} → List (TopicEntry V D) → ℕ
  topic_requests [] = 0
  topic_requests (e ∷ es) = queued e.channel.inbox + topic_requests es

  abbrev pub topic_answers : {D : Type 0} → ℕ → List (TopicEntry V D) → ℕ
  topic_answers current [] = 0
  topic_answers current (e ∷ es) = answers current e.channel.outbox + topic_answers current es

  pub queued-append :
      {D : Type 0} (qs : List (DebugQueuedRequest V D)) (q : DebugQueuedRequest V D)
      → queued (qs ++ q ∷ []) ≡ queued qs + picked q.id q.generation
  queued-append [] q = omega arith
  queued-append (x ∷ qs) q = omega (arith, queued-append qs q)

-- The number of responses in the topics.
abbrev pub replies : {V D : Type 0} → List (TopicEntry V D) → ℕ
replies [] = 0
replies (e ∷ es) = length e.channel.outbox + replies es

module _ (json : Json) (p : json.Value → ℕ → Bool) where
  -- A response on the wire by the id in its body.
  abbrev pub by_id : Option json.Value → ℕ → ℕ
  by_id none g = 0
  by_id (some id) g = picked p id g

  abbrev pub responses : List (WireResponse json.Value) → ℕ
  responses [] = 0
  responses (r ∷ rs) = by_id (json.get "id" r.body) r.generation + responses rs

  responses-append :
      (rs : List (WireResponse json.Value)) (r : WireResponse json.Value)
      → responses (rs ++ r ∷ []) ≡ responses rs + by_id (json.get "id" r.body) r.generation
  responses-append [] r = omega arith
  responses-append (x ∷ rs) r = omega (arith, responses-append rs r)

  -- A response with this id and generation was added, and nothing else.
  abbrev pub Pushed :
      json.Value → ℕ → DebugTransport json.Value → DebugTransport json.Value → Type 0
  Pushed id g t t' =
      (responses t'.outbox ≡ responses t.outbox + picked p id g)
      × (length t'.outbox ≡ length t.outbox + 1)

  push_response-Pushed :
      (body id : json.Value) (g : ℕ) (t : DebugTransport json.Value)
      → json.get "id" body ≡ some id
      → length t.outbox < max_outbox_responses
      → Pushed id g t (push_response body g t)
  unfolding push_response
  push_response-Pushed body id g t e room =
      if-elim (Pushed id g t) (leb max_outbox_responses (length t.outbox)) _ _
        (λ full. absurd (ground (arith, full, room)))
        (λ h. (
          responses-append t.outbox (record { body = body; generation = g })
              ∙ ap (λ o. responses t.outbox + by_id o g) e,
          length-append t.outbox (record { body = body; generation = g } ∷ []),
        ))

  pub respond_ok-Pushed :
      (id result : json.Value) (g : ℕ) (t : DebugTransport json.Value)
      → length t.outbox < max_outbox_responses
      → Pushed id g t (respond_ok json id result g t)
  unfolding respond_ok
  respond_ok-Pushed id result g t room =
      push_response-Pushed (ok_body json id result) id g t
        (json.get_second "jsonrpc" "id" _ id _ refl) room

  pub respond_error-Pushed :
      (id : json.Value) (x : Refusal) (g : ℕ) (t : DebugTransport json.Value)
      → length t.outbox < max_outbox_responses
      → Pushed id g t (respond_error json id x g t)
  unfolding respond_error
  respond_error-Pushed id x g t room =
      push_response-Pushed (error_body json id x) id g t
        (json.get_second "jsonrpc" "id" _ id _ refl) room
