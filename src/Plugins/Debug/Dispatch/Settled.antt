-- ===== src/Plugins/Debug/Dispatch/Settled.antt =====
-- Where the requests and the responses are that the Update system moves.
use Prim.Native.String.{String}
use shiny_song_tools.Prelude.{
  ℕ, ◌+◌, ◌≤◌, ◌<◌, ◌≡◌, arith, Bool, ◌==◌, Bool-cases, inl, inr, List, [], ◌∷◌, length,
  Result-elim,
}
use shiny_song_tools.Core.Debug.{DebugResponse}
use shiny_song_tools.Runtime.Topics.{TopicEntry}
use shiny_song_tools.Plugins.Debug.{Json, WireRequest, DebugTransport, max_outbox_responses}
use shiny_song_tools.Plugins.Debug.Dispatch.{
  Topics, respond_result, refusal_of, forward, drain_topics, of_generation, dispatch_all,
  run_dispatch,
}
use shiny_song_tools.Plugins.Debug.Dispatch.Counted.{
  requests, answers, topic_requests, topic_answers, replies, responses, Pushed, respond_ok-Pushed,
  respond_error-Pushed,
}
use shiny_song_tools.Plugins.Debug.Dispatch.Offered.{dispatch_all-Adds}
use shiny_song_tools.Plugins.Debug.Dispatch.Own.{waiting, made, run_dispatch-made}

module _ (json : Json) (p : json.Value → ℕ → Bool) where
  respond_result-Pushed :
      (r : DebugResponse json.Value) (t : DebugTransport json.Value)
      → length t.outbox < max_outbox_responses
      → Pushed json p r.id r.generation t (respond_result json r t)
  unfolding respond_result
  respond_result-Pushed r t room =
      Result-elim (Pushed json p r.id r.generation t) r.result _ _
        (λ e. respond_error-Pushed json p r.id (refusal_of e.code e.message) r.generation t room)
        (λ value. respond_ok-Pushed json p r.id value r.generation t room)

  forward_lem :
      (current : ℕ) (rs : List (DebugResponse json.Value)) (t : DebugTransport json.Value)
      → length t.outbox + length rs ≤ max_outbox_responses
      → (responses json p (forward json current rs t).outbox
          ≡ responses json p t.outbox + answers p current rs)
        × (length (forward json current rs t).outbox ≤ length t.outbox + length rs)
  unfolding forward
  forward_lem current [] t room = omega arith
  forward_lem current (r ∷ rs) t room = elim (Bool-cases (r.generation == current)) [
    | inl mine ↦
        let (pushed, longer) = respond_result-Pushed r t (omega (arith, room)) in
        let (found, bound) =
          forward_lem current rs (respond_result json r t) (omega (arith, room, longer)) in
        ground (arith, mine, pushed, longer, found, bound)
    | inr other ↦
        let (found, bound) = forward_lem current rs t (omega (arith, room)) in
        ground (arith, other, found, bound)
  ]

  length-of_generation :
      (current : ℕ) (qs : List (WireRequest json.Value))
      → length (of_generation json current qs) ≤ length qs
  unfolding of_generation
  length-of_generation current [] = omega arith
  length-of_generation current (q ∷ qs) = ground (arith, length-of_generation current qs)

  module _ {D : Type 0} where
    drain_topics_lem :
        (current : ℕ) (es : List (TopicEntry json.Value D)) (t : DebugTransport json.Value)
        → length t.outbox + replies es ≤ max_outbox_responses
        → (responses json p (drain_topics json current es t).0.outbox
            ≡ responses json p t.outbox + topic_answers p current es)
          × (topic_requests p (drain_topics json current es t).1 ≡ topic_requests p es)
          × (replies (drain_topics json current es t).1 ≡ 0)
    unfolding drain_topics
    drain_topics_lem current [] t room = omega arith
    drain_topics_lem current (e ∷ es) t room =
        let (found, bound) = forward_lem current e.channel.outbox t (omega (arith, room)) in
        let (rest, kept, empty) =
          drain_topics_lem current es (forward json current e.channel.outbox t)
            (omega (arith, room, bound)) in
        omega (arith, found, rest, kept, empty)

    -- A run of the Update system, where the outbox has room for an answer to each waiting request and each
    -- response of a topic. Every request of the current connection has then exactly one place, an answer in
    -- the outbox or its topic's queue, and every response of the current connection is in the outbox once,
    -- beside what was there before: for any choice of ids and generations there are as many of them after
    -- the run as before, and none of other connections is added. No response is left in a topic. What the
    -- queue of a topic has gained was made to this topic by its name: for any choice of names, ids and
    -- generations at most as many of them wait at topics of these names as waited there and were made to
    -- them.
    pub run_dispatch-counts :
        (named : String → json.Value → ℕ → Bool) (topics : Topics json D)
        (t : DebugTransport json.Value) (es : List (TopicEntry json.Value D))
        → length t.outbox + (length t.inbox + replies es) ≤ max_outbox_responses
        → let (t', es') = run_dispatch json topics (t, es) in
          (responses json p t'.outbox + topic_requests p es'
            ≡ (responses json p t.outbox + topic_requests p es)
              + (requests p (of_generation json t.generation t.inbox)
                  + topic_answers p t.generation es))
          × (replies es' ≡ 0)
          × (waiting named es'
              ≤ waiting named es + made named (of_generation json t.generation t.inbox))
    unfolding run_dispatch
    run_dispatch-counts named topics t es room =
        let qs = of_generation json t.generation t.inbox in
        let short = length-of_generation t.generation t.inbox in
        let t0 : DebugTransport json.Value = record t { inbox = [] } in
        let moved =
          dispatch_all-Adds json p topics qs t.generation t0 es (omega (arith, room, short)) in
        let x = dispatch_all json topics qs (t0, es) in
        let (found, kept, empty) =
          drain_topics_lem t.generation x.1 x.0
            (omega (arith, room, short, moved.growth, moved.same_replies)) in
        (
          omega (arith, moved.total, moved.same_answers, found, kept, empty),
          empty,
          run_dispatch-made json named topics t es,
        )
