-- ===== src/Plugins/Debug/Dispatch/Offered.antt =====
-- What the loop over the requests does to the counts.
use text.Mathlib.Text.{◌==◌ as str_eq}
use shiny_song_tools.Prelude.{
  ℕ, ◌+◌, ◌≤◌, ◌<◌, ◌≡◌, refl, ap, ◌∙◌, arith, Bool, not, if-elim, Option, none, some, List, [],
  ◌∷◌, length, leb, Result, Result-elim,
}
use shiny_song_tools.Core.Gate.{is_open}
use shiny_song_tools.Core.Debug.{
  DebugResponse, DebugWireError, DebugTopicChannel, debug_max_pending, enqueue, dispatchable,
  runtime_unavailable,
}
use shiny_song_tools.Runtime.Topics.{TopicEntry}
use shiny_song_tools.Plugins.Debug.{
  Json, WireRequest, DebugTransport, Refusal, max_outbox_responses,
}
use shiny_song_tools.Plugins.Debug.Dispatch.{
  Topics, refused_by, settle_enqueue, offer, offer_to_topic, answer_with, dispatch_after,
  dispatch_one, dispatch_all,
}
use shiny_song_tools.Plugins.Debug.Dispatch.Counted.{
  picked, requests, queued, answers, topic_requests, topic_answers, queued-append, replies,
  responses, Pushed, respond_ok-Pushed, respond_error-Pushed,
}

module _ (json : Json) (p : json.Value → ℕ → Bool) where
  abbrev answered : ℕ → Option Refusal → ℕ
  answered n none = 0
  answered n (some x) = n

  module _ {D : Type 0} where
    -- An offered request is in its topic, or is to be answered; the topic's responses json p stay.
    abbrev Offered :
        WireRequest json.Value
        → TopicEntry json.Value D
        → Option Refusal × TopicEntry json.Value D
        → Type 0
    Offered q e x =
        (queued p x.1.channel.inbox + answered (picked p q.id q.generation) x.0
          ≡ queued p e.channel.inbox + picked p q.id q.generation)
        × (x.1.channel.outbox ≡ e.channel.outbox)

    offer-Offered :
        (topics : Topics json D) (q : WireRequest json.Value) (e : TopicEntry json.Value D)
        → Offered q e (offer json topics q e)
    unfolding offer settle_enqueue enqueue
    offer-Offered topics q e =
        if-elim (Offered q e) (not (dispatchable e.channel)) _ _ (λ h. (refl, refl))
          (λ h.
            Result-elim (Offered q e) (topics.decode e q.params) _
              (λ payload. settle_enqueue json e (enqueue q.id payload q.generation e.channel))
              (λ message. (refl, refl))
              (λ payload.
                if-elim
                  (λ (y : DebugTopicChannel json.Value D × Result DebugWireError (Unit {0})).
                    Offered q e (settle_enqueue json e y))
                  (leb debug_max_pending e.channel.pending) _ _ (λ full. (refl, refl))
                  (λ room. (
                    omega (
                      arith,
                      queued-append p e.channel.inbox
                          (record { id = q.id; payload = payload; generation = q.generation }),
                    ),
                    refl,
                  ))))

    -- The same over all topics.
    record OfferedAll (q : WireRequest json.Value) (current : ℕ)
        (es : List (TopicEntry json.Value D)) (x : Option Refusal × List (TopicEntry json.Value D))
        : Type 0 where
      moved :
          topic_requests p x.1 + answered (picked p q.id q.generation) x.0
          ≡ topic_requests p es + picked p q.id q.generation
      pub same_answers : topic_answers p current x.1 ≡ topic_answers p current es
      pub same_replies : replies x.1 ≡ replies es

    offer_to_topic-OfferedAll :
        (topics : Topics json D) (q : WireRequest json.Value) (current : ℕ)
        (es : List (TopicEntry json.Value D))
        → OfferedAll q current es (offer_to_topic json topics q es)
    unfolding offer_to_topic
    offer_to_topic-OfferedAll topics q current [] = record {
      moved = refl;
      same_answers = refl;
      same_replies = refl;
    }
    offer_to_topic-OfferedAll topics q current (e ∷ es) =
        let (moved, outbox) = offer-Offered topics q e in
        let later = offer_to_topic-OfferedAll topics q current es in
        if-elim (OfferedAll q current (e ∷ es)) (str_eq e.name q.method) _ _
          (λ here. record {
            moved = omega (arith, moved);
            same_answers = ap (λ us. answers p current us + topic_answers p current es) outbox;
            same_replies =
                ap (λ (us : List (DebugResponse json.Value)). length us + replies es) outbox;
          })
          (λ there. record {
            moved = omega (arith, later.moved);
            same_answers = ap (λ n. answers p current e.channel.outbox + n) later.same_answers;
            same_replies = ap (λ n. length e.channel.outbox + n) later.same_replies;
          })

    -- The total of the wire and the topics grew by `n`, with at most `k` responses.
    pub record Adds (n k current : ℕ)
        (x x' : DebugTransport json.Value × List (TopicEntry json.Value D)) : Type 0 where
      pub total :
          responses json p x'.0.outbox + topic_requests p x'.1
          ≡ responses json p x.0.outbox + topic_requests p x.1 + n
      pub growth : length x'.0.outbox ≤ length x.0.outbox + k
      pub same_answers : topic_answers p current x'.1 ≡ topic_answers p current x.1
      pub same_replies : replies x'.1 ≡ replies x.1

    answer_with-Adds :
        (q : WireRequest json.Value) (current : ℕ) (t : DebugTransport json.Value)
        (es : List (TopicEntry json.Value D)) (x : Option Refusal × List (TopicEntry json.Value D))
        → length t.outbox < max_outbox_responses
        → OfferedAll q current es x
        → Adds (picked p q.id q.generation) 1 current (t, es) (answer_with json q t x)
    unfolding answer_with
    answer_with-Adds q current t es (none, es') room h = record {
      total = omega (arith, h.moved);
      growth = omega arith;
      same_answers = h.same_answers;
      same_replies = h.same_replies;
    }
    answer_with-Adds q current t es (some x, es') room h =
        let (pushed, longer) = respond_error-Pushed json p q.id x q.generation t room in
        record {
          total = omega (arith, h.moved, pushed);
          growth = omega (arith, longer);
          same_answers = h.same_answers;
          same_replies = h.same_replies;
        }

    Pushed-Adds :
        (id : json.Value) (g current : ℕ) (t t' : DebugTransport json.Value)
        (es : List (TopicEntry json.Value D))
        → Pushed json p id g t t'
        → Adds (picked p id g) 1 current (t, es) (t', es)
    Pushed-Adds id g current t t' es (pushed, longer) = record {
      total = omega (arith, pushed);
      growth = omega (arith, longer);
      same_answers = refl;
      same_replies = refl;
    }

    dispatch_after-Adds :
        (shown : Option json.Value) (topics : Topics json D) (q : WireRequest json.Value)
        (current : ℕ) (t : DebugTransport json.Value) (es : List (TopicEntry json.Value D))
        → length t.outbox < max_outbox_responses
        → Adds
            (picked p q.id q.generation)
            1
            current
            (t, es)
            (dispatch_after json shown topics q t es)
    unfolding dispatch_after
    dispatch_after-Adds (some payload) topics q current t es room =
        Pushed-Adds q.id q.generation current t _ es
          (respond_ok-Pushed json p q.id payload q.generation t room)
    dispatch_after-Adds none topics q current t es room =
        if-elim (Adds (picked p q.id q.generation) 1 current (t, es)) (not (is_open t.runtime_gate))
          _ _
          (λ h. Pushed-Adds q.id q.generation current t _ es (
            respond_error-Pushed json p q.id (refused_by runtime_unavailable "runtime unavailable")
              q.generation t room))
          (λ h.
            answer_with-Adds q current t es (offer_to_topic json topics q es) room
              (offer_to_topic-OfferedAll topics q current es))

    pub dispatch_all-Adds :
        (topics : Topics json D) (qs : List (WireRequest json.Value)) (current : ℕ)
        (t : DebugTransport json.Value) (es : List (TopicEntry json.Value D))
        → length t.outbox + length qs ≤ max_outbox_responses
        → Adds (requests p qs) (length qs) current (t, es) (dispatch_all json topics qs (t, es))
    unfolding dispatch_all dispatch_one
    dispatch_all-Adds topics [] current t es room = record {
      total = omega arith;
      growth = omega arith;
      same_answers = refl;
      same_replies = refl;
    }
    dispatch_all-Adds topics (q ∷ qs) current t es room =
        let x = dispatch_one json topics q (t, es) in
        let first =
          dispatch_after-Adds (topics.introspect q.method) topics q current t es
            (omega (arith, room)) in
        let rest =
          dispatch_all-Adds topics qs current x.0 x.1 (omega (arith, room, first.growth)) in
        record {
          total = omega (arith, first.total, rest.total);
          growth = omega (arith, first.growth, rest.growth);
          same_answers = rest.same_answers ∙ first.same_answers;
          same_replies = rest.same_replies ∙ first.same_replies;
        }
