-- ===== src/Plugins/Debug/Dispatch/Own.antt =====
-- The topics get only the requests that were made to them.
use Prim.Native.String.{String}
use text.Mathlib.Text.{◌==◌ as str_eq}
use text.Mathlib.TextEquality.{eq_iff}
use shiny_song_tools.Prelude.{
  ℕ, ◌+◌, ◌≤◌, ◌≡◌, refl, ap, arith, Bool, not, if-elim, Option, none, some, List, [], ◌∷◌, leb,
  Result, Result-elim,
}
use shiny_song_tools.Core.Gate.{is_open}
use shiny_song_tools.Core.Debug.{
  DebugWireError, DebugTopicChannel, debug_max_pending, enqueue, dispatchable,
}
use shiny_song_tools.Runtime.Topics.{TopicEntry}
use shiny_song_tools.Plugins.Debug.{Json, WireRequest, DebugTransport, Refusal}
use shiny_song_tools.Plugins.Debug.Dispatch.{
  Topics, settle_enqueue, offer, offer_to_topic, answer_with, dispatch_after, dispatch_one,
  dispatch_all, drain_topics, of_generation, run_dispatch,
}
use shiny_song_tools.Plugins.Debug.Dispatch.Counted.{picked, queued, queued-append}

-- Here `p` also sees a topic's name: that of the topic where a request waits, or that of the one to which
-- it was made.
module _ {V : Type 0} (p : String → V → ℕ → Bool) where
  abbrev pub waiting : {D : Type 0} → List (TopicEntry V D) → ℕ
  waiting [] = 0
  waiting (e ∷ es) = queued (p e.name) e.channel.inbox + waiting es

  abbrev pub made : List (WireRequest V) → ℕ
  made [] = 0
  made (q ∷ qs) = picked (p q.method) q.id q.generation + made qs

module _ (json : Json) (p : String → json.Value → ℕ → Bool) {D : Type 0} where
  -- An offered request waits at this topic, if it waits at all.
  abbrev Gains :
      WireRequest json.Value
      → TopicEntry json.Value D
      → Option Refusal × TopicEntry json.Value D
      → Type 0
  Gains q e x =
      (x.1.name ≡ e.name)
      × (queued (p e.name) x.1.channel.inbox
          ≤ queued (p e.name) e.channel.inbox + picked (p e.name) q.id q.generation)

  offer-Gains :
      (topics : Topics json D) (q : WireRequest json.Value) (e : TopicEntry json.Value D)
      → Gains q e (offer json topics q e)
  unfolding offer settle_enqueue enqueue
  offer-Gains topics q e =
      if-elim (Gains q e) (not (dispatchable e.channel)) _ _ (λ h. (refl, omega arith))
        (λ h.
          Result-elim (Gains q e) (topics.decode e q.params) _
            (λ payload. settle_enqueue json e (enqueue q.id payload q.generation e.channel))
            (λ message. (refl, omega arith))
            (λ payload.
              if-elim
                (λ (y : DebugTopicChannel json.Value D × Result DebugWireError (Unit {0})).
                  Gains q e (settle_enqueue json e y))
                (leb debug_max_pending e.channel.pending) _ _ (λ full. (refl, omega arith))
                (λ room. (
                  refl,
                  omega (
                    arith,
                    queued-append (p e.name) e.channel.inbox
                        (record { id = q.id; payload = payload; generation = q.generation }),
                  ),
                ))))

  abbrev Room :
      WireRequest json.Value
      → List (TopicEntry json.Value D)
      → List (TopicEntry json.Value D)
      → Type 0
  Room q es es' = waiting p es' ≤ waiting p es + picked (p q.method) q.id q.generation

  offer_to_topic-Room :
      (topics : Topics json D) (q : WireRequest json.Value) (es : List (TopicEntry json.Value D))
      → Room q es (offer_to_topic json topics q es).1
  unfolding offer_to_topic
  offer_to_topic-Room topics q [] = omega arith
  offer_to_topic-Room topics q (e ∷ es) =
      let (name, gain) = offer-Gains topics q e in
      let later = offer_to_topic-Room topics q es in
      let e' = (offer json topics q e).1 in
      if-elim (λ (x : Option Refusal × List (TopicEntry json.Value D)). Room q (e ∷ es) x.1)
        (str_eq e.name q.method) _ _
        (λ here.
          let same : e.name ≡ q.method = ground (arith, here, eq_iff e.name q.method) in
          let weight = ap (λ n. picked (p n) q.id q.generation) same in
          let kept = ap (λ n. queued (p n) e'.channel.inbox) name in
          omega (arith, gain, weight, kept))
        (λ there. omega (arith, later))

  dispatch_after-Room :
      (shown : Option json.Value) (topics : Topics json D) (q : WireRequest json.Value)
      (t : DebugTransport json.Value) (es : List (TopicEntry json.Value D))
      → Room q es (dispatch_after json shown topics q t es).1
  unfolding dispatch_after answer_with
  dispatch_after-Room (some payload) topics q t es = omega arith
  dispatch_after-Room none topics q t es =
      if-elim (λ (x : DebugTransport json.Value × List (TopicEntry json.Value D)). Room q es x.1)
        (not (is_open t.runtime_gate)) _ _ (λ h. omega arith)
        (λ h. answered (offer_to_topic json topics q es) (offer_to_topic-Room topics q es))
    where
      answered :
          (x : Option Refusal × List (TopicEntry json.Value D))
          → Room q es x.1
          → Room q es (answer_with json q t x).1
      answered (none, es') h = h
      answered (some r, es') h = h

  dispatch_all-made :
      (topics : Topics json D) (qs : List (WireRequest json.Value)) (t : DebugTransport json.Value)
      (es : List (TopicEntry json.Value D))
      → waiting p (dispatch_all json topics qs (t, es)).1 ≤ waiting p es + made p qs
  unfolding dispatch_all dispatch_one
  dispatch_all-made topics [] t es = omega arith
  dispatch_all-made topics (q ∷ qs) t es =
      let x = dispatch_one json topics q (t, es) in
      let first = dispatch_after-Room (topics.introspect q.method) topics q t es in
      let rest = dispatch_all-made topics qs x.0 x.1 in omega (arith, first, rest)

  drain_topics-waiting :
      (current : ℕ) (es : List (TopicEntry json.Value D)) (t : DebugTransport json.Value)
      → waiting p (drain_topics json current es t).1 ≡ waiting p es
  unfolding drain_topics
  drain_topics-waiting current [] t = refl
  drain_topics-waiting current (e ∷ es) t = omega (arith, drain_topics-waiting current es _)

  -- A run of the Update system adds to a topic's queue nothing but requests to that topic.
  pub run_dispatch-made :
      (topics : Topics json D) (t : DebugTransport json.Value) (es : List (TopicEntry json.Value D))
      → waiting p (run_dispatch json topics (t, es)).1
        ≤ waiting p es + made p (of_generation json t.generation t.inbox)
  unfolding run_dispatch
  run_dispatch-made topics t es =
      let qs = of_generation json t.generation t.inbox in
      let x = dispatch_all json topics qs (record t { inbox = [] }, es) in
      omega (
        arith,
        dispatch_all-made topics qs (record t { inbox = [] }) es,
        drain_topics-waiting t.generation x.1 x.0,
      )
