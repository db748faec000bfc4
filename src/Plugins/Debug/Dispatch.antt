-- ===== src/Plugins/Debug/Dispatch.antt =====
-- crates/debug/src/lib.rs: the Update system, which takes the requests of the current connection to their
-- topics, and the topics' responses back. It runs on the main thread, the one that uses the channels.
pub mod Counted
pub mod Offered
pub mod Own
pub mod Settled
use Prim.Native.String.{String}
use Prim.Native.String.{◌++◌ as join}
use text.Mathlib.Text.{◌==◌ as str_eq}
use shiny_song_tools.Prelude.{
  ℕ, ◌==◌, Bool, true, false, not, Option, none, some, List, [], ◌∷◌, ◌++◌, if◌then◌else◌, Result,
  ok, err,
}
use shiny_song_tools.Core.Gate.{is_open}
use shiny_song_tools.Core.Debug.{
  DebugServerError, runtime_unavailable, queue_full, payload_too_large, plugin_unavailable,
  handler_error, internal_error, DebugWireErrorCode, method_not_found, invalid_params, server_error,
  DebugWireError, Payload, DebugResponse, DebugTopicChannel, enqueue, dispatchable,
}
use shiny_song_tools.Runtime.Topics.{TopicEntry}
use shiny_song_tools.Plugins.Debug.{
  Json, WireRequest, DebugTransport, Refusal, plain, respond_ok, respond_error,
}

abbrev pub code_name : DebugServerError → String
code_name runtime_unavailable = "runtime_unavailable"
code_name queue_full = "queue_full"
code_name payload_too_large = "payload_too_large"
code_name plugin_unavailable = "plugin_unavailable"
code_name handler_error = "handler_error"
code_name internal_error = "internal_error"

unfoldable pub map_wire_code : DebugWireErrorCode → ℕ
map_wire_code method_not_found = 32601
map_wire_code invalid_params = 32602
map_wire_code (server_error e) = 32000

abbrev pub refused_by : DebugServerError → String → Refusal
refused_by e message = record { code = 32000; data_code = some (code_name e); message = message }

unfoldable pub refusal_of : DebugWireErrorCode → String → Refusal
unfolding map_wire_code
refusal_of (server_error e) message = refused_by e message
refusal_of method_not_found message = plain (map_wire_code method_not_found) message
refusal_of invalid_params message = plain (map_wire_code invalid_params) message

-- What the dispatch uses of the runtime: the introspection, if there is one, and the decoders of the topics.
pub record Topics (json : Json) (D : Type 0) : Type 0 where
  pub introspect : String → Option json.Value
  pub decode : TopicEntry json.Value D → json.Value → Result String (Payload D)

module _ (json : Json) where
  unfoldable pub respond_result :
      DebugResponse json.Value → DebugTransport json.Value → DebugTransport json.Value
  unfolding respond_ok respond_error refusal_of
  respond_result r t = elim r.result [
    | ok value ↦ respond_ok json r.id value r.generation t
    | err e ↦ respond_error json r.id (refusal_of e.code e.message) r.generation t
  ]

  -- The loop over the responses of one topic.
  unfoldable pub forward :
      ℕ → List (DebugResponse json.Value) → DebugTransport json.Value → DebugTransport json.Value
  unfolding respond_result
  forward current [] t = t
  forward current (r ∷ rs) t =
      forward current rs (if not (r.generation == current) then t else respond_result r t)

  -- The requests of the connection `current`.
  unfoldable pub of_generation : ℕ → List (WireRequest json.Value) → List (WireRequest json.Value)
  of_generation current [] = []
  of_generation current (q ∷ qs) =
      let rest = of_generation current qs in if q.generation == current then q ∷ rest else rest

module _ (json : Json) {D : Type 0} where
  -- `none` where the topic's channel took the request.
  unfoldable pub settle_enqueue :
      TopicEntry json.Value D
      → DebugTopicChannel json.Value D × Result DebugWireError (Unit {0})
      → Option Refusal × TopicEntry json.Value D
  settle_enqueue e (c, ok u) = (none, record e { channel = c })
  settle_enqueue e (c, err x) =
      (some (refused_by queue_full "topic pending capacity reached"), record e { channel = c })

  -- The decoding and the queueing, for a topic that was found.
  unfoldable pub offer :
      Topics json D
      → WireRequest json.Value
      → TopicEntry json.Value D
      → Option Refusal × TopicEntry json.Value D
  unfolding settle_enqueue enqueue dispatchable
  offer topics q e =
      if not (dispatchable e.channel)
      then (some (refused_by plugin_unavailable "plugin unavailable"), e)
      else elim (topics.decode e q.params) [
        | err message ↦ (some (plain 32602 (join "invalid params: " message)), e)
        | ok payload ↦ settle_enqueue e (enqueue q.id payload q.generation e.channel)
      ]

  -- The search of the topic by its name, and what happens there.
  unfoldable pub offer_to_topic :
      Topics json D
      → WireRequest json.Value
      → List (TopicEntry json.Value D)
      → Option Refusal × List (TopicEntry json.Value D)
  unfolding offer
  offer_to_topic topics q [] = (some (plain 32601 "method not found"), [])
  offer_to_topic topics q (e ∷ es) =
      let (answer, e') = offer topics q e in
      let (later, es') = offer_to_topic topics q es in
      if str_eq e.name q.method then (answer, e' ∷ es) else (later, e ∷ es')

  unfoldable pub answer_with :
      WireRequest json.Value
      → DebugTransport json.Value
      → Option Refusal × List (TopicEntry json.Value D)
      → DebugTransport json.Value × List (TopicEntry json.Value D)
  unfolding respond_error
  answer_with q t (none, es) = (t, es)
  answer_with q t (some x, es) = (respond_error json q.id x q.generation t, es)

  -- The body of the loop over the requests, from the answer of the introspection on.
  unfoldable pub dispatch_after :
      Option json.Value
      → Topics json D
      → WireRequest json.Value
      → DebugTransport json.Value
      → List (TopicEntry json.Value D)
      → DebugTransport json.Value × List (TopicEntry json.Value D)
  unfolding answer_with offer_to_topic respond_ok respond_error is_open
  dispatch_after (some payload) topics q t es = (respond_ok json q.id payload q.generation t, es)
  dispatch_after none topics q t es =
      if not (is_open t.runtime_gate)
      then (
        respond_error json q.id (refused_by runtime_unavailable "runtime unavailable") q.generation
            t,
        es,
      )
      else answer_with q t (offer_to_topic topics q es)

  unfoldable pub dispatch_one :
      Topics json D
      → WireRequest json.Value
      → DebugTransport json.Value × List (TopicEntry json.Value D)
      → DebugTransport json.Value × List (TopicEntry json.Value D)
  unfolding dispatch_after
  dispatch_one topics q (t, es) = dispatch_after (topics.introspect q.method) topics q t es

  unfoldable pub dispatch_all :
      Topics json D
      → List (WireRequest json.Value)
      → DebugTransport json.Value × List (TopicEntry json.Value D)
      → DebugTransport json.Value × List (TopicEntry json.Value D)
  unfolding dispatch_one
  dispatch_all topics [] x = x
  dispatch_all topics (q ∷ qs) x = dispatch_all topics qs (dispatch_one topics q x)

  unfoldable pub drain_topics :
      ℕ
      → List (TopicEntry json.Value D)
      → DebugTransport json.Value
      → DebugTransport json.Value × List (TopicEntry json.Value D)
  unfolding forward
  drain_topics current [] t = (t, [])
  drain_topics current (e ∷ es) t =
      let (t', es') = drain_topics current es (forward json current e.channel.outbox t) in
      (t', record e { channel = record e.channel { outbox = [] } } ∷ es')

  -- `DebugDispatchSystem::run`.
  unfoldable pub run_dispatch :
      Topics json D
      → DebugTransport json.Value × List (TopicEntry json.Value D)
      → DebugTransport json.Value × List (TopicEntry json.Value D)
  unfolding dispatch_all drain_topics of_generation
  run_dispatch topics (t, es) =
      let current = t.generation in
      let (t', es') =
        dispatch_all topics (of_generation json current t.inbox) (record t { inbox = [] }, es) in
      drain_topics current es' t'
