-- ===== src/Plugins/Debug/Invariant.antt =====
-- What stays true of the transport, whatever comes.
use Prim.Native.String.{String}
use text.Mathlib.Text.{◌==◌ as str_eq}
use text.Mathlib.TextEquality.{eq_iff}
use shiny_song_tools.Prelude.{
  ℕ, ◌≤◌, ◌≡◌, refl, arith, false, ◌==◌, not, Result, ok, err, if-elim, Option, none, some, List,
  [], ◌∷◌, ◌++◌, length, length-append, leb, if◌then◌else◌,
}
use shiny_song_tools.Plugins.Debug.{
  Json, ok_body, respond_ok, WireRequest, DebugTransport, Refusal, contains, duplicate_id,
  inbox_full, max_inbox_requests, max_outbox_responses, push_response, trackable_id, error_body,
  respond_error, accept, admit_key, admit, Envelope, bad, good, read_frame, settle_envelope,
  handle_frame,
}
use shiny_song_tools.Core.Gate.{is_open}
use shiny_song_tools.Core.Debug.{DebugResponse, DebugWireError, runtime_unavailable}
use shiny_song_tools.Runtime.Topics.{TopicEntry}
use shiny_song_tools.Plugins.Debug.Dispatch.{
  Topics, respond_result, forward, drain_topics, of_generation, offer_to_topic, answer_with,
  dispatch_after, refused_by, refusal_of, dispatch_one, dispatch_all, run_dispatch,
}

-- The keys of the active ids are different.
abbrev pub AreDistinct : List String → Type 0
AreDistinct [] = Unit
AreDistinct (k ∷ ks) = (contains k ks ≡ false) × AreDistinct ks

contains-append :
    (k x : String) (ks : List String)
    → contains k ks ≡ false
    → str_eq x k ≡ false
    → contains k (ks ++ x ∷ []) ≡ false
unfolding contains
contains-append k x [] h e = ground (arith, e)
contains-append k x (a ∷ ks) h e = ground (arith, e, h, contains-append k x ks)

str_eq_sym : (a b : String) → str_eq a b ≡ false → str_eq b a ≡ false
str_eq_sym a b h = ground (arith, h, eq_iff a b, eq_iff b a)

AreDistinct-append :
    (k : String) (ks : List String)
    → AreDistinct ks
    → contains k ks ≡ false
    → AreDistinct (ks ++ k ∷ [])
unfolding contains
AreDistinct-append k [] d h = (refl, tt)
AreDistinct-append k (a ∷ ks) d h =
    let other : str_eq a k ≡ false = ground (arith, h) in
    let absent : contains k ks ≡ false = ground (arith, h) in
    (contains-append a k ks d.0 (str_eq_sym a k other), AreDistinct-append k ks d.1 absent)

module _ (json : Json) where
  -- The ids that a connection uses are different, and both queues within their capacities.
  pub record IsWell (t : DebugTransport json.Value) : Type 0 where
    pub distinct : AreDistinct t.active_ids
    pub inbox_bound : length t.inbox ≤ max_inbox_requests
    pub outbox_bound : length t.outbox ≤ max_outbox_responses

  pub push_response-IsWell :
      (body : json.Value) (g : ℕ) (t : DebugTransport json.Value)
      → IsWell t
      → IsWell (push_response body g t)
  unfolding push_response
  push_response-IsWell body g t w =
      if-elim IsWell (leb max_outbox_responses (length t.outbox)) _ _ (λ full. w)
        (λ room. record {
          distinct = w.distinct;
          inbox_bound = w.inbox_bound;
          outbox_bound =
              ground
                (arith, room, length-append t.outbox (record { body = body; generation = g } ∷ []));
        })

  pub respond_error-IsWell :
      (id : json.Value) (x : Refusal) (g : ℕ) (t : DebugTransport json.Value)
      → IsWell t
      → IsWell (respond_error json id x g t)
  unfolding respond_error
  respond_error-IsWell id x g t w = push_response-IsWell (error_body json id x) g t w

  accept-IsWell :
      (r : WireRequest json.Value) (t : DebugTransport json.Value)
      → IsWell t
      → IsWell (accept json r t)
  unfolding accept
  accept-IsWell r t w =
      if-elim IsWell (leb max_inbox_requests (length t.inbox)) _ _
        (λ full. respond_error-IsWell r.id inbox_full r.generation t w)
        (λ room. record {
          distinct = w.distinct;
          inbox_bound = ground (arith, room, length-append t.inbox (r ∷ []));
          outbox_bound = w.outbox_bound;
        })

  admit_key-IsWell :
      (r : WireRequest json.Value) (key : Option String) (t : DebugTransport json.Value)
      → IsWell t
      → IsWell (admit_key json r key t)
  unfolding admit_key
  admit_key-IsWell r none t w = accept-IsWell r t w
  admit_key-IsWell r (some key) t w =
      if-elim IsWell (contains key t.active_ids) _ _
        (λ active. respond_error-IsWell r.id duplicate_id r.generation t w)
        (λ absent.
          accept-IsWell r (record t { active_ids = t.active_ids ++ key ∷ [] })
            (record {
              distinct = AreDistinct-append key t.active_ids w.distinct absent;
              inbox_bound = w.inbox_bound;
              outbox_bound = w.outbox_bound;
            }))

  settle_envelope-IsWell :
      (e : Envelope json) (g : ℕ) (t : DebugTransport json.Value)
      → IsWell t
      → IsWell (settle_envelope json e g t)
  unfolding settle_envelope admit
  settle_envelope-IsWell (bad id x) g t w = respond_error-IsWell id x g t w
  settle_envelope-IsWell (good r) g t w = admit_key-IsWell r (trackable_id json r.id) t w

  pub handle_frame-IsWell :
      (bytes : List ℕ) (g : ℕ) (t : DebugTransport json.Value)
      → IsWell t
      → IsWell (handle_frame json bytes g t)
  unfolding handle_frame
  handle_frame-IsWell bytes g t w =
      settle_envelope-IsWell (read_frame json (json.from_slice bytes) g) g t w

  -- A property of the transport that every response keeps.
  abbrev pub IsKept : (DebugTransport json.Value → Type 0) → Type 0
  IsKept P =
      (body : json.Value) (g : ℕ) (t : DebugTransport json.Value) → P t → P (push_response body g t)

  module _ (P : DebugTransport json.Value → Type 0) (kept : IsKept P) where
    respond_result_keeps :
        (r : DebugResponse json.Value) (t : DebugTransport json.Value)
        → P t
        → P (respond_result json r t)
    unfolding respond_result respond_ok respond_error
    respond_result_keeps r t w = of_result r.result
      where
        of_result :
            (x : Result DebugWireError json.Value)
            → P (
                respond_result json (record { id = r.id; result = x; generation = r.generation }) t)
        of_result (ok value) = kept (ok_body json r.id value) r.generation t w
        of_result (err e) =
            kept (error_body json r.id (refusal_of e.code e.message)) r.generation t w

    forward_keeps :
        (current : ℕ) (rs : List (DebugResponse json.Value)) (t : DebugTransport json.Value)
        → P t
        → P (forward json current rs t)
    unfolding forward
    forward_keeps current [] t w = w
    forward_keeps current (r ∷ rs) t w =
        forward_keeps current rs
          (if not (r.generation == current) then t else respond_result json r t)
          (if-elim P (not (r.generation == current)) _ _ (λ h. w) (λ h. respond_result_keeps r t w))

    module _ {D : Type 0} where
      drain_topics_keeps :
          (current : ℕ) (es : List (TopicEntry json.Value D)) (t : DebugTransport json.Value)
          → P t
          → P (drain_topics json current es t).0
      unfolding drain_topics
      drain_topics_keeps current [] t w = w
      drain_topics_keeps current (e ∷ es) t w =
          drain_topics_keeps current es (forward json current e.channel.outbox t)
            (forward_keeps current e.channel.outbox t w)

      answer_with_keeps :
          (q : WireRequest json.Value) (t : DebugTransport json.Value)
          (x : Option Refusal × List (TopicEntry json.Value D))
          → P t
          → P (answer_with json q t x).0
      unfolding answer_with respond_error
      answer_with_keeps q t (none, es) w = w
      answer_with_keeps q t (some x, es) w = kept (error_body json q.id x) q.generation t w

      dispatch_after_keeps :
          (shown : Option json.Value) (topics : Topics json D) (q : WireRequest json.Value)
          (t : DebugTransport json.Value) (es : List (TopicEntry json.Value D))
          → P t
          → P (dispatch_after json shown topics q t es).0
      unfolding dispatch_after respond_ok respond_error
      dispatch_after_keeps (some payload) topics q t es w =
          kept (ok_body json q.id payload) q.generation t w
      dispatch_after_keeps none topics q t es w =
          if-elim (λ (x : DebugTransport json.Value × List (TopicEntry json.Value D)). P x.0)
            (not (is_open t.runtime_gate)) _ _
            (λ h.
              kept (error_body json q.id (refused_by runtime_unavailable "runtime unavailable"))
                q.generation t w)
            (λ h. answer_with_keeps q t (offer_to_topic json topics q es) w)

      dispatch_all_keeps :
          (topics : Topics json D) (qs : List (WireRequest json.Value))
          (x : DebugTransport json.Value × List (TopicEntry json.Value D))
          → P x.0
          → P (dispatch_all json topics qs x).0
      unfolding dispatch_all dispatch_one
      dispatch_all_keeps topics [] x w = w
      dispatch_all_keeps topics (q ∷ qs) (t, es) w =
          dispatch_all_keeps topics qs (dispatch_one json topics q (t, es))
            (dispatch_after_keeps (topics.introspect q.method) topics q t es w)

      -- What every response keeps, and the empty inbox has, the Update system keeps.
      pub run_dispatch_keeps :
          (topics : Topics json D) (t : DebugTransport json.Value)
          (es : List (TopicEntry json.Value D))
          → P (record t { inbox = [] })
          → P (run_dispatch json topics (t, es)).0
      unfolding run_dispatch
      run_dispatch_keeps topics t es w =
          let x =
            dispatch_all json topics (of_generation json t.generation t.inbox)
              (record t { inbox = [] }, es) in
          drain_topics_keeps t.generation x.1 x.0 (
            dispatch_all_keeps topics (of_generation json t.generation t.inbox)
              (record t { inbox = [] }, es) w)
