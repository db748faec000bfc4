-- ===== src/Plugins/Debug/Served.antt =====
-- What stays true over whole connections.
use Prim.Native.String.{String}
use text.Mathlib.Text.{◌==◌ as str_eq}
use shiny_song_tools.Prelude.{
  ℕ, ◌+◌, ◌%◌, ◌^◌, ◌≤◌, ◌≡◌, refl, arith, false, not, ◌==◌, if-elim, Option, none, some, ◌>>?◌,
  List, [], ◌∷◌, All, length, Result, err, Result-elim, Option-elim,
}
use shiny_song_tools.Plugins.Debug.{
  Json, WireResponse, DebugTransport, contains, trackable_id, too_large,
}
use shiny_song_tools.Plugins.Debug.Invariant.{
  AreDistinct, IsWell, respond_error-IsWell, handle_frame-IsWell, push_response-IsWell,
  run_dispatch_keeps,
}
use shiny_song_tools.Runtime.Topics.{TopicEntry}
use shiny_song_tools.Plugins.Debug.Dispatch.{Topics, run_dispatch}
use shiny_song_tools.Plugins.Debug.Frames.{
  Stream, IoError, Event, frame, oversized, nothing, closed, failed, receive,
}
use shiny_song_tools.Plugins.Debug.Session.{
  forget, forget_some, retain_generation, begin_connection, encode_frame, write_frame,
  write_responses, write_round, settle_event, ending, serve, handle_connection,
}

contains-forget :
    (k key : String) (ks : List String) → contains k ks ≡ false → contains k (forget key ks) ≡ false
unfolding contains forget
contains-forget k key [] h = refl
contains-forget k key (a ∷ ks) h = ground (arith, h, contains-forget k key ks)

AreDistinct-forget :
    (key : String) (ks : List String) → AreDistinct ks → AreDistinct (forget key ks)
unfolding forget
AreDistinct-forget key [] d = tt
AreDistinct-forget key (a ∷ ks) d =
    let rest = AreDistinct-forget key ks d.1 in
    if-elim AreDistinct (not (str_eq a key)) (a ∷ forget key ks) (forget key ks)
      (λ h. (contains-forget a key ks d.0, rest)) (λ h. rest)

AreDistinct-forget_some :
    (key : Option String) (ks : List String) → AreDistinct ks → AreDistinct (forget_some key ks)
unfolding forget_some
AreDistinct-forget_some none ks d = d
AreDistinct-forget_some (some key) ks d = AreDistinct-forget key ks d

length-retain_generation :
    {V : Type 0} (g : ℕ) (rs : List (WireResponse V)) → length (retain_generation g rs) ≤ length rs
unfolding retain_generation
length-retain_generation g [] = omega arith
length-retain_generation g (r ∷ rs) = ground (arith, length-retain_generation g rs)

module _ (json : Json) where
  begin_connection-IsWell :
      (t : DebugTransport json.Value) → IsWell json t → IsWell json (begin_connection t)
  unfolding begin_connection
  begin_connection-IsWell t w = record {
    distinct = tt;
    inbox_bound = w.inbox_bound;
    outbox_bound =
        omega
          (arith, w.outbox_bound, length-retain_generation ((t.generation + 1) % 2 ^ 64) t.outbox);
  }

  -- The Update system keeps it.
  pub run_dispatch-IsWell :
      {D : Type 0} (topics : Topics json D) (t : DebugTransport json.Value)
      (es : List (TopicEntry json.Value D))
      → IsWell json t
      → IsWell json (run_dispatch json topics (t, es)).0
  run_dispatch-IsWell topics t es w =
      run_dispatch_keeps json (IsWell json) (push_response-IsWell json) topics t es
        (record { distinct = w.distinct; inbox_bound = omega arith; outbox_bound = w.outbox_bound })

  module _ (stream : Stream) where
    AreDistinct-write_responses :
        (g : ℕ) (rs : List (WireResponse json.Value)) (active : List String) (s : stream.State)
        → AreDistinct active
        → AreDistinct (write_responses json stream g rs active s).1
    unfolding write_responses
    AreDistinct-write_responses g [] active s d = d
    AreDistinct-write_responses g (r ∷ rs) active s d =
        if-elim (λ (x : stream.State × List String × Result IoError (Unit {0})). AreDistinct x.1)
          (not (r.generation == g)) _ _ (λ h. AreDistinct-write_responses g rs active s d)
          (λ h.
            let active' = forget_some (json.get "id" r.body >>? trackable_id json) active in
            let d' =
              AreDistinct-forget_some (json.get "id" r.body >>? trackable_id json) active d in
            let written = write_frame json stream (encode_frame json stream r.body) s in
            Result-elim
              (λ (x : stream.State × List String × Result IoError (Unit {0})). AreDistinct x.1)
              written.1 (λ e. (written.0, active', err e))
              (λ u. write_responses json stream g rs active' written.0) (λ e. d')
              (λ u. AreDistinct-write_responses g rs active' written.0 d'))

    write_round-IsWell :
        (g : ℕ) (t : DebugTransport json.Value) (s : stream.State)
        → IsWell json t
        → IsWell json (write_round json stream g (t, s)).0
    unfolding write_round
    write_round-IsWell g t s w =
        let (s', active, written) = write_responses json stream g t.outbox t.active_ids s in
        let t' : DebugTransport json.Value = record t { outbox = []; active_ids = active } in
        let w' : IsWell json t' = record {
          distinct = AreDistinct-write_responses g t.outbox t.active_ids s w.distinct;
          inbox_bound = w.inbox_bound;
          outbox_bound = omega arith;
        } in
        Result-elim
          (λ (x : DebugTransport json.Value × stream.State × Result IoError (Unit {0})).
            IsWell json x.0)
          written (λ e. (t', s', err e)) (λ u. (t', (stream.flush s').0, (stream.flush s').1))
          (λ e. w') (λ u. w')

    settle_event-IsWell :
        (g : ℕ) (event : Event) (t : DebugTransport json.Value)
        → IsWell json t
        → IsWell json (settle_event json stream g event t)
    unfolding settle_event
    settle_event-IsWell g (frame body) t w = handle_frame-IsWell json body g t w
    settle_event-IsWell g (oversized r) t w = respond_error-IsWell json json.null too_large g t w
    settle_event-IsWell g nothing t w = w
    settle_event-IsWell g closed t w = w
    settle_event-IsWell g (failed e) t w = w

    -- What the main thread does in a round keeps the transport well.
    abbrev pub Keeps :
        (DebugTransport json.Value → DebugTransport json.Value)
          × (DebugTransport json.Value → DebugTransport json.Value)
        → Type 0
    Keeps others =
        ((t : DebugTransport json.Value) → IsWell json t → IsWell json (others.0 t))
        × ((t : DebugTransport json.Value) → IsWell json t → IsWell json (others.1 t))

    serve-IsWell :
        (g : ℕ)
        (rounds : List (
          (DebugTransport json.Value → DebugTransport json.Value)
          × (DebugTransport json.Value → DebugTransport json.Value)))
        (head : List ℕ) (t : DebugTransport json.Value) (s : stream.State)
        → All Keeps rounds
        → IsWell json t
        → IsWell json (serve json stream g rounds head (t, s)).0
    unfolding serve
    serve-IsWell g [] head t s keep w = w
    serve-IsWell g (others ∷ rounds) head t s (keep, later) w =
        let (t1, s1, written) = write_round json stream g (others.0 t, s) in
        let (s2, head', event) = receive stream head s1 in
        let t2 = settle_event json stream g event (others.1 t1) in
        let w1 : IsWell json t1 = write_round-IsWell g (others.0 t) s (keep.0 t w) in
        let w2 : IsWell json t2 = settle_event-IsWell g event (others.1 t1) (keep.1 t1 w1) in
        let Goal =
          λ (x : DebugTransport json.Value × stream.State × Option (Result IoError (Unit {0}))).
            IsWell json x.0 in
        Result-elim Goal written _ _ (λ e. w1)
          (λ u.
            Option-elim Goal (ending json stream event) (λ r. (t2, s2, some r)) _ (λ r. w2)
              (serve-IsWell g rounds head' t2 s2 later w2))

    -- Over a whole connection, whatever the peer sends, however it ends and whatever the main thread does
    -- between that keeps these facts (as its Update system does): the active ids are different from each
    -- other, the inbox has at most 128 requests and the outbox at most 256 responses.
    pub handle_connection-IsWell :
        (rounds : List (
          (DebugTransport json.Value → DebugTransport json.Value)
          × (DebugTransport json.Value → DebugTransport json.Value)))
        (t : DebugTransport json.Value) (s : stream.State)
        → All Keeps rounds
        → IsWell json t
        → IsWell json (handle_connection json stream rounds (t, s)).0
    unfolding handle_connection
    handle_connection-IsWell rounds t s keep w =
        serve-IsWell (begin_connection t).generation rounds [] (begin_connection t) s keep
          (begin_connection-IsWell t w)
