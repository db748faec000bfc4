-- ===== src/Plugins/Debug/Duplicate.antt =====
-- What becomes of an id that is used again before its request is answered.
use Prim.Native.String.{String}
use shiny_song_tools.Prelude.{
  ℕ, ◌==◌, ◌<◌, ◌≡◌, refl, ap, ◌∙◌, arith, true, false, not, if_true, if_false, some, ◌>>?◌, List,
  [], ◌∷◌, ◌++◌, length, leb, Result, err, Result-elim, ==_self,
}
use shiny_song_tools.Plugins.Debug.{
  Json, WireRequest, WireResponse, DebugTransport, contains, duplicate_id, max_inbox_requests,
  push_response, trackable_id, error_body, respond_error, accept, admit_key, admit, good,
  read_frame, settle_envelope, handle_frame,
}
use shiny_song_tools.Plugins.Debug.Frames.{Stream, IoError}
use shiny_song_tools.Plugins.Debug.Session.{
  forget, forget_some, encode_frame, write_frame, write_responses, write_round,
}

contains-forget_self : (key : String) (ks : List String) → contains key (forget key ks) ≡ false
unfolding contains forget
contains-forget_self key [] = refl
contains-forget_self key (a ∷ ks) = ground (arith, contains-forget_self key ks)

module _ (json : Json) (stream : Stream) (bytes : List ℕ) (r : WireRequest json.Value)
    (key : String) (parsed : read_frame json (json.from_slice bytes) r.generation ≡ good r)
    (tracked : trackable_id json r.id ≡ some key) where
  refusal : WireResponse json.Value
  refusal = record { body = error_body json r.id duplicate_id; generation = r.generation }

  admit_tracked :
      (t : DebugTransport json.Value)
      → handle_frame json bytes r.generation t ≡ admit_key json r (some key) t
  unfolding handle_frame settle_envelope admit
  admit_tracked t =
      ap (λ e. settle_envelope json e r.generation t) parsed
      ∙ ap (λ k. admit_key json r k t) tracked

  -- It is refused, by the one response that waits.
  refused :
      (t : DebugTransport json.Value)
      → contains key t.active_ids ≡ true
      → t.outbox ≡ []
      → handle_frame json bytes r.generation t ≡ record t { outbox = refusal ∷ [] }
  unfolding admit_key respond_error push_response refusal
  refused t active empty =
      admit_tracked t
      ∙ if_true (λ x. x ≡ record t { outbox = refusal ∷ [] }) _ _ _ active (rw empty refl)

  written_forgets :
      (active : List String) (s : stream.State)
      → (write_responses json stream r.generation (refusal ∷ []) active s).1 ≡ forget key active
  unfolding write_responses forget_some refusal
  written_forgets active s =
      let found : (json.get "id" refusal.body >>? trackable_id json) ≡ some key =
        ap (λ o. o >>? trackable_id json) (json.get_second "jsonrpc" "id" _ r.id _ refl)
        ∙ tracked in
      let freed = ap (λ k. forget_some k active) found in
      let Goal =
        λ (x : stream.State × List String × Result IoError (Unit {0})). x.1 ≡ forget key active in
      let same : not (r.generation == r.generation) ≡ false =
        ground (arith, ==_self r.generation) in
      if_false Goal _ _ _ same (
        Result-elim Goal (write_frame json stream (encode_frame json stream refusal.body) s).1 _ _
          (λ e. freed) (λ u. freed))

  write_round_forgets :
      (t : DebugTransport json.Value) (s : stream.State)
      → (write_round json stream r.generation (record t { outbox = refusal ∷ [] }, s)).0
        ≡ record t { outbox = []; active_ids = forget key t.active_ids }
  unfolding write_round
  write_round_forgets t s =
      let x = write_responses json stream r.generation (refusal ∷ []) t.active_ids s in
      let t' : DebugTransport json.Value = record t { outbox = []; active_ids = x.1 } in
      Result-elim
        (λ (y : DebugTransport json.Value × stream.State × Result IoError (Unit {0})). y.0 ≡ t') x.2
        (λ e. (t', x.0, err e)) (λ u. (t', (stream.flush x.0).0, (stream.flush x.0).1)) (λ e. refl)
        (λ u. refl)
      ∙ ap
          (λ (ks : List String).
            let u : DebugTransport json.Value = record t { outbox = []; active_ids = ks } in u)
          (written_forgets t.active_ids s)

  requeued :
      (t : DebugTransport json.Value)
      → length t.inbox < max_inbox_requests
      → (handle_frame json bytes r.generation
          (record t { outbox = []; active_ids = forget key t.active_ids })).inbox
        ≡ t.inbox ++ r ∷ []
  unfolding admit_key accept
  requeued t room =
      let has_room : leb max_inbox_requests (length t.inbox) ≡ false = ground (arith, room) in
      ap (λ (u : DebugTransport json.Value). u.inbox) (admit_tracked _)
      ∙ if_false (λ (u : DebugTransport json.Value). u.inbox ≡ t.inbox ++ r ∷ []) _ _ _
          (contains-forget_self key t.active_ids)
          (if_false (λ (u : DebugTransport json.Value). u.inbox ≡ t.inbox ++ r ∷ []) _ _ _ has_room
            refl)

  -- A frame comes with the id of a request that is not answered yet, where no response waits and the inbox
  -- has room. It is refused; but writing the refusal frees the id, although its request is not answered,
  -- and the same frame again is queued beside it.
  pub duplicate_frees :
      (t : DebugTransport json.Value) (s : stream.State)
      → contains key t.active_ids ≡ true
      → t.outbox ≡ []
      → length t.inbox < max_inbox_requests
      → let t1 = handle_frame json bytes r.generation t in
        let t2 = (write_round json stream r.generation (t1, s)).0 in
        (t1.inbox ≡ t.inbox)
        × (contains key t2.active_ids ≡ false)
        × ((handle_frame json bytes r.generation t2).inbox ≡ t.inbox ++ r ∷ [])
  duplicate_frees t s active empty room =
      let e1 = refused t active empty in
      let e2 =
        ap (λ u. (write_round json stream r.generation (u, s)).0) e1 ∙ write_round_forgets t s in
      (
        ap (λ (u : DebugTransport json.Value). u.inbox) e1,
        ap (λ (u : DebugTransport json.Value). contains key u.active_ids) e2
            ∙ contains-forget_self key t.active_ids,
        ap (λ u. (handle_frame json bytes r.generation u).inbox) e2 ∙ requeued t room,
      )
