-- ===== src/Plugins/Debug/Admission.antt =====
-- What a frame does to the transport, on each way through `handle_frame`.
use Prim.Native.String.{String}
use shiny_song_tools.Prelude.{
  ℕ, ◌≤◌, ◌<◌, ◌≡◌, refl, ◌∙◌, arith, true, false, ◌⊎◌, inl, inr, if-elim, Option, none, some, List,
  [], ◌∷◌, ◌++◌, length, leb, if◌then◌else◌,
}
use shiny_song_tools.Plugins.Debug.{
  Json, WireRequest, DebugTransport, Refusal, contains, duplicate_id, inbox_full,
  max_inbox_requests, max_outbox_responses, push_response, trackable_id, error_body, respond_error,
  accept, admit_key, admit, Envelope, bad, good, read_frame, settle_envelope, handle_frame,
}

abbrev pub KeyIsFree : Option String → List String → Type 0
KeyIsFree none active = Unit
KeyIsFree (some key) active = contains key active ≡ false

abbrev pub with_key : Option String → List String → List String
with_key none active = active
with_key (some key) active = active ++ key ∷ []

module _ (json : Json) where
  -- One error was pushed to the outbox, unless that is full, and no request was queued.
  pub record IsRefused (id : json.Value) (x : Refusal) (g : ℕ) (t t' : DebugTransport json.Value)
      : Type 0 where
    pub inbox_same : t'.inbox ≡ t.inbox
    pub answered : t'.outbox ≡ (
        if leb max_outbox_responses (length t.outbox)
        then t.outbox
        else t.outbox ++ record { body = error_body json id x; generation = g } ∷ [])

  pub record IsQueued (r : WireRequest json.Value) (t t' : DebugTransport json.Value) : Type 0 where
    pub queued : t'.inbox ≡ t.inbox ++ r ∷ []
    pub outbox_same : t'.outbox ≡ t.outbox
    pub key_free : KeyIsFree (trackable_id json r.id) t.active_ids
    pub room : length t.inbox < max_inbox_requests
    pub key_active : t'.active_ids ≡ with_key (trackable_id json r.id) t.active_ids

  -- The three ends of a good envelope, and the one of a bad envelope.
  abbrev pub IsSettled :
      Envelope json → ℕ → DebugTransport json.Value → DebugTransport json.Value → Type 0
  IsSettled (bad id x) g t t' = IsRefused id x g t t' × (t'.active_ids ≡ t.active_ids)
  IsSettled (good r) g t t' =
      IsQueued r t t'
      ⊎ (((key : String) × (trackable_id json r.id ≡ some key)
            × (contains key t.active_ids ≡ true)
            × IsRefused r.id duplicate_id r.generation t t'
            × (t'.active_ids ≡ t.active_ids))
          ⊎ (KeyIsFree (trackable_id json r.id) t.active_ids
              × (max_inbox_requests ≤ length t.inbox)
              × IsRefused r.id inbox_full r.generation t t'
              × (t'.active_ids ≡ with_key (trackable_id json r.id) t.active_ids)))

  respond_error-IsRefused :
      (id : json.Value) (x : Refusal) (g : ℕ) (t : DebugTransport json.Value)
      → IsRefused id x g t (respond_error json id x g t)
        × ((respond_error json id x g t).active_ids ≡ t.active_ids)
  unfolding respond_error push_response
  respond_error-IsRefused id x g t = ground arith

  accept-IsSettled :
      (r : WireRequest json.Value) (g : ℕ) (active : List String) (t : DebugTransport json.Value)
      → KeyIsFree (trackable_id json r.id) t.active_ids
      → active ≡ with_key (trackable_id json r.id) t.active_ids
      → IsSettled (good r) g t (accept json r (record t { active_ids = active }))
  unfolding accept
  accept-IsSettled r g active t free e =
      if-elim (IsSettled (good r) g t) (leb max_inbox_requests (length t.inbox)) _ _
        (λ full.
          let (refused, same) =
            respond_error-IsRefused r.id inbox_full r.generation
              (record t { active_ids = active }) in
          inr (
            inr (
              free,
              ground (arith, full),
              record { inbox_same = refused.inbox_same; answered = refused.answered },
              same ∙ e,
            )))
        (λ room. inl (record {
          queued = refl;
          outbox_same = refl;
          key_free = free;
          room = ground (arith, room);
          key_active = e;
        }))

  admit_key-IsSettled :
      (r : WireRequest json.Value) (g : ℕ) (key : Option String) (t : DebugTransport json.Value)
      → trackable_id json r.id ≡ key
      → IsSettled (good r) g t (admit_key json r key t)
  unfolding admit_key
  admit_key-IsSettled r g none t e = accept-IsSettled r g t.active_ids t (rw e (tt)) (rw e refl)
  admit_key-IsSettled r g (some key) t e =
      if-elim (IsSettled (good r) g t) (contains key t.active_ids) _ _
        (λ active.
          let (refused, same) = respond_error-IsRefused r.id duplicate_id r.generation t in
          inr (inl (key, e, active, refused, same)))
        (λ absent. accept-IsSettled r g (t.active_ids ++ key ∷ []) t (rw e absent) (rw e refl))

  settle_envelope-IsSettled :
      (e : Envelope json) (g : ℕ) (t : DebugTransport json.Value)
      → IsSettled e g t (settle_envelope json e g t)
  unfolding settle_envelope admit
  settle_envelope-IsSettled (bad id x) g t = respond_error-IsRefused id x g t
  settle_envelope-IsSettled (good r) g t = admit_key-IsSettled r g (trackable_id json r.id) t refl

  -- On every way through `handle_frame`: the request of a good envelope is queued, and its id recorded,
  -- exactly when that id is not active (or is null) and the inbox has room; otherwise, and for a frame that
  -- is not JSON or has a bad envelope, nothing is queued and the one error that belongs to it is pushed,
  -- unless the outbox is full.
  pub handle_frame-IsSettled :
      (bytes : List ℕ) (g : ℕ) (t : DebugTransport json.Value)
      → IsSettled (read_frame json (json.from_slice bytes) g) g t (handle_frame json bytes g t)
  unfolding handle_frame
  handle_frame-IsSettled bytes g t =
      settle_envelope-IsSettled (read_frame json (json.from_slice bytes) g) g t
