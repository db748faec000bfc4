-- ===== src/Plugins/Debug.antt =====
-- crates/debug/src/lib.rs: the transport of the debug plugin, and what a frame does to it. The JSON library
-- is a parameter. A frame is one step: between its locks the main thread can only make room in the inbox.
pub mod Admission
pub mod Dispatch
pub mod Duplicate
pub mod Frames
pub mod Invariant
pub mod Served
pub mod Session
pub mod Tests
use Prim.Native.String.{String}
use text.Mathlib.Text.{◌==◌ as str_eq}
use shiny_song_tools.Prelude.{
  ℕ, ◌*◌, ◌≡◌, Bool, true, false, not, Option, none, some, ◌>>?◌, List, [], ◌∷◌, ◌++◌, length, leb,
  if◌then◌else◌,
}
use shiny_song_tools.Core.Gate.{RuntimeGate}

-- What the JSON library promises: an object that is made from fields with different names has them. A
-- negative integer is given by its absolute value.
pub record Json : Type 1 where
  pub Value : Type 0
  pub null : Value
  pub text : String → Value
  pub negative : ℕ → Value
  pub object : List (String × Value) → Value
  pub from_slice : List ℕ → Option Value
  pub to_vec : Value → Option (List ℕ)
  pub is_null : Value → Bool
  pub is_array : Value → Bool
  pub is_object : Value → Bool
  pub as_str : Value → Option String
  pub get : String → Value → Option Value
  pub to_string : Value → Option String
  pub is_null-null : is_null null ≡ true
  pub get_second :
      (k l : String) (v w : Value) (rest : List (String × Value))
      → str_eq k l ≡ false
      → get l (object ((k, v) ∷ (l, w) ∷ rest)) ≡ some w

abbrev pub max_frame_bytes : ℕ
max_frame_bytes = 1024 * 1024

abbrev pub max_inbox_requests : ℕ
max_inbox_requests = 128

abbrev pub max_outbox_responses : ℕ
max_outbox_responses = 256

pub record WireRequest (V : Type 0) : Type 0 where
  pub id : V
  pub method : String
  pub params : V
  pub generation : ℕ

pub record WireResponse (V : Type 0) : Type 0 where
  pub body : V
  pub generation : ℕ

pub record DebugTransport (V : Type 0) : Type 0 where
  pub inbox : List (WireRequest V)
  pub outbox : List (WireResponse V)
  pub runtime_gate : RuntimeGate
  pub active_ids : List String
  pub generation : ℕ

-- An error of the wire: its code, by its absolute value, the name in its data, and its text.
pub record Refusal : Type 0 where
  pub code : ℕ
  pub data_code : Option String
  pub message : String

abbrev pub plain : ℕ → String → Refusal
plain code message = record { code = code; data_code = none; message = message }

abbrev pub duplicate_id : Refusal
duplicate_id = plain 32600 "duplicate active id"

abbrev pub inbox_full : Refusal
inbox_full = record {
  code = 32000;
  data_code = some "queue_full";
  message = "transport inbox capacity reached";
}

abbrev pub too_large : Refusal
too_large = record {
  code = 32000;
  data_code = some "payload_too_large";
  message = "frame exceeds the payload limit";
}

abbrev pub unwrap_or : {A : Type 0} → A → Option A → A
unwrap_or a none = a
unwrap_or a (some x) = x

unfoldable pub contains : String → List String → Bool
contains k [] = false
contains k (a ∷ as') = if str_eq a k then true else contains k as'

unfoldable pub push_response : {V : Type 0} → V → ℕ → DebugTransport V → DebugTransport V
push_response body generation t =
    if leb max_outbox_responses (length t.outbox)
    then t
    else record t { outbox = t.outbox ++ record { body = body; generation = generation } ∷ [] }

module _ (json : Json) where
  abbrev Value : Type 0
  Value = json.Value

  unfoldable pub trackable_id : Value → Option String
  trackable_id id = if json.is_null id then none else json.to_string id

  abbrev pub ok_body : Value → Value → Value
  ok_body id result =
      json.object (("jsonrpc", json.text "2.0") ∷ ("id", id) ∷ ("result", result) ∷ [])

  abbrev pub error_of : Refusal → Value
  error_of e = json.object (
      ("code", json.negative e.code) ∷ elim e.data_code [
        | none ↦ ("message", json.text e.message) ∷ []
        | some name ↦
            ("data", json.object (("code", json.text name) ∷ ("message", json.text e.message) ∷ []))
            ∷ []
      ])

  abbrev pub error_body : Value → Refusal → Value
  error_body id e =
      json.object (("jsonrpc", json.text "2.0") ∷ ("id", id) ∷ ("error", error_of e) ∷ [])

  unfoldable pub respond_ok : Value → Value → ℕ → DebugTransport Value → DebugTransport Value
  unfolding push_response
  respond_ok id result generation t = push_response (ok_body id result) generation t

  unfoldable pub respond_error : Value → Refusal → ℕ → DebugTransport Value → DebugTransport Value
  unfolding push_response
  respond_error id e generation t = push_response (error_body id e) generation t

  -- The end of `handle_frame`, from the capacity of the inbox on.
  unfoldable pub accept : WireRequest Value → DebugTransport Value → DebugTransport Value
  unfolding respond_error
  accept r t =
      if leb max_inbox_requests (length t.inbox)
      then respond_error r.id inbox_full r.generation t
      else record t { inbox = t.inbox ++ r ∷ [] }

  unfoldable pub admit_key :
      WireRequest Value → Option String → DebugTransport Value → DebugTransport Value
  unfolding respond_error accept contains
  admit_key r none t = accept r t
  admit_key r (some key) t =
      if contains key t.active_ids
      then respond_error r.id duplicate_id r.generation t
      else accept r (record t { active_ids = t.active_ids ++ key ∷ [] })

  -- From the test of the id on.
  unfoldable pub admit : WireRequest Value → DebugTransport Value → DebugTransport Value
  unfolding admit_key trackable_id
  admit r t = admit_key r (trackable_id r.id) t

  is_version : Option String → Bool
  is_version none = false
  is_version (some v) = str_eq v "2.0"

  -- The envelope of an object: what is wrong with it, and the id to answer to, or the request.
  pub data Envelope : Type 0 where
    bad : Value → Refusal → Envelope
    good : WireRequest Value → Envelope

  with_id : Option Value → String → Value → ℕ → Envelope
  with_id none method params generation = bad json.null (plain 32600 "notifications not supported")
  with_id (some id) method params generation =
      good (record { id = id; method = method; params = params; generation = generation })

  with_method : Option String → Option Value → Value → ℕ → Envelope
  unfolding with_id
  with_method none id params generation = bad json.null (plain 32600 "invalid request")
  with_method (some method) id params generation = with_id id method params generation

  unfoldable pub envelope : Value → ℕ → Envelope
  unfolding is_version with_method
  envelope value generation =
      if json.is_array value
      then bad json.null (plain 32600 "batch not supported")
      else if not (json.is_object value)
      then bad json.null (plain 32600 "invalid request")
      else if not (is_version (json.get "jsonrpc" value >>? json.as_str))
      then bad (unwrap_or json.null (json.get "id" value)) (plain 32600 "invalid request")
      else with_method (json.get "method" value >>? json.as_str) (json.get "id" value)
          (unwrap_or json.null (json.get "params" value)) generation

  -- The parse, and the envelope of what was parsed.
  unfoldable pub read_frame : Option Value → ℕ → Envelope
  unfolding envelope
  read_frame none generation = bad json.null (plain 32700 "parse error")
  read_frame (some value) generation = envelope value generation

  unfoldable pub settle_envelope : Envelope → ℕ → DebugTransport Value → DebugTransport Value
  unfolding respond_error admit
  settle_envelope (bad id e) generation t = respond_error id e generation t
  settle_envelope (good r) generation t = admit r t

  unfoldable pub handle_frame : List ℕ → ℕ → DebugTransport Value → DebugTransport Value
  unfolding settle_envelope read_frame
  handle_frame bytes generation t =
      settle_envelope (read_frame (json.from_slice bytes) generation) generation t
