-- ===== src/Plugins/Debug/Session.antt =====
-- crates/debug/src/lib.rs: a connection, from its start to the end of its loop. What the main thread does
-- to the transport before a round is a function of the round.
use Prim.Native.String.{String}
use text.Mathlib.Text.{◌==◌ as str_eq}
use shiny_song_tools.Prelude.{
  ℕ, ◌+◌, ◌%◌, ◌^◌, ◌==◌, not, Option, none, some, ◌>>?◌, List, [], ◌∷◌, if◌then◌else◌, Result, ok,
  err,
}
use shiny_song_tools.Plugins.Debug.{
  Json, too_large, WireResponse, DebugTransport, respond_error, handle_frame, trackable_id,
}
use shiny_song_tools.Plugins.Debug.Frames.{
  Stream, IoError, invalid_data, frame_of, Event, frame, oversized, nothing, closed, failed,
  receive,
}

-- `retain` on the active ids.
unfoldable pub forget : String → List String → List String
forget key [] = []
forget key (a ∷ as') = let rest = forget key as' in if not (str_eq a key) then a ∷ rest else rest

unfoldable pub forget_some : Option String → List String → List String
unfolding forget
forget_some none as' = as'
forget_some (some key) as' = forget key as'

module _ {V : Type 0} where
  unfoldable pub retain_generation : ℕ → List (WireResponse V) → List (WireResponse V)
  retain_generation generation [] = []
  retain_generation generation (r ∷ rs) =
      let rest = retain_generation generation rs in
      if r.generation == generation then r ∷ rest else rest

  -- `next_generation`, and the fresh scope of the connection.
  unfoldable pub begin_connection : DebugTransport V → DebugTransport V
  unfolding retain_generation
  begin_connection t =
      let generation = (t.generation + 1) % 2 ^ 64 in
      record t {
        generation = generation;
        outbox = retain_generation generation t.outbox;
        active_ids = [];
      }

module _ (json : Json) (stream : Stream) where
  unfoldable pub encode_frame : json.Value → Result IoError (List ℕ)
  unfolding frame_of
  encode_frame body = elim (json.to_vec body) [
    | none ↦ err invalid_data
    | some bytes ↦ frame_of bytes
  ]

  unfoldable pub write_frame :
      Result IoError (List ℕ) → stream.State → stream.State × Result IoError (Unit {0})
  write_frame (err e) s = (s, err e)
  write_frame (ok bytes) s = stream.write_all bytes s

  -- The loop over the drained responses. What was not reached at an error is lost.
  unfoldable pub write_responses :
      ℕ
      → List (WireResponse json.Value)
      → List String
      → stream.State
      → stream.State × List String × Result IoError (Unit {0})
  unfolding encode_frame write_frame forget_some trackable_id
  write_responses generation [] active s = (s, active, ok tt)
  write_responses generation (r ∷ rs) active s =
      let skipped = write_responses generation rs active s in
      if not (r.generation == generation)
      then skipped
      else (let active' = forget_some (json.get "id" r.body >>? trackable_id json) active in
          let (s', written) = write_frame (encode_frame r.body) s in
          elim written [
            | err e ↦ (s', active', err e)
            | ok u ↦ write_responses generation rs active' s'
          ])

  -- The writing part of a round.
  unfoldable pub write_round :
      ℕ
      → DebugTransport json.Value × stream.State
      → DebugTransport json.Value × stream.State × Result IoError (Unit {0})
  unfolding write_responses
  write_round generation (t, s) =
      let (s', active, written) = write_responses generation t.outbox t.active_ids s in
      let t' = record t { outbox = []; active_ids = active } in
      elim written [
        | err e ↦ (t', s', err e)
        | ok u ↦ let (flushed, r) = stream.flush s' in (t', flushed, r)
      ]

  -- What a round does to the transport with what it read.
  unfoldable pub settle_event : ℕ → Event → DebugTransport json.Value → DebugTransport json.Value
  unfolding respond_error handle_frame
  settle_event generation (frame body) t = handle_frame json body generation t
  settle_event generation (oversized r) t = respond_error json json.null too_large generation t
  settle_event generation nothing t = t
  settle_event generation closed t = t
  settle_event generation (failed e) t = t

  -- Whether the loop ends, and how.
  unfoldable pub ending : Event → Option (Result IoError (Unit {0}))
  ending (frame body) = none
  ending (oversized (ok u)) = none
  ending (oversized (err e)) = some (err e)
  ending nothing = none
  ending closed = some (ok tt)
  ending (failed e) = some (err e)

  -- The loop, with what the main thread does before the writing and before the reading of each round;
  -- `none` says that the connection is still served after these rounds.
  unfoldable pub serve :
      ℕ
      → List (
          (DebugTransport json.Value → DebugTransport json.Value)
          × (DebugTransport json.Value → DebugTransport json.Value))
      → List ℕ
      → DebugTransport json.Value × stream.State
      → DebugTransport json.Value × stream.State × Option (Result IoError (Unit {0}))
  unfolding write_round settle_event ending receive
  serve generation [] head (t, s) = (t, s, none)
  serve generation (others ∷ rounds) head (t, s) =
      let (t1, s1, written) = write_round generation (others.0 t, s) in
      let (s2, head', event) = receive stream head s1 in
      let t2 = settle_event generation event (others.1 t1) in
      elim written [
        | err e ↦ (t1, s1, some (err e))
        | ok u ↦ elim (ending event) [
          | some r ↦ (t2, s2, some r)
          | none ↦ serve generation rounds head' (t2, s2)
        ]
      ]

  unfoldable pub handle_connection :
      List (
        (DebugTransport json.Value → DebugTransport json.Value)
        × (DebugTransport json.Value → DebugTransport json.Value))
      → DebugTransport json.Value × stream.State
      → DebugTransport json.Value × stream.State × Option (Result IoError (Unit {0}))
  unfolding serve begin_connection
  handle_connection rounds (t, s) =
      let t' = begin_connection t in serve t'.generation rounds [] (t', s)
