-- ===== src/Plugins/Debug/Tests.antt =====
-- Runs of the transport over a small JSON, and a socket that is a list of pieces.
use Prim.Native.String.{String}
use text.Mathlib.Text.{◌==◌ as str_eq}
use text.Mathlib.TextEquality.{eq_iff}
use shiny_song_tools.Prelude.{
  ℕ, ◌+◌, ◌≤◌, ◌<◌, ◌==◌, ◌≡◌, refl, arith, Bool, true, false, Option, none, some, List, [], ◌∷◌,
  ◌++◌, length, leb, if◌then◌else◌, ok, if-elim,
}
use shiny_song_tools.Core.Gate.{new}
use shiny_song_tools.Plugins.Debug.{
  Json, WireRequest, DebugTransport, contains, read_frame, handle_frame, good, trackable_id,
}
use shiny_song_tools.Core.Debug.{typed}
use shiny_song_tools.Runtime.Topics.{TopicEntry, main}
use shiny_song_tools.Plugins.Debug.Frames.{
  Stream, ReadEnd, got, broken, would_block, Reads, receive, to_be_bytes,
}
use shiny_song_tools.Plugins.Debug.Frames.InStep.{wire, InStep, receive-InStep}
use shiny_song_tools.Plugins.Debug.Session.{write_round, handle_connection}
use shiny_song_tools.Plugins.Debug.Invariant.{IsWell}
use shiny_song_tools.Plugins.Debug.Served.{handle_connection-IsWell}
use shiny_song_tools.Plugins.Debug.Dispatch.{Topics, of_generation, run_dispatch}
use shiny_song_tools.Plugins.Debug.Dispatch.Counted.{
  requests, topic_requests, topic_answers, responses, replies,
}
use shiny_song_tools.Plugins.Debug.Dispatch.Own.{waiting, made}
use shiny_song_tools.Plugins.Debug.Dispatch.Settled.{run_dispatch-counts}
use shiny_song_tools.Plugins.Debug.Admission.{IsSettled, handle_frame-IsSettled}
use shiny_song_tools.Plugins.Debug.Duplicate.{duplicate_frees}

-- Numbers, texts and objects.
mutual
  data Small : Type 0 where
    nil : Small
    number : ℕ → Small
    string : String → Small
    fields : Fields → Small

  data Fields : Type 0 where
    empty : Fields
    field : String → Small → Fields → Fields

abbrev fields_of : List (String × Small) → Fields
fields_of [] = empty
fields_of ((k, v) ∷ rest) = field k v (fields_of rest)

abbrev find_field : String → Fields → Option Small
find_field k empty = none
find_field k (field l v rest) = if str_eq l k then some v else find_field k rest

abbrev field_of : String → Small → Option Small
field_of k nil = none
field_of k (number n) = none
field_of k (string s) = none
field_of k (fields fs) = find_field k fs

abbrev string_of : Small → Option String
string_of nil = none
string_of (number n) = none
string_of (string s) = some s
string_of (fields fs) = none

abbrev is_nil : Small → Bool
is_nil nil = true
is_nil (number n) = false
is_nil (string s) = false
is_nil (fields fs) = false

abbrev has_fields : Small → Bool
has_fields nil = false
has_fields (number n) = false
has_fields (string s) = false
has_fields (fields fs) = true

-- The one frame that this reader knows is a request with the id "a".
abbrev request_a : Small
request_a = fields (
    field "jsonrpc" (string "2.0")
      (field "method" (string "fps.probe") (field "id" (string "a") empty)))

str_eq_refl : (s : String) → str_eq s s ≡ true
str_eq_refl s = ground (arith, eq_iff s s)

small_get_second :
    (k l : String) (v w : Small) (rest : List (String × Small))
    → str_eq k l ≡ false
    → find_field l (fields_of ((k, v) ∷ (l, w) ∷ rest)) ≡ some w
small_get_second k l v w rest h = ground (arith, h, str_eq_refl l)

abbrev small : Json
small = record {
  Value = Small;
  null = nil;
  text = string;
  negative = number;
  object = λ fs. fields (fields_of fs);
  from_slice = λ bytes. if length bytes == 0 then none else some request_a;
  to_vec = λ v. some (1 ∷ []);
  is_null = is_nil;
  is_array = λ v. false;
  is_object = has_fields;
  as_str = string_of;
  get = field_of;
  to_string = string_of;
  is_null-null = refl;
  get_second = small_get_second;
}

-- A socket is the pieces that arrive; an empty piece is a pause.
abbrev Pieces : Type 0
Pieces = List (List ℕ)

abbrev bytes_of : Pieces → List ℕ
bytes_of [] = []
bytes_of (p ∷ ps) = p ++ bytes_of ps

abbrev read_piece : ℕ → Pieces → Pieces × ReadEnd
read_piece k [] = ([], got [])
read_piece k ([] ∷ ps) = (ps, broken would_block)
read_piece k ((b ∷ bs) ∷ ps) =
    if leb (length (b ∷ bs)) k then (ps, got (b ∷ bs)) else (bs ∷ ps, got (b ∷ []))

read_piece-Reads :
    (k : ℕ) (ps : Pieces)
    → 0 < k
    → Reads k (bytes_of ps) (bytes_of (read_piece k ps).0) (read_piece k ps).1
read_piece-Reads k [] h = (refl, refl)
read_piece-Reads k ([] ∷ ps) h = refl
read_piece-Reads k ((b ∷ bs) ∷ ps) h =
    if-elim (λ (x : Pieces × ReadEnd). Reads k (bytes_of ((b ∷ bs) ∷ ps)) (bytes_of x.0) x.1)
      (leb (length (b ∷ bs)) k) _ _ (λ t. (refl, ground (arith, t))) (λ t. (refl, omega (arith, h)))

abbrev socket : Stream
socket = record {
  State = Pieces;
  read = read_piece;
  write_all = λ bs ps. (ps, ok tt);
  flush = λ ps. (ps, ok tt);
  to_come = bytes_of;
  read-Reads = read_piece-Reads;
  write_all-to_come = λ bs ps. refl;
  flush-to_come = λ ps. refl;
}

wire_two : 0 ∷ 0 ∷ 0 ∷ 2 ∷ 7 ∷ 8 ∷ [] ≡ wire ((7 ∷ 8 ∷ []) ∷ [])
unfolding to_be_bytes
wire_two = refl

-- The second and third bytes of the length come after a pause.
receive-InStep_example :
    InStep socket
      ((7 ∷ 8 ∷ []) ∷ [])
      (receive socket (0 ∷ []) ((0 ∷ 0 ∷ []) ∷ (2 ∷ 7 ∷ 8 ∷ []) ∷ []))
receive-InStep_example =
    receive-InStep socket ((7 ∷ 8 ∷ []) ∷ []) (0 ∷ []) ((0 ∷ 0 ∷ []) ∷ (2 ∷ 7 ∷ 8 ∷ []) ∷ [])
      (omega arith) wire_two (omega arith, tt)

abbrev transport : DebugTransport Small
transport = record {
  inbox = record { id = string "b"; method = "fps.probe"; params = nil; generation = 1 } ∷ [];
  outbox = [];
  runtime_gate = new;
  active_ids = "a" ∷ [];
  generation = 1;
}

abbrev request : WireRequest Small
request = record { id = string "a"; method = "fps.probe"; params = nil; generation = 1 }

handle_frame-IsSettled_example :
    IsSettled small
      (read_frame small (small.from_slice (1 ∷ [])) 1)
      1
      transport
      (handle_frame small (1 ∷ []) 1 transport)
handle_frame-IsSettled_example = handle_frame-IsSettled small (1 ∷ []) 1 transport

parsed_a : read_frame small (small.from_slice (1 ∷ [])) 1 ≡ good request
unfolding read_frame
parsed_a = refl

tracked_a : trackable_id small (string "a") ≡ some "a"
unfolding trackable_id
tracked_a = refl

active_a : contains "a" ("a" ∷ []) ≡ true
unfolding contains
active_a = refl

duplicate_frees_example :
    let t1 = handle_frame small (1 ∷ []) 1 transport in
    let t2 = (write_round small socket 1 (t1, [])).0 in
    (t1.inbox ≡ transport.inbox)
    × (contains "a" t2.active_ids ≡ false)
    × ((handle_frame small (1 ∷ []) 1 t2).inbox ≡ transport.inbox ++ request ∷ [])
duplicate_frees_example =
    duplicate_frees small socket (1 ∷ []) request "a" parsed_a tracked_a transport [] active_a refl
      (omega arith)

distinct_a : contains "a" [] ≡ false
unfolding contains
distinct_a = refl

transport-IsWell : IsWell small transport
transport-IsWell = record {
  distinct = (distinct_a, tt);
  inbox_bound = omega arith;
  outbox_bound = omega arith;
}

-- The introspection knows nothing, and each topic takes every request.
abbrev topics : Topics small ℕ
topics = record { introspect = λ m. none; decode = λ e v. ok (typed 0) }

abbrev probe : TopicEntry Small ℕ
probe = record {
  id = 0;
  owner = 0;
  name = "fps.probe";
  domain = main;
  channel = record {
    inbox = [];
    outbox = record { id = string "c"; result = ok nil; generation = 1 } ∷ [];
    pending = 0;
    owner_gate = new;
    runtime_gate = new;
  };
}

run_dispatch-counts_example :
    let p = λ (v : Small) (g : ℕ). true in
    let named = λ (name : String) (v : Small) (g : ℕ). str_eq name "probe" in
    let (t', es') = run_dispatch small topics (transport, probe ∷ []) in
    (responses small p t'.outbox + topic_requests p es'
      ≡ (responses small p [] + topic_requests p (probe ∷ []))
        + (requests p (of_generation small 1 transport.inbox) + topic_answers p 1 (probe ∷ [])))
    × (replies es' ≡ 0)
    × (waiting named es'
        ≤ waiting named (probe ∷ []) + made named (of_generation small 1 transport.inbox))
run_dispatch-counts_example =
    run_dispatch-counts small (λ v g. true) (λ name v g. str_eq name "probe") topics transport
      (probe ∷ []) (omega arith)

handle_connection-IsWell_example :
    IsWell small
      (handle_connection small socket (((λ t. t), (λ t. t)) ∷ []) (transport, (1 ∷ []) ∷ [])).0
handle_connection-IsWell_example =
    handle_connection-IsWell small socket (((λ t. t), (λ t. t)) ∷ []) transport ((1 ∷ []) ∷ [])
      (((λ t w. w), (λ t w. w)), tt) transport-IsWell
