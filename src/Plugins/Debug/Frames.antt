-- ===== src/Plugins/Debug/Frames.antt =====
-- crates/debug/src/lib.rs: frames on the socket, a length of four bytes, the highest first, and that many
-- bytes of JSON. The socket is a parameter.
pub mod InStep
pub mod Reads
use shiny_song_tools.Prelude.{
  ℕ, zero, suc, ◌+◌, ◌-◌, ◌*◌, ◌/◌, ◌%◌, ◌^◌, ◌≤◌, ◌<◌, ◌==◌, ◌≡◌, Bool, true, false, Option, none,
  some, List, [], ◌∷◌, ◌++◌, length, ltb, leb, if◌then◌else◌, Result, ok, err,
}
use shiny_song_tools.Plugins.Debug.{max_frame_bytes}

pub data IoError : Type 0 where
  would_block unexpected_eof invalid_data : IoError
  other : ℕ → IoError

-- What a read leaves and gives back: it takes at least one byte and no more than asked from the front of
-- those that are still to come, or it is at the end, or it fails and takes none.
pub data ReadEnd : Type 0 where
  got : List ℕ → ReadEnd
  broken : IoError → ReadEnd

abbrev pub Reads : ℕ → List ℕ → List ℕ → ReadEnd → Type 0
Reads k before after (got []) = (before ≡ []) × (after ≡ [])
Reads k before after (got (b ∷ bs)) = (before ≡ (b ∷ bs) ++ after) × (length (b ∷ bs) ≤ k)
Reads k before after (broken e) = before ≡ after

pub record Stream : Type 1 where
  pub State : Type 0
  pub read : ℕ → State → State × ReadEnd
  pub write_all : List ℕ → State → State × Result IoError (Unit {0})
  pub flush : State → State × Result IoError (Unit {0})
  pub to_come : State → List ℕ
  pub read-Reads :
      (k : ℕ) (s : State) → 0 < k → Reads k (to_come s) (to_come (read k s).0) (read k s).1
  pub write_all-to_come : (bs : List ℕ) (s : State) → to_come (write_all bs s).0 ≡ to_come s
  pub flush-to_come : (s : State) → to_come (flush s).0 ≡ to_come s

abbrev pub min : ℕ → ℕ → ℕ
min a b = if leb a b then a else b

unfoldable pub to_be_bytes : ℕ → List ℕ
to_be_bytes n = n / 2 ^ 24 % 256 ∷ n / 2 ^ 16 % 256 ∷ n / 2 ^ 8 % 256 ∷ n % 256 ∷ []

unfoldable pub from_be_bytes : List ℕ → ℕ
from_be_bytes [] = 0
from_be_bytes (b ∷ bs) = b * 256 ^ length bs + from_be_bytes bs

-- `encode_frame`, from the bytes of the JSON on.
unfoldable pub frame_of : List ℕ → Result IoError (List ℕ)
unfolding to_be_bytes
frame_of body =
    if ltb (length body) (2 ^ 32) then ok (to_be_bytes (length body) ++ body) else err invalid_data

-- What a round of the connection's loop reads. An oversized frame comes with the end of its discarding.
pub data Event : Type 0 where
  frame : List ℕ → Event
  oversized : Result IoError (Unit {0}) → Event
  nothing : Event
  closed : Event
  failed : IoError → Event

module _ (stream : Stream) where
  -- Each round takes a byte or ends, so that `remaining` rounds are enough; the first argument counts them.
  unfoldable pub discard : ℕ → ℕ → stream.State → stream.State × Result IoError (Unit {0})
  discard zero remaining s = (s, ok tt)
  discard (suc fuel) remaining s =
      let (s', r) = stream.read (min remaining 4096) s in
      if remaining == 0 then (s, ok tt) else elim r [
        | broken e ↦ (s', err e)
        | got [] ↦ (s', ok tt)
        | got (b ∷ bs) ↦ discard fuel (remaining - length (b ∷ bs)) s'
      ]

  -- The same of the bytes that are missing from the buffer, which has `done`.
  unfoldable pub read_exact_resilient :
      ℕ → ℕ → List ℕ → stream.State → stream.State × Result IoError (List ℕ)
  read_exact_resilient zero missing done s = (s, ok done)
  read_exact_resilient (suc fuel) missing done s =
      let (s', r) = stream.read missing s in
      if missing == 0 then (s, ok done) else elim r [
        | broken e ↦ (s', err e)
        | got [] ↦ (s', err unexpected_eof)
        | got (b ∷ bs) ↦ read_exact_resilient fuel (missing - length (b ∷ bs)) (done ++ b ∷ bs) s'
      ]

  unfoldable pub after_discard :
      stream.State × Result IoError (Unit {0}) → stream.State × List ℕ × Event
  after_discard (s, r) = (s, [], oversized r)

  unfoldable pub after_body : stream.State × Result IoError (List ℕ) → stream.State × List ℕ × Event
  after_body (s, ok body) = (s, [], frame body)
  after_body (s, err e) = (s, [], failed e)

  unfoldable pub read_body : ℕ → stream.State → stream.State × List ℕ × Event
  unfolding after_discard after_body discard read_exact_resilient
  read_body n s =
      if ltb max_frame_bytes n
      then after_discard (discard n n s)
      else after_body (read_exact_resilient n n [] s)

  unfoldable pub after_read : List ℕ → stream.State × ReadEnd → stream.State × List ℕ × Event
  unfolding read_body from_be_bytes
  after_read head (s, broken would_block) = (s, head, nothing)
  after_read head (s, broken unexpected_eof) = (s, head, failed unexpected_eof)
  after_read head (s, broken invalid_data) = (s, head, failed invalid_data)
  after_read head (s, broken (other n)) = (s, head, failed (other n))
  after_read head (s, got []) = (s, head, closed)
  after_read head (s, got (b ∷ bs)) =
      if length (head ++ b ∷ bs) == 4
      then read_body (from_be_bytes (head ++ b ∷ bs)) s
      else (s, head ++ b ∷ bs, nothing)

  -- The reading part of a round; `head` has the bytes of the length that were read before.
  unfoldable pub receive : List ℕ → stream.State → stream.State × List ℕ × Event
  unfolding after_read
  receive head s = after_read head (stream.read (4 - length head) s)
