-- ===== src/Plugins/Debug/Frames/InStep.antt =====
-- The reader stays in step with the frames that the peer sends.
use shiny_song_tools.Prelude.{
  ℕ, ◌-◌, ◌^◌, ◌≤◌, ◌<◌, ◌==◌, ◌≡◌, refl, sym, ap, subst, ◌∙◌, arith, inl, inr, Bool-cases, if_true,
  if_false, List, [], ◌∷◌, ◌++◌, length, length-append, append_assoc, append_split, All, ltb,
  Result, ok, err,
}
use shiny_song_tools.Plugins.Debug.{max_frame_bytes}
use shiny_song_tools.Plugins.Debug.Frames.{
  IoError, would_block, unexpected_eof, invalid_data, other, ReadEnd, got, broken, Reads, Stream,
  to_be_bytes, from_be_bytes, Event, frame, oversized, nothing, closed, failed, read_body,
  after_read, receive, after_discard, after_body,
}
use shiny_song_tools.Plugins.Debug.Frames.Reads.{
  Broke, IsExact, IsDropped, read_exact_resilient-IsExact, discard-IsDropped,
}

from_be_bytes-to_be_bytes : (n : ℕ) → n < 2 ^ 32 → from_be_bytes (to_be_bytes n) ≡ n
unfolding from_be_bytes to_be_bytes
from_be_bytes-to_be_bytes n h = omega arith

length-to_be_bytes : (n : ℕ) → length (to_be_bytes n) ≡ 4
unfolding to_be_bytes
length-to_be_bytes n = refl

-- What a peer sends that sends these bodies as frames.
abbrev pub wire : List (List ℕ) → List ℕ
wire [] = []
wire (b ∷ bs) = to_be_bytes (length b) ++ (b ++ wire bs)

module _ (stream : Stream) where
  -- What was read, where the peer sends these bodies: the first of them, as a frame if it is not too long;
  -- or a part of its length; or the end, if there is none; or an error of the socket.
  abbrev pub InStep : List (List ℕ) → stream.State × List ℕ × Event → Type 0
  InStep bodies (s, head, frame b) =
      (rest : List (List ℕ)) × (bodies ≡ b ∷ rest)
      × (length b ≤ max_frame_bytes)
      × (head ≡ [])
      × (stream.to_come s ≡ wire rest)
  InStep bodies (s, head, oversized (ok u)) =
      (b : List ℕ) × (rest : List (List ℕ)) × (bodies ≡ b ∷ rest)
      × (max_frame_bytes < length b)
      × (head ≡ [])
      × (stream.to_come s ≡ wire rest)
  InStep bodies (s, head, oversized (err e)) = Broke stream e
  InStep bodies (s, head, nothing) = (head ++ stream.to_come s ≡ wire bodies) × (length head < 4)
  InStep bodies (s, head, closed) = bodies ≡ []
  InStep bodies (s, head, failed e) = Broke stream e

  after_body-InStep :
      (b : List ℕ) (rest : List (List ℕ)) (before : List ℕ)
      (r : stream.State × Result IoError (List ℕ))
      → length b ≤ max_frame_bytes
      → before ≡ b ++ wire rest
      → IsExact stream (length b) [] before r
      → InStep (b ∷ rest) (after_body stream r)
  unfolding after_body
  after_body-InStep b rest before (s, ok body) fits e (x, e1, e2, e3) =
      let (same, left) =
        append_split x b (stream.to_come s) (wire rest) (sym e2 ∙ e) (omega (arith, e3)) in
      (
        rest,
        ap (λ us. us ∷ rest) (sym (e1 ∙ same)),
        omega (arith, ap length e1, e3, fits),
        refl,
        left,
      )
  after_body-InStep b rest before (s, err x) fits e (inl h) = h
  after_body-InStep b rest before (s, err x) fits e (inr short) =
      absurd (omega (arith, ap length e, length-append b (wire rest), short))

  after_discard-InStep :
      (b : List ℕ) (rest : List (List ℕ)) (before : List ℕ)
      (r : stream.State × Result IoError (Unit {0}))
      → max_frame_bytes < length b
      → before ≡ b ++ wire rest
      → IsDropped stream (length b) before r
      → InStep (b ∷ rest) (after_discard stream r)
  unfolding after_discard
  after_discard-InStep b rest before (s, ok u) long e (inl (x, e1, e2)) =
      let (same, left) =
        append_split x b (stream.to_come s) (wire rest) (sym e1 ∙ e) (omega (arith, e2)) in
      (b, rest, refl, long, refl, left)
  after_discard-InStep b rest before (s, ok u) long e (inr (ended, short)) =
      absurd (omega (arith, ap length e, length-append b (wire rest), short))
  after_discard-InStep b rest before (s, err x) long e h = h

  read_body-InStep :
      (b : List ℕ) (rest : List (List ℕ)) (s : stream.State)
      → stream.to_come s ≡ b ++ wire rest
      → InStep (b ∷ rest) (read_body stream (length b) s)
  unfolding read_body
  read_body-InStep b rest s e = elim (Bool-cases (ltb max_frame_bytes (length b))) [
    | inl t ↦ if_true (InStep (b ∷ rest)) _ _ _ t (
        after_discard-InStep b rest (stream.to_come s) _ (ground (arith, t)) e
          (discard-IsDropped stream (length b) (length b) s (omega arith)))
    | inr t ↦ if_false (InStep (b ∷ rest)) _ _ _ t (
        after_body-InStep b rest (stream.to_come s) _ (ground (arith, t)) e
          (read_exact_resilient-IsExact stream (length b) (length b) [] s (omega arith)))
  ]

  -- The bytes that a read took complete a part of the length of the first body, or all of it.
  full-InStep :
      (bodies : List (List ℕ)) (head : List ℕ) (s : stream.State)
      → length head ≡ 4
      → head ++ stream.to_come s ≡ wire bodies
      → All (λ b. length b < 2 ^ 32) bodies
      → InStep bodies (read_body stream (from_be_bytes head) s)
  full-InStep [] head s full e small =
      absurd (omega (arith, full, ap length e, length-append head (stream.to_come s)))
  full-InStep (b ∷ rest) head s full e small =
      let (same, left) =
        append_split head (to_be_bytes (length b)) (stream.to_come s) (b ++ wire rest) e
          (omega (arith, full, length-to_be_bytes (length b))) in
      let n : from_be_bytes head ≡ length b =
        ap from_be_bytes same ∙ from_be_bytes-to_be_bytes (length b) small.0 in
      subst (λ k. InStep (b ∷ rest) (read_body stream k s)) (sym n) (read_body-InStep b rest s left)

  after_read-InStep :
      (bodies : List (List ℕ)) (head before : List ℕ) (x : stream.State × ReadEnd)
      → length head < 4
      → head ++ before ≡ wire bodies
      → All (λ b. length b < 2 ^ 32) bodies
      → ((e : IoError) → x.1 ≡ broken e → Broke stream e)
      → Reads (4 - length head) before (stream.to_come x.0) x.1
      → InStep bodies (after_read stream head x)
  unfolding after_read
  after_read-InStep bodies head before (s, broken would_block) part e small broke h =
      (ap (λ us. head ++ us) (sym h) ∙ e, part)
  after_read-InStep bodies head before (s, broken unexpected_eof) part e small broke h =
      broke _ refl
  after_read-InStep bodies head before (s, broken invalid_data) part e small broke h = broke _ refl
  after_read-InStep bodies head before (s, broken (other n)) part e small broke h = broke _ refl
  after_read-InStep [] head before (s, got []) part e small broke h = refl
  after_read-InStep (b ∷ rest) head before (s, got []) part e small broke h = absurd (
      omega (
        arith,
        ap length e,
        ap length h.0,
        length-append head before,
        length-append (to_be_bytes (length b)) (b ++ wire rest),
        length-to_be_bytes (length b),
        part,
      ))
  after_read-InStep bodies head before (s, got (c ∷ cs)) part e small broke h =
      let e' : (head ++ c ∷ cs) ++ stream.to_come s ≡ wire bodies =
        append_assoc head (c ∷ cs) (stream.to_come s) ∙ ap (λ us. head ++ us) (sym h.0) ∙ e in
      elim (Bool-cases (length (head ++ c ∷ cs) == 4)) [
        | inl t ↦
            if_true (InStep bodies) _ _ _ t
              (full-InStep bodies (head ++ c ∷ cs) s (ground (arith, t)) e' small)
        | inr t ↦
            if_false (InStep bodies) _ _ _ t
              (e', ground (arith, t, length-append head (c ∷ cs), h.1, part))
      ]

  -- Where a peer sends bodies of less than 2 ^ 32 bytes as frames, and the reader has less than four bytes
  -- of the next length, a round reads, however the socket divides the bytes: the next body whole; or
  -- passes over it whole if it is longer than the limit; or a part of its length, which it keeps; or sees
  -- the end, after the last body only. It fails only by an error that the socket gave.
  pub receive-InStep :
      (bodies : List (List ℕ)) (head : List ℕ) (s : stream.State)
      → length head < 4
      → head ++ stream.to_come s ≡ wire bodies
      → All (λ b. length b < 2 ^ 32) bodies
      → InStep bodies (receive stream head s)
  unfolding receive
  receive-InStep bodies head s part e small =
      after_read-InStep bodies head (stream.to_come s) (stream.read (4 - length head) s) part e
        small (λ x h. (4 - length head, s, h))
        (stream.read-Reads (4 - length head) s (omega (arith, part)))
