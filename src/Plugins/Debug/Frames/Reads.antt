-- ===== src/Plugins/Debug/Frames/Reads.antt =====
-- The reader of the frames, on a socket that gives the bytes in pieces of any size.
use shiny_song_tools.Prelude.{
  ℕ, zero, suc, ◌-◌, ◌≤◌, ◌<◌, ◌==◌, ◌≡◌, refl, sym, ap, ◌∙◌, arith, ◌⊎◌, inl, inr, Bool-cases,
  if_true, if_false, List, [], ◌∷◌, ◌++◌, length, length-append, append_assoc, append-[], Result,
  ok, err,
}
use shiny_song_tools.Plugins.Debug.Frames.{
  IoError, unexpected_eof, ReadEnd, got, broken, Reads, Stream, min, discard, read_exact_resilient,
}

module _ (stream : Stream) where
  -- The socket gave this error to some read.
  abbrev pub Broke : IoError → Type 0
  Broke e = (k : ℕ) × (s : stream.State) × ((stream.read k s).1 ≡ broken e)

  -- The missing bytes were taken from the front, and appended.
  abbrev pub IsExact : ℕ → List ℕ → List ℕ → stream.State × Result IoError (List ℕ) → Type 0
  IsExact missing done before (s, ok body) =
      (x : List ℕ) × (body ≡ done ++ x) × (before ≡ x ++ stream.to_come s) × (length x ≡ missing)
  IsExact missing done before (s, err e) = Broke e ⊎ (length before < missing)

  IsExact-append :
      (missing : ℕ) (done before bs : List ℕ) (s : stream.State)
      (r : stream.State × Result IoError (List ℕ))
      → before ≡ bs ++ stream.to_come s
      → length bs ≤ missing
      → IsExact (missing - length bs) (done ++ bs) (stream.to_come s) r
      → IsExact missing done before r
  IsExact-append missing done before bs s (s', ok body) e fits (x, e1, e2, e3) = (
    bs ++ x,
    e1 ∙ append_assoc done bs x,
    e ∙ ap (λ us. bs ++ us) e2 ∙ sym (append_assoc bs x (stream.to_come s')),
    omega (arith, length-append bs x),
  )
  IsExact-append missing done before bs s (s', err x) e fits (inl h) = inl h
  IsExact-append missing done before bs s (s', err x) e fits (inr short) =
      inr (omega (arith, ap length e, length-append bs (stream.to_come s), short))

  IsExact-step :
      (missing : ℕ) (done before : List ℕ) (x : stream.State × ReadEnd)
      (more : List ℕ → stream.State → stream.State × Result IoError (List ℕ))
      → 0 < missing
      → ((e : IoError) → x.1 ≡ broken e → Broke e)
      → Reads missing before (stream.to_come x.0) x.1
      → ((bs : List ℕ) (s : stream.State)
          → 0 < length bs
          → length bs ≤ missing
          → IsExact (missing - length bs) (done ++ bs) (stream.to_come s) (more bs s))
      → IsExact missing done before (elim x.1 [
        | broken e ↦ (x.0, err e)
        | got [] ↦ (x.0, err unexpected_eof)
        | got (b ∷ bs) ↦ more (b ∷ bs) x.0
      ])
  IsExact-step missing done before (s, got []) more left broke h go =
      inr (omega (arith, ap length h.0, left))
  IsExact-step missing done before (s, got (b ∷ bs)) more left broke h go =
      IsExact-append missing done before (b ∷ bs) s (more (b ∷ bs) s) h.0 h.1
        (go (b ∷ bs) s (omega arith) h.1)
  IsExact-step missing done before (s, broken e) more left broke h go = inl (broke e refl)

  pub read_exact_resilient-IsExact :
      (fuel missing : ℕ) (done : List ℕ) (s : stream.State)
      → missing ≤ fuel
      → IsExact missing done (stream.to_come s) (read_exact_resilient stream fuel missing done s)
  unfolding read_exact_resilient
  read_exact_resilient-IsExact zero missing done s h =
      ([], sym (append-[] done), refl, omega (arith, h))
  read_exact_resilient-IsExact (suc fuel) missing done s h = elim (Bool-cases (missing == 0)) [
    | inl e ↦
        if_true (IsExact missing done (stream.to_come s)) _ _ _ e
          ([], sym (append-[] done), refl, ground (arith, e))
    | inr e ↦ if_false (IsExact missing done (stream.to_come s)) _ _ _ e (
        IsExact-step missing done (stream.to_come s) (stream.read missing s)
          (λ bs s'. read_exact_resilient stream fuel (missing - length bs) (done ++ bs) s')
          (ground (arith, e)) (λ x h'. (missing, s, h'))
          (stream.read-Reads missing s (ground (arith, e)))
          (λ bs s' some_read fits.
            read_exact_resilient-IsExact fuel (missing - length bs) (done ++ bs) s'
              (omega (arith, h, some_read))))
  ]

  -- So many bytes were taken from the front, or the end was reached.
  abbrev pub IsDropped : ℕ → List ℕ → stream.State × Result IoError (Unit {0}) → Type 0
  IsDropped remaining before (s, ok u) =
      ((x : List ℕ) × (before ≡ x ++ stream.to_come s) × (length x ≡ remaining))
      ⊎ ((stream.to_come s ≡ []) × (length before < remaining))
  IsDropped remaining before (s, err e) = Broke e

  IsDropped-append :
      (remaining : ℕ) (before bs : List ℕ) (s : stream.State)
      (r : stream.State × Result IoError (Unit {0}))
      → before ≡ bs ++ stream.to_come s
      → length bs ≤ remaining
      → IsDropped (remaining - length bs) (stream.to_come s) r
      → IsDropped remaining before r
  IsDropped-append remaining before bs s (s', ok u) e fits (inl (x, e1, e2)) = inl (
    bs ++ x,
    e ∙ ap (λ us. bs ++ us) e1 ∙ sym (append_assoc bs x (stream.to_come s')),
    omega (arith, length-append bs x),
  )
  IsDropped-append remaining before bs s (s', ok u) e fits (inr (ended, short)) =
      inr (ended, omega (arith, ap length e, length-append bs (stream.to_come s), short))
  IsDropped-append remaining before bs s (s', err x) e fits h = h

  IsDropped-step :
      (k remaining : ℕ) (before : List ℕ) (x : stream.State × ReadEnd)
      (more : List ℕ → stream.State → stream.State × Result IoError (Unit {0}))
      → 0 < remaining
      → k ≤ remaining
      → ((e : IoError) → x.1 ≡ broken e → Broke e)
      → Reads k before (stream.to_come x.0) x.1
      → ((bs : List ℕ) (s : stream.State)
          → 0 < length bs
          → IsDropped (remaining - length bs) (stream.to_come s) (more bs s))
      → IsDropped remaining before (elim x.1 [
        | broken e ↦ (x.0, err e)
        | got [] ↦ (x.0, ok tt)
        | got (b ∷ bs) ↦ more (b ∷ bs) x.0
      ])
  IsDropped-step k remaining before (s, got []) more some_left below broke h go =
      inr (h.1, omega (arith, ap length h.0))
  IsDropped-step k remaining before (s, got (b ∷ bs)) more some_left below broke h go =
      IsDropped-append remaining before (b ∷ bs) s (more (b ∷ bs) s) h.0 (omega (arith, h.1, below))
        (go (b ∷ bs) s (omega arith))
  IsDropped-step k remaining before (s, broken e) more some_left below broke h go = broke e refl

  pub discard-IsDropped :
      (fuel remaining : ℕ) (s : stream.State)
      → remaining ≤ fuel
      → IsDropped remaining (stream.to_come s) (discard stream fuel remaining s)
  unfolding discard
  discard-IsDropped zero remaining s h = inl ([], refl, omega (arith, h))
  discard-IsDropped (suc fuel) remaining s h = elim (Bool-cases (remaining == 0)) [
    | inl e ↦
        if_true (IsDropped remaining (stream.to_come s)) _ _ _ e (inl ([], refl, ground (arith, e)))
    | inr e ↦
        let left : 0 < remaining = ground (arith, e) in
        if_false (IsDropped remaining (stream.to_come s)) _ _ _ e (
          IsDropped-step (min remaining 4096) remaining (stream.to_come s)
            (stream.read (min remaining 4096) s)
            (λ bs s'. discard stream fuel (remaining - length bs) s') left (ground arith)
            (λ x h'. (min remaining 4096, s, h'))
            (stream.read-Reads (min remaining 4096) s (ground (arith, left)))
            (λ bs s' some_read.
              discard-IsDropped fuel (remaining - length bs) s' (omega (arith, h, some_read))))
  ]
