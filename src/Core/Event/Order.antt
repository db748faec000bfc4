-- ===== src/Core/Event/Order.antt =====
-- Every event is received once and in order, still queued, or counted as dropped.
use shiny_song_tools.Prelude.{
  ℕ, zero, suc, ◌%◌, ◌^◌, ◌≤◌, ◌≡◌, refl, sym, ap, ◌∙◌, arith, Bool-cases, inl, inr, ltb, List, [],
  ◌∷◌, ◌++◌, length, append_assoc, List-cases,
}
use shiny_song_tools.Core.Mailbox.{ArrayQueue}
use shiny_song_tools.Core.Event.{
  CompactEvent, CallbackObservability, new, try_emit, drain, Use, emit, drain_up_to, Ledger, got,
  perform, perform_all, blank,
}

module _ (a : ArrayQueue CompactEvent) where
  drain-elements :
      (n : ℕ) (o : CallbackObservability a)
      → let (o', es) = drain a n o in
        (es ++ a.elements o'.queue ≡ a.elements o.queue)
        × (o'.dropped ≡ o.dropped)
        × (length es ≤ n)
  unfolding drain
  drain-elements zero o = (refl, refl, omega arith)
  drain-elements (suc n) o = elim (List-cases (a.elements o.queue)) [
    | inl nothing ↦
        let (gone, no_event) = a.popped_none o.queue nothing in
        rw (no_event, drain) (gone ∙ sym nothing, refl, omega arith)
    | inr (x, xs, e) ↦
        let (rest, got) = a.popped_some o.queue x xs e in
        let (order, kept, few) = drain-elements n (record o { queue = (a.pop o.queue).0 }) in
        rw (got, drain) (ap (λ es. x ∷ es) (order ∙ rest) ∙ sym e, kept, omega (arith, few))
  ]

  -- The events that the worker has received and the queued ones are those that were taken, in their
  -- order; the counter is that of the refused ones, as a 64-bit number.
  abbrev pub IsAccounted : Ledger a → Type 0
  IsAccounted l =
      (l.received ++ a.elements l.state.queue ≡ l.taken) × (l.state.dropped ≡ l.refused % 2 ^ 64)

  perform-IsAccounted : (u : Use a) (l : Ledger a) → IsAccounted l → IsAccounted (perform a u l)
  unfolding perform try_emit
  perform-IsAccounted (emit e) l h =
      let (shown, flag) = a.pushed l.state.queue e in
      elim (Bool-cases (ltb (length (a.elements l.state.queue)) a.capacity)) [
        | inl room ↦ ground (
          arith,
          h.0,
          h.1,
          shown,
          flag,
          room,
          append_assoc l.received (a.elements l.state.queue) (e ∷ []),
        )
        | inr no_room ↦ ground (arith, h.0, h.1, shown, flag, no_room)
      ]
  perform-IsAccounted (drain_up_to n) l h =
      let (order, kept, few) = drain-elements n l.state in
      let (o', es) = drain a n l.state in
      (
        append_assoc l.received es (a.elements o'.queue)
            ∙ (ap (λ xs. l.received ++ xs) order ∙ h.0),
        kept ∙ h.1,
      )

  perform_all-kept :
      (us : List (Use a)) (l : Ledger a) → IsAccounted l → IsAccounted (perform_all a us l)
  unfolding perform_all
  perform_all-kept [] l h = h
  perform_all-kept (u ∷ us) l h = perform_all-kept us (perform a u l) (perform-IsAccounted u l h)

  -- However emissions and drains are mixed on a new queue: the worker receives the events that were
  -- taken, each once and in the order of their emission, but for those still queued; and the dropped
  -- counter is the number of emissions that were refused, as a 64-bit number.
  pub perform_all-IsAccounted : (us : List (Use a)) → IsAccounted (perform_all a us (blank a))
  unfolding new
  perform_all-IsAccounted us = perform_all-kept us (blank a) (a.elements-new, refl)
