-- ===== src/Core/Debug/Order.antt =====
-- What becomes of the requests of a channel.
use shiny_song_tools.Prelude.{
  ℕ, ◌+◌, ◌≤◌, ◌<◌, ◌≡◌, refl, sym, ap, ◌∙◌, arith, leb, Result, ok, err, Option-cases, if-elim,
  inl, inr, List, [], ◌∷◌, ◌++◌, length, length-append, append-[], append_assoc,
}
use shiny_song_tools.Core.Debug.{
  DebugQueuedRequest, DebugResponse, DebugTopicChannel, DebugWireError, Payload, Handler,
  debug_max_pending, enqueue, leave_pending, respond, attempt, serve, run,
}

module _ {V : Type 0} where
  abbrev pub answered : List (DebugResponse V) → List (V × ℕ)
  answered [] = []
  answered (r ∷ rs) = (r.id, r.generation) ∷ answered rs

  pub answered_one :
      (rs : List (DebugResponse V)) (r : DebugResponse V) (ks : List (V × ℕ))
      → answered (rs ++ r ∷ []) ++ ks ≡ answered rs ++ (r.id, r.generation) ∷ ks
  answered_one [] r ks = refl
  answered_one (x ∷ rs) r ks = ap (λ ys. (x.id, x.generation) ∷ ys) (answered_one rs r ks)

module _ {V D : Type 0} where
  -- A request and its response carry the same id and the same generation of the connection.
  abbrev pub requested : List (DebugQueuedRequest V D) → List (V × ℕ)
  requested [] = []
  requested (q ∷ qs) = (q.id, q.generation) ∷ requested qs

  -- All the requests of a channel that are answered or queued, in order.
  abbrev pub in_order : DebugTopicChannel V D → List (V × ℕ)
  in_order c = answered c.outbox ++ requested c.inbox

  -- The pending count is that of the inbox and of `k` requests elsewhere, and at most the ceiling.
  abbrev pub IsCounted : ℕ → DebugTopicChannel V D → Type 0
  IsCounted k c = (c.pending ≡ length c.inbox + k) × (c.pending ≤ debug_max_pending)

  requested-append :
      (qs ps : List (DebugQueuedRequest V D)) → requested (qs ++ ps) ≡ requested qs ++ requested ps
  requested-append [] ps = refl
  requested-append (q ∷ qs) ps = ap (λ ks. (q.id, q.generation) ∷ ks) (requested-append qs ps)

  pub in_order-respond :
      (q : DebugQueuedRequest V D) (r : Result DebugWireError V) (c : DebugTopicChannel V D)
      → in_order (respond q r c) ≡ answered c.outbox ++ (q.id, q.generation) ∷ requested c.inbox
  unfolding respond leave_pending
  in_order-respond q r c =
      answered_one c.outbox (record { id = q.id; result = r; generation = q.generation })
        (requested c.inbox)

  pub respond-IsCounted :
      (q : DebugQueuedRequest V D) (r : Result DebugWireError V) (c : DebugTopicChannel V D) (k : ℕ)
      → IsCounted (k + 1) c
      → IsCounted k (respond q r c)
  unfolding respond leave_pending
  respond-IsCounted q r c k h = (omega (arith, h.0, h.1), omega (arith, h.0, h.1))

  module _ {S : Type 0} (h : Handler S V D) where
    serve-in_order :
        (qs : List (DebugQueuedRequest V D)) (s : S) (c : DebugTopicChannel V D)
        → in_order (serve h qs s c).1 ≡ answered c.outbox ++ (requested qs ++ requested c.inbox)
    unfolding serve respond leave_pending
    serve-in_order [] s c = refl
    serve-in_order (q ∷ qs) s c =
        let (s', r) = attempt h s q.payload in
        elim (Option-cases r) [
          | inl e ↦
              rw (e, serve)
                (in_order-respond q _ (record c { inbox = qs ++ c.inbox })
                  ∙ ap (λ ks. answered c.outbox ++ (q.id, q.generation) ∷ ks)
                      (requested-append qs c.inbox))
          | inr (a, e) ↦
              rw (e, serve)
                (serve-in_order qs s' (respond q a c)
                  ∙ answered_one c.outbox
                      (record { id = q.id; result = a; generation = q.generation })
                      (requested qs ++ requested c.inbox))
        ]

    serve-IsCounted :
        (qs : List (DebugQueuedRequest V D)) (s : S) (c : DebugTopicChannel V D) (k : ℕ)
        → IsCounted (length qs + k) c
        → IsCounted k (serve h qs s c).1
    unfolding serve respond leave_pending
    serve-IsCounted [] s c k counted = (omega (arith, counted.0), counted.1)
    serve-IsCounted (q ∷ qs) s c k counted =
        let (s', r) = attempt h s q.payload in
        elim (Option-cases r) [
          | inl e ↦
              rw (e, serve)
                (
                  omega (arith, counted.0, counted.1, length-append qs c.inbox),
                  omega (arith, counted.0, counted.1),
                )
          | inr (a, e) ↦
              rw (e, serve)
                (serve-IsCounted qs s' (respond q a c) k
                  (omega (arith, counted.0, counted.1), omega (arith, counted.0, counted.1)))
        ]

    -- The handler system of a topic neither loses nor reorders nor repeats a request: the requests answered
    -- or queued stay the same, in their order, also when a handler panics; and each request keeps its
    -- pending slot until it is answered.
    pub run-in_order :
        (s : S) (c : DebugTopicChannel V D) (k : ℕ)
        → IsCounted k c
        → (in_order (run h s c).1 ≡ in_order c) × IsCounted k (run h s c).1
    unfolding run
    run-in_order s c k counted = (
      serve-in_order c.inbox s (record c { inbox = [] })
          ∙ ap (λ ks. answered c.outbox ++ ks) (append-[] (requested c.inbox)),
      serve-IsCounted c.inbox s (record c { inbox = [] }) k (omega (arith, counted.0), counted.1),
    )

  -- What a dispatch does to a channel with `k` requests elsewhere.
  abbrev pub Enqueued :
      ℕ
      → V
      → ℕ
      → DebugTopicChannel V D
      → DebugTopicChannel V D × Result DebugWireError (Unit {0})
      → Type 0
  Enqueued k id generation c (c', ok u) =
      (in_order c' ≡ in_order c ++ (id, generation) ∷ [])
      × IsCounted k c'
      × (c.pending < debug_max_pending)
  Enqueued k id generation c (c', err e) = (c' ≡ c) × (c.pending ≡ debug_max_pending)

  -- A dispatched request joins the end of the order and takes a pending slot, or is refused, with the
  -- channel unchanged, exactly when the ceiling is reached.
  pub enqueue-Enqueued :
      (id : V) (payload : Payload D) (generation : ℕ) (c : DebugTopicChannel V D) (k : ℕ)
      → IsCounted k c
      → Enqueued k id generation c (enqueue id payload generation c)
  unfolding enqueue
  enqueue-Enqueued id payload generation c k counted =
      let q : DebugQueuedRequest V D = record {
        id = id;
        payload = payload;
        generation = generation;
      } in
      if-elim (Enqueued k id generation c) (leb debug_max_pending c.pending) _ _
        (λ full. (refl, ground (arith, full, counted.1)))
        (λ free. (
          ap (λ ks. answered c.outbox ++ ks) (requested-append c.inbox (q ∷ []))
              ∙ sym (append_assoc (answered c.outbox) (requested c.inbox) ((id, generation) ∷ [])),
          (
            ground (arith, free, counted.0, counted.1, length-append c.inbox (q ∷ [])),
            ground (arith, free, counted.1),
          ),
          ground (arith, free),
        ))
