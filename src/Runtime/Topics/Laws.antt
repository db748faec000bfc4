-- ===== src/Runtime/Topics/Laws.antt =====
-- What the registry keeps, and what the retirement of an owner does to the topics.
use Prim.Native.String.{String}
use text.Mathlib.Text.{◌==◌ as str_eq}
use text.Mathlib.TextEquality.{eq_iff}
use shiny_song_tools.Prelude.{
  ℕ, ◌+◌, ◌≤◌, ◌≡◌, ◌≢◌, refl, ap, ◌∙◌, arith, false, Bool-cases, inl, inr, err, List, [], ◌∷◌,
  ◌++◌, length, All,
}
use shiny_song_tools.Core.Debug.{
  DebugQueuedRequest, DebugTopicChannel, debug_max_pending, plugin_unavailable, server, respond,
  leave_pending,
}
use shiny_song_tools.Core.Debug.Order.{in_order, answered, requested, answered_one}
use shiny_song_tools.Runtime.Topics.{
  TopicDomain, TopicEntry, TopicRegistry, has_name, register, refuse_all, fail_channel,
  fail_pending_requests,
}

module _ {V D : Type 0} where
  -- Each queued request has its pending slot, under the ceiling.
  abbrev pub IsWithin : TopicEntry V D → Type 0
  IsWithin e =
      (length e.channel.inbox ≤ e.channel.pending) × (e.channel.pending ≤ debug_max_pending)

  refuse_all-in_order :
      (qs : List (DebugQueuedRequest V D)) (c : DebugTopicChannel V D)
      → c.inbox ≡ []
      → (in_order (refuse_all qs c) ≡ answered c.outbox ++ requested qs)
        × ((refuse_all qs c).inbox ≡ [])
  unfolding refuse_all respond leave_pending
  refuse_all-in_order [] c e = (ap (λ i. answered c.outbox ++ requested i) e, e)
  refuse_all-in_order (q ∷ qs) c e =
      let (order, rest) =
        refuse_all-in_order qs
          (respond q (err (server plugin_unavailable "plugin retired; request not delivered")) c)
          e in
      (order ∙ answered_one c.outbox _ (requested qs), rest)

  refuse_all_pending :
      (qs : List (DebugQueuedRequest V D)) (c : DebugTopicChannel V D)
      → length qs ≤ c.pending
      → c.pending ≤ debug_max_pending
      → (refuse_all qs c).pending + length qs ≡ c.pending
  unfolding refuse_all respond leave_pending
  refuse_all_pending [] c h b = omega arith
  refuse_all_pending (q ∷ qs) c h b =
      let ih =
        refuse_all_pending qs
          (respond q (err (server plugin_unavailable "plugin retired; request not delivered")) c)
          (omega (arith, h, b)) (omega (arith, h, b)) in
      omega (arith, ih, h, b)

  -- The queued requests are answered, in their order and behind the earlier answers, and give up their
  -- pending slots.
  abbrev pub IsFailed : TopicEntry V D → TopicEntry V D → Type 0
  IsFailed e e' =
      (e'.channel.inbox ≡ [])
      × (in_order e'.channel ≡ in_order e.channel)
      × (e'.channel.pending + length e.channel.inbox ≡ e.channel.pending)

  abbrev pub Retired : ℕ → List (TopicEntry V D) → List (TopicEntry V D) → Type 0
  Retired owner [] [] = Unit
  Retired owner (e ∷ es) (e' ∷ es') =
      ((e.owner ≡ owner → IsFailed e e') × (e.owner ≢ owner → e' ≡ e)) × Retired owner es es'
  Retired owner _ _ = ⊥

  -- The retirement of an owner answers every request that is queued at a topic of it, in order, gives up
  -- the pending slots of these and no others, and leaves the topics of the other owners as they are.
  pub fail_pending_requests-Retired :
      (owner : ℕ) (es : List (TopicEntry V D))
      → All IsWithin es
      → Retired owner es (fail_pending_requests owner es)
  unfolding fail_pending_requests fail_channel
  fail_pending_requests-Retired owner [] h = tt
  fail_pending_requests-Retired owner (e ∷ es) h =
      let c : DebugTopicChannel V D = record e.channel { inbox = [] } in
      let (order, rest) = refuse_all-in_order e.channel.inbox c refl in
      let slots = refuse_all_pending e.channel.inbox c h.0.0 h.0.1 in
      (
        (λ mine. ground (arith, mine, order, rest, slots), λ other. ground (arith, other)),
        fail_pending_requests-Retired owner es h.1,
      )

  -- Every name is registered once.
  abbrev pub AreDistinct : List (TopicEntry V D) → Type 0
  AreDistinct [] = Unit
  AreDistinct (e ∷ es) = (has_name e.name es ≡ false) × AreDistinct es

  has_name-append :
      (name : String) (es : List (TopicEntry V D)) (x : TopicEntry V D)
      → has_name name es ≡ false
      → str_eq x.name name ≡ false
      → has_name name (es ++ x ∷ []) ≡ false
  unfolding has_name
  has_name-append name [] x h ne = ground (arith, ne)
  has_name-append name (e ∷ es) x h ne = elim (Bool-cases (str_eq e.name name)) [
    | inl same ↦ ground (arith, same, h)
    | inr other ↦ ground (arith, other, h, has_name-append name es x (ground (arith, other, h)) ne)
  ]

  AreDistinct-append :
      (es : List (TopicEntry V D)) (x : TopicEntry V D)
      → AreDistinct es
      → has_name x.name es ≡ false
      → AreDistinct (es ++ x ∷ [])
  unfolding has_name
  AreDistinct-append [] x h new = (refl, tt)
  AreDistinct-append (e ∷ es) x h new =
      let apart : str_eq e.name x.name ≡ false = elim (Bool-cases (str_eq e.name x.name)) [
        | inl same ↦ ground (arith, same, new)
        | inr other ↦ other
      ] in
      (
        has_name-append e.name es x h.0
            (ground (arith, apart, eq_iff x.name e.name, eq_iff e.name x.name)),
        AreDistinct-append es x h.1 (ground (arith, apart, new)),
      )

  -- A registration keeps the names of the topics distinct.
  pub register-AreDistinct :
      (owner : ℕ) (name : String) (d : TopicDomain) (c : DebugTopicChannel V D)
      (t : TopicRegistry V D)
      → AreDistinct t.entries
      → AreDistinct (register owner name d c t).0.entries
  unfolding register
  register-AreDistinct owner name d c t h = elim (Bool-cases (has_name name t.entries)) [
    | inl taken ↦ rw taken h
    | inr free ↦ rw free (AreDistinct-append t.entries _ h free)
  ]
