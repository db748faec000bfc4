-- ===== src/Core/Route/Delivery.antt =====
-- What a drain delivers, and what stays for the next one.
use shiny_song_tools.Prelude.{
  ℕ, zero, suc, ◌+◌, ◌≤◌, ◌≡◌, sym, ap, ◌∙◌, arith, Bool-cases, inl, inr, ltb, Option, none, some,
  List, [], ◌∷◌, ◌++◌, length, length-append, append-[], append_assoc, List-cases, append_split,
}
use shiny_song_tools.Core.Mailbox.{ArrayQueue, is_stored}
use shiny_song_tools.Core.Mailbox.BoundedQueue
use shiny_song_tools.Core.Route.{Draining, send_all, drain_rounds, drain_bounded, depth_bounded}

module _ {T : Type 0} (a : ArrayQueue T) where
  send_all_elements :
      (xs : List T) (q : a.State)
      → let (q', took) = send_all a xs q in a.elements q' ≡ a.elements q ++ took
  unfolding send_all is_stored BoundedQueue.try_send
  send_all_elements [] q = sym (append-[] (a.elements q))
  send_all_elements (x ∷ xs) q =
      let (q', done) = a.push q x in
      let rest = send_all_elements xs q' in
      let (shown, flag) = a.pushed q x in
      elim (Bool-cases (ltb (length (a.elements q)) a.capacity)) [
        | inl room ↦ ground (
          arith,
          rest,
          shown,
          flag,
          room,
          append_assoc (a.elements q) (x ∷ []) (send_all a xs q').1,
        )
        | inr no_room ↦ ground (arith, rest, shown, flag, no_room)
      ]

  -- The messages and the queue together are those of the start and what was taken since.
  abbrev IsConserved : List T → Draining a → Type 0
  IsConserved start d = d.messages ++ a.elements d.queue ≡ start ++ d.taken

  abbrev After : List T → ℕ → Draining a → Draining a → Type 0
  After start n d d' =
      IsConserved start d'
      × (length d'.messages + d.delivered ≡ length d.messages + d'.delivered)
      × (d'.delivered ≤ d.delivered + n)
      × (n ≤ length (a.elements d.queue) → d'.delivered ≡ d.delivered + n)

  drain_rounds-After :
      (sends : ℕ → List T) (n : ℕ) (d : Draining a) (start : List T)
      → IsConserved start d
      → After start n d (drain_rounds a sends n d)
  unfolding drain_rounds BoundedQueue.try_read
  drain_rounds-After sends zero d start h = (h, omega arith, omega arith, λ le. omega arith)
  drain_rounds-After sends (suc n) d start h =
      let (q, took) = send_all a (sends n) d.queue in
      let shown = send_all_elements (sends n) d.queue in
      let grown : d.messages ++ a.elements q ≡ start ++ (d.taken ++ took) =
        ((ap (λ es. d.messages ++ es) shown
            ∙ sym (append_assoc d.messages (a.elements d.queue) took))
          ∙ ap (λ es. es ++ took) h)
        ∙ append_assoc start d.taken took in
      elim (List-cases (a.elements q)) [
        | inl none_left ↦
            let (gone, nothing) = a.popped_none q none_left in
            rw (nothing, drain_rounds)
              (
                ap (λ es. d.messages ++ es) (gone ∙ sym none_left) ∙ grown,
                omega arith,
                omega arith,
                λ le. omega (
                  arith,
                  le,
                  ap length none_left,
                  ap length shown,
                  length-append (a.elements d.queue) took,
                ),
              )
        | inr (x, xs, e) ↦
            let (rest, got) = a.popped_some q x xs e in
            let q' = (a.pop q).0 in
            let d' : Draining a = record {
              queue = q';
              messages = d.messages ++ x ∷ [];
              delivered = d.delivered + 1;
              taken = d.taken ++ took;
            } in
            let kept : IsConserved start d' =
              (append_assoc d.messages (x ∷ []) (a.elements q')
                ∙ ap (λ es. d.messages ++ es) (ap (λ es. x ∷ es) rest ∙ sym e))
              ∙ grown in
            let (c, l, b, m) = drain_rounds-After sends n d' start kept in
            rw (got, drain_rounds)
              (
                c,
                omega (arith, l, length-append d.messages (x ∷ [])),
                omega (arith, b),
                λ le. omega (
                  arith,
                  m (
                      omega (
                        arith,
                        le,
                        ap length e,
                        ap length rest,
                        ap length shown,
                        length-append (a.elements d.queue) took,
                      )),
                  le,
                ),
              )
      ]

  -- What the drain of a bounded route comes to.
  abbrev pub Delivers : List T → a.State → Option (Draining a) → Type 0
  Delivers ms q none = ⊥
  Delivers ms q (some d) =
      (d.messages ≡ ms ++ a.elements q)
      × (a.elements d.queue ≡ d.taken)
      × (d.delivered ≡ length (a.elements q))

  -- A bounded route that is drained with its depth as the watermark delivers exactly the values that it
  -- held, in their order, behind the earlier messages; what callbacks send while the drain runs, as far
  -- as the queue takes it, stays queued for the next frame, in its order.
  pub drain_bounded-Delivers :
      (sends : ℕ → List T) (q : a.State) (ms : List T)
      → Delivers ms q (drain_bounded a sends (depth_bounded a q) q (some ms))
  unfolding drain_bounded depth_bounded BoundedQueue.len
  drain_bounded-Delivers sends q ms =
      let d : Draining a = record { queue = q; messages = ms; delivered = 0; taken = [] } in
      let d' = drain_rounds a sends (a.len q) d in
      let (c, l, b, m) =
        drain_rounds-After sends (a.len q) d (ms ++ a.elements q) (sym (append-[] _)) in
      let all = m (omega (arith, a.len-elements q)) in
      let (told, left) =
        append_split d'.messages (ms ++ a.elements q) (a.elements d'.queue) d'.taken c
          (omega (arith, l, all, a.len-elements q, length-append ms (a.elements q))) in
      (told, left, omega (arith, all, a.len-elements q))
