-- ===== src/Plugins/Recon/Callers.antt =====
-- What the search for callers finds.
use shiny_song_tools.Prelude.{
  ℕ, zero, suc, ◌+◌, ◌-◌, ◌/◌, ◌≤◌, ◌<◌, ◌≡◌, refl, sym, ap, subst, ◌∙◌, arith, true, false,
  if_true, if_false, Bool-cases, inl, inr, List, [], ◌∷◌, ◌++◌, length, length-append, append_assoc,
  append-[], ltb, take, take-nil, take-length, take-append_full, length-take_full, if◌then◌else◌,
}
use shiny_song_tools.Plugins.Recon.{CallersResponse, calls, record_caller, scan, callers_query}

module _ (read_u32 : ℕ → ℕ) (base target : ℕ) where
  -- The callers among the words from `pc` on, in their order, from the base of the image.
  abbrev pub callers : ℕ → ℕ → List ℕ
  callers pc zero = []
  callers pc (suc left) =
      let rest = callers (pc + 4) left in
      if calls target pc (read_u32 pc) then (pc - base) ∷ rest else rest

  -- The response reports this list.
  pub record Reports (limit : ℕ) (found : List ℕ) (r : CallersResponse) : Type 0 where
    pub all_counted : r.total ≡ length found
    pub first_kept : r.caller_rvas ≡ take limit found
    pub truncation : r.truncated ≡ ltb limit (length found)

  record_caller-Reports :
      (limit rva : ℕ) (found : List ℕ) (r : CallersResponse)
      → Reports limit found r
      → Reports limit (found ++ rva ∷ []) (record_caller limit rva r)
  unfolding record_caller
  record_caller-Reports limit rva found r h = elim (Bool-cases (ltb (length found) limit)) [
    | inl less ↦
        let short : length found < limit = ground (arith, less) in
        let n = length-append found (rva ∷ []) in
        let kept : r.caller_rvas ≡ found =
          h.first_kept ∙ take-length limit found (omega (arith, short)) in
        let test : ltb (length r.caller_rvas) limit ≡ true =
          ap (λ (us : List ℕ). ltb (length us) limit) kept ∙ less in
        if_true (Reports limit (found ++ rva ∷ [])) _ _ _ test (record {
          all_counted = omega (arith, h.all_counted, n);
          first_kept =
              ap (λ us. us ++ rva ∷ []) kept
              ∙ sym (take-length limit (found ++ rva ∷ []) (omega (arith, short, n)));
          truncation = ground (arith, h.truncation, short, n);
        })
    | inr more ↦
        let long : limit ≤ length found = ground (arith, more) in
        let n = length-append found (rva ∷ []) in
        let full : length r.caller_rvas ≡ limit =
          ap length h.first_kept ∙ length-take_full limit found long in
        let test : ltb (length r.caller_rvas) limit ≡ false = ground (arith, full) in
        if_false (Reports limit (found ++ rva ∷ [])) _ _ _ test (record {
          all_counted = omega (arith, h.all_counted, n);
          first_kept = h.first_kept ∙ sym (take-append_full limit found (rva ∷ []) long);
          truncation = ground (arith, long, n);
        })
  ]

  scan-Reports :
      (limit pc left : ℕ) (found : List ℕ) (r : CallersResponse)
      → Reports limit found r
      → Reports limit (found ++ callers pc left) (scan read_u32 base target limit pc left r)
  unfolding scan
  scan-Reports limit pc zero found r h = subst (λ us. Reports limit us r) (sym (append-[] found)) h
  scan-Reports limit pc (suc left) found r h = elim (Bool-cases (calls target pc (read_u32 pc))) [
    | inl call ↦
        let next = record_caller limit (pc - base) r in
        let rest =
          scan-Reports limit (pc + 4) left (found ++ (pc - base) ∷ []) next
            (record_caller-Reports limit (pc - base) found r h) in
        rw call (
          subst (λ us. Reports limit us (scan read_u32 base target limit (pc + 4) left next))
            (append_assoc found ((pc - base) ∷ []) (callers (pc + 4) left)) rest)
    | inr other ↦ rw other (scan-Reports limit (pc + 4) left found r h)
  ]

  -- The response counts all callers among the words of the section, lists the first of them up to the limit,
  -- in their order, and says that it is truncated exactly if there are more of them than the limit.
  pub callers_query-Reports :
      (limit text_va text_size : ℕ)
      → Reports limit
          (callers text_va ((text_size + 3) / 4))
          (callers_query read_u32 base target limit text_va text_size)
  unfolding callers_query
  callers_query-Reports limit text_va text_size =
      scan-Reports limit text_va ((text_size + 3) / 4) []
        (record { total = 0; truncated = false; caller_rvas = [] })
        (record { all_counted = refl; first_kept = take-nil limit; truncation = ground arith })
