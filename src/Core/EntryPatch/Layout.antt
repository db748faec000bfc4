-- ===== src/Core/EntryPatch/Layout.antt =====
-- Where the code of each displaced instruction lies in the trampoline.
use shiny_song_tools.Prelude.{
  ℕ, ◌+◌, ◌-◌, ◌*◌, ◌≤◌, ◌≡◌, refl, sym, ap, ◌∙◌, true, arith, ok, Result-cases, inl, inr, some,
  List, [], ◌∷◌, ◌++◌, length, length-append, append-[], append_assoc,
}
use shiny_song_tools.Core.EntryPatch.{
  Plan, verbatim, b, bl, b_cond, cbz_cbnz, tbz_tbnz, Window, plan_op, plan_size,
}
use shiny_song_tools.Core.EntryPatch.Emit.{
  mov_imm48, far_jump_seq, emit_op, plans, positions, pos_at, pad, emit_all, window_of, tail_of,
  build_trampoline,
}

-- The size that the first pass computes of a plan is the length of the code that the second pass emits
-- for it.
pub length-emit_op :
    (p : Plan) (index pos : ℕ) (ops_pos : List ℕ) (w : Window) (base : ℕ)
    → length (emit_op p index pos ops_pos w base) ≡ plan_size p w
unfolding emit_op plan_size far_jump_seq mov_imm48
length-emit_op (verbatim op) index pos ops_pos w base = refl
length-emit_op (b target) index pos ops_pos w base = ground arith
length-emit_op (bl target) index pos ops_pos w base = ground arith
length-emit_op (b_cond cond inverted target) index pos ops_pos w base = ground arith
length-emit_op (cbz_cbnz op rt target) index pos ops_pos w base = ground arith
length-emit_op (tbz_tbnz op rt target) index pos ops_pos w base = ground arith

plan_size-bounds : (p : Plan) (w : Window) → plan_size p w ≤ 7
unfolding plan_size
plan_size-bounds (verbatim op) w = omega arith
plan_size-bounds (b target) w = ground arith
plan_size-bounds (bl target) w = ground arith
plan_size-bounds (b_cond cond inverted target) w = ground arith
plan_size-bounds (cbz_cbnz op rt target) w = ground arith
plan_size-bounds (tbz_tbnz op rt target) w = ground arith

abbrev pub total : List Plan → Window → ℕ
total [] w = 0
total (p ∷ ps) w = plan_size p w + total ps w

-- The code of the plans in a row, from a word offset on.
abbrev pub in_a_row : List Plan → ℕ → ℕ → List ℕ → Window → ℕ → List ℕ
in_a_row [] index pos ops_pos w base = []
in_a_row (p ∷ ps) index pos ops_pos w base =
    emit_op p index pos ops_pos w base
    ++ in_a_row ps (index + 1) (pos + plan_size p w) ops_pos w base

length-in_a_row :
    (ps : List Plan) (index pos : ℕ) (ops_pos : List ℕ) (w : Window) (base : ℕ)
    → length (in_a_row ps index pos ops_pos w base) ≡ total ps w
length-in_a_row [] index pos ops_pos w base = refl
length-in_a_row (p ∷ ps) index pos ops_pos w base = omega (
  arith,
  length-append (emit_op p index pos ops_pos w base)
      (in_a_row ps (index + 1) (pos + plan_size p w) ops_pos w base),
  length-emit_op p index pos ops_pos w base,
  length-in_a_row ps (index + 1) (pos + plan_size p w) ops_pos w base,
)

total-bounds : (ps : List Plan) (w : Window) → total ps w ≤ 7 * length ps
total-bounds [] w = omega arith
total-bounds (p ∷ ps) w = omega (arith, plan_size-bounds p w, total-bounds ps w)

pos_at_append :
    (before : List ℕ) (x : ℕ) (after : List ℕ) → pos_at (before ++ x ∷ after) (length before) ≡ x
pos_at_append [] x after = refl
pos_at_append (y ∷ before) x after = pos_at_append before x after

padded :
    (buf code : List ℕ) (pos : ℕ)
    → pos ≡ length buf
    → (buf ++ pad (pos - length buf)) ++ code ≡ buf ++ code
unfolding pad
padded buf code pos h =
    let none_left : pos - length buf ≡ 0 = omega (arith, h) in
    ap (λ n. (buf ++ pad n) ++ code) none_left ∙ ap (λ ys. ys ++ code) (append-[] buf)

-- Emission from the middle: the positions before are those of the code in the buffer.
emit_all-in_a_row :
    (ps : List Plan) (before ops_pos : List ℕ) (w : Window) (base : ℕ) (buf : List ℕ) (index n : ℕ)
    → index ≡ length before
    → n ≡ length buf
    → ops_pos ≡ before ++ positions ps w n
    → emit_all ps index ops_pos w base buf ≡ buf ++ in_a_row ps index n ops_pos w base
unfolding emit_all positions
emit_all-in_a_row [] before ops_pos w base buf index n i e h = sym (append-[] buf)
emit_all-in_a_row (p ∷ ps) before ops_pos w base buf index n i e h =
    let code : ℕ → List ℕ = λ pos. emit_op p index pos ops_pos w base in
    let step : ℕ → List ℕ = λ pos. (buf ++ pad (pos - length buf)) ++ code pos in
    let rest = n + plan_size p w in
    let here : pos_at ops_pos index ≡ n =
      (ap (λ o. pos_at o index) h ∙ ap (pos_at (before ++ n ∷ positions ps w rest)) i)
      ∙ pos_at_append before n (positions ps w rest) in
    let grown : step (pos_at ops_pos index) ≡ buf ++ code n =
      ap step here ∙ padded buf (code n) n e in
    let lengths = length-append buf (code n) in
    let ih =
      emit_all-in_a_row ps (before ++ n ∷ []) ops_pos w base (buf ++ code n) (index + 1) rest
        (omega (arith, i, length-append before (n ∷ [])))
        (omega (arith, e, lengths, length-emit_op p index n ops_pos w base))
        (h ∙ sym (append_assoc before (n ∷ []) (positions ps w rest))) in
    (ap (emit_all ps (index + 1) ops_pos w base) grown ∙ ih)
    ∙ append_assoc buf (code n) (in_a_row ps (index + 1) rest ops_pos w base)

plans-length :
    (ops : List ℕ) (pc : ℕ) (ps : List Plan) → plans ops pc ≡ ok ps → length ps ≡ length ops
unfolding plans
plans-length [] pc ps h = ground arith
plans-length (op ∷ ops) pc ps h = elim (Result-cases (plan_op op pc)) [
  | inl (p, e) ↦ elim (Result-cases (plans ops (pc + 4))) [
    | inl (qs, e') ↦ ground (arith, e, e', h, plans-length ops (pc + 4) qs e')
    | inr (x, e') ↦ ground (arith, e, e', h)
  ]
  | inr (x, e) ↦ ground (arith, e, h)
]

-- What a trampoline at `base` consists of: the code of the plans in a row, each at the position that
-- the branches into the window use for it, and the jump back behind the displaced instructions; at
-- most seven words for each displaced one and four for the jump.
abbrev pub IsLaid : ℕ → List ℕ → List Plan → ℕ × List ℕ → Type 0
IsLaid entry ops ps (base, words) =
    let w = window_of entry ops in
    (words ≡ in_a_row ps 0 0 (positions ps w 0) w base ++ tail_of (entry + length ops * 4))
    × (length words ≡ total ps w + 4)
    × (length words ≤ 7 * length ops + 4)

-- If the displaced instructions can be planned and the page is there, the trampoline is built and laid
-- out so: no padding is ever needed, and four displaced instructions, the most that an entry patch
-- has, take up no more than 128 bytes.
pub build_trampoline-IsLaid :
    (base entry : ℕ) (ops : List ℕ) (ps : List Plan)
    → plans ops entry ≡ ok ps
    → (t : ℕ × List ℕ) × (build_trampoline (some base) true entry ops ≡ ok t)
      × IsLaid entry ops ps t
unfolding build_trampoline tail_of
build_trampoline-IsLaid base entry ops ps h =
    let w = window_of entry ops in
    let ops_pos = positions ps w 0 in
    let tail = tail_of (entry + length ops * 4) in
    let code = emit_all ps 0 ops_pos w base [] in
    let row : code ≡ in_a_row ps 0 0 ops_pos w base =
      emit_all-in_a_row ps [] ops_pos w base [] 0 0 refl refl refl in
    let long : length (code ++ tail) ≡ total ps w + 4 =
      omega
        (arith, length-append code tail, ap length row, length-in_a_row ps 0 0 ops_pos w base) in
    (
      (base, code ++ tail),
      rw h refl,
      (
        ap (λ ws. ws ++ tail) row,
        long,
        omega (arith, long, total-bounds ps w, plans-length ops entry ps h),
      ),
    )
