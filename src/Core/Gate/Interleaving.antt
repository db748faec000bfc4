-- ===== src/Core/Gate/Interleaving.antt =====
-- The stores of `open` and `close` as separate atomic steps of threads that share one gate.
use mathlib.Core.Logic.{ite}
use shiny_song_tools.Prelude.{ℕ, ◌≡◌, ◌≢◌, refl, sym, subst, true, false, arith, ℕ_discrete}
use shiny_song_tools.Core.Gate.{
  RuntimeGate, gate_closed, gate_open, gate_failed_closed, is_open, is_closed,
}

abbrev pub update {ℓ} : {A : Type ℓ} → (ℕ → A) → ℕ → A → ℕ → A
update f i a j = ite (ℕ_discrete i j) a (f j)

-- Where a thread stands: outside, in `open` behind the compare-exchange that it won, or in `close`
-- behind the store of the control word.
pub data Pc : Type 0 where
  idle opening closing : Pc

pub data Move (g : RuntimeGate) : Pc → RuntimeGate → Pc → Type 0 where
  cas_win : g.control ≡ gate_closed → Move g idle (record g { control = gate_open }) opening
  cas_lose : g.control ≢ gate_closed → Move g idle g idle
  set_flag : Move g opening (record g { flag = true }) idle
  store_failed : Move g idle (record g { control = gate_failed_closed }) closing
  clear_flag : Move g closing (record g { flag = false }) idle

pub record System : Type 0 where
  pub gate : RuntimeGate
  pub pc : ℕ → Pc

pub data Step (s : System) : System → Type 0 where
  pick :
      (i : ℕ) {g : RuntimeGate} {p : Pc}
      → Move s.gate (s.pc i) g p
      → Step s (record { gate = g; pc = update s.pc i p })

pub data Reach (s : System) : System → Type 0 where
  here : Reach s s
  next : {t u : System} → Reach s t → Step t u → Reach s u

-- A close is complete and no thread is between the two stores of `open`.
pub record IsQuiet (s : System) : Type 0 where
  pub failed : s.gate.control ≡ gate_failed_closed
  pub shut : s.gate.flag ≡ false
  pub settled : (j : ℕ) → s.pc j ≢ opening

Move-gate :
    {g g' : RuntimeGate} {p p' : Pc}
    → Move g p g' p'
    → g.control ≡ gate_failed_closed
    → g.flag ≡ false
    → p ≢ opening
    → (g'.control ≡ gate_failed_closed) × (g'.flag ≡ false) × (p' ≢ opening)
Move-gate (cas_win h) c f n = absurd (omega arith)
Move-gate (cas_lose h) c f n = (c, f, n)
Move-gate set_flag c f n = absurd (n refl)
Move-gate store_failed c f n = (refl, f, λ e. cc)
Move-gate clear_flag c f n = (c, refl, λ e. cc)

Step-IsQuiet : {s t : System} → Step s t → IsQuiet s → IsQuiet t
Step-IsQuiet {s} (pick i mv) q =
    let (c, f, n) = Move-gate mv q.failed q.shut (q.settled i) in
    record { failed = c; shut = f; settled = λ j. ground (arith, q.settled j) }

-- If no thread is between the two stores of `open` once a close is complete, no interleaving of
-- further opens and closes, by any number of threads, lets a reader see the gate open.
pub Reach-IsQuiet : {s t : System} → IsQuiet s → Reach s t → IsQuiet t
Reach-IsQuiet q here = q
Reach-IsQuiet q (next r st) = Step-IsQuiet st (Reach-IsQuiet q r)

-- The four steps: thread 0 wins the compare-exchange, thread 1 closes, thread 0 stores the flag.
pub overtaken : System → System
overtaken s = record {
  gate = record { flag = true; control = gate_failed_closed };
  pc = update (update (update (update s.pc 0 opening) 1 closing) 1 idle) 0 idle;
}

-- Whenever a gate is still to be opened and two threads are free, one may open while the other
-- closes so that in the end both are done, the gate is permanently closed, and readers see it open.
pub close-overtaken :
    (s : System)
    → s.gate.control ≡ gate_closed
    → s.pc 0 ≡ idle
    → s.pc 1 ≡ idle
    → Reach s (overtaken s)
      × (is_closed (overtaken s).gate ≡ true)
      × (is_open (overtaken s).gate ≡ true)
      × ((overtaken s).pc 0 ≡ idle)
      × ((overtaken s).pc 1 ≡ idle)
unfolding overtaken is_closed is_open ℕ_discrete
close-overtaken s c a b = (
  next
      (next
        (next
          (next here (
            pick 0 (
              subst (λ p. Move s.gate p (record s.gate { control = gate_open }) opening) (sym a)
                (cas_win c))))
          (pick 1 (
            subst (λ p. Move opened p (record opened { control = gate_failed_closed }) closing)
              (sym b) store_failed)))
        (pick 1 clear_flag))
      (pick 0 set_flag),
  refl,
  refl,
  refl,
  refl,
)
  where
    opened : RuntimeGate
    opened = record s.gate { control = gate_open }
