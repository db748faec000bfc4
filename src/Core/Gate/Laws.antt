-- ===== src/Core/Gate/Laws.antt =====
-- Whole operations of one gate, one after another.
use shiny_song_tools.Prelude.{◌≡◌, refl, true, false, List, [], ◌∷◌, arith, ◌==◌}
use shiny_song_tools.Core.Gate.{RuntimeGate, gate_open, new, is_open, is_closed, open_gate, close}

-- The flag says whether the control word is `gate_open`.
pub record IsValid (g : RuntimeGate) : Type 0 where
  pub agrees : g.flag ≡ (g.control == gate_open)

pub new-IsValid : IsValid new
unfolding new
new-IsValid = record { agrees = refl }

pub data Op : Type 0 where
  opens closes : Op

pub apply : RuntimeGate → Op → RuntimeGate
apply g opens = (open_gate g).0
apply g closes = close g

pub run : RuntimeGate → List Op → RuntimeGate
run g [] = g
run g (op ∷ ops) = run (apply g op) ops

pub open_gate-IsValid : (g : RuntimeGate) → IsValid g → IsValid (open_gate g).0
unfolding open_gate
open_gate-IsValid g v = ground arith

pub close-IsValid : (g : RuntimeGate) → IsValid (close g)
unfolding close
close-IsValid g = record { agrees = refl }

apply-IsValid : (g : RuntimeGate) (op : Op) → IsValid g → IsValid (apply g op)
unfolding apply
apply-IsValid g opens v = open_gate-IsValid g v
apply-IsValid g closes v = close-IsValid g

pub run-IsValid : (g : RuntimeGate) (ops : List Op) → IsValid g → IsValid (run g ops)
unfolding run
run-IsValid g [] v = v
run-IsValid g (op ∷ ops) v = run-IsValid (apply g op) ops (apply-IsValid g op v)

apply-is_closed : (g : RuntimeGate) (op : Op) → is_closed g ≡ true → is_closed (apply g op) ≡ true
unfolding apply is_closed open_gate close
apply-is_closed g opens h = ground arith
apply-is_closed g closes h = refl

run-is_closed :
    (g : RuntimeGate) (ops : List Op) → is_closed g ≡ true → is_closed (run g ops) ≡ true
unfolding run
run-is_closed g [] h = h
run-is_closed g (op ∷ ops) h = run-is_closed (apply g op) ops (apply-is_closed g op h)

pub is_closed-shut :
    (g : RuntimeGate)
    → IsValid g
    → is_closed g ≡ true
    → (is_open g ≡ false) × ((open_gate g).1 ≡ false)
unfolding is_closed is_open open_gate
is_closed-shut g v h = ground arith

-- After a close, whatever whole operations come before and after it, readers see the gate closed and
-- a further open is refused.
pub closed_for_good :
    (g : RuntimeGate) (after : List Op)
    → (is_open (run (close g) after) ≡ false) × ((open_gate (run (close g) after)).1 ≡ false)
unfolding is_closed close
closed_for_good g after =
    is_closed-shut (run (close g) after) (run-IsValid (close g) after (close-IsValid g))
      (run-is_closed (close g) after refl)
