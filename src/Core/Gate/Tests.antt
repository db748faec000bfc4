-- ===== src/Core/Gate/Tests.antt =====
-- Witnesses and tests of the gate.
use mathlib.Core.Logic.{ite}
use shiny_song_tools.Prelude.{◌≡◌, refl, false, true, arith, ℕ_discrete}
use shiny_song_tools.Core.Gate.{new, is_open, is_closed, open_gate, close}
use shiny_song_tools.Core.Gate.Interleaving.{
  System, idle, closing, Reach, IsQuiet, overtaken, close-overtaken,
}

-- The unit test of gate.rs, without its asserts on the reader in between.
opened_once :
    ((open_gate new).1 ≡ true)
    × ((open_gate (open_gate new).0).1 ≡ false)
    × (is_open (open_gate new).0 ≡ true)
    × (is_closed (close (open_gate new).0) ≡ true)
unfolding open_gate new is_open is_closed close
opened_once = (refl, refl, refl, refl)

abbrev quiet : System
quiet = record { gate = record { flag = false; control = 2 }; pc = λ _. idle }

quiet-IsQuiet : IsQuiet quiet
quiet-IsQuiet = record { failed = refl; shut = refl; settled = λ j e. ground arith }

abbrev closing_again : System
closing_again = record {
  gate = record { flag = false; control = 2 };
  pc = λ j. ite (ℕ_discrete 3 j) closing idle;
}

abbrev start : System
start = record { gate = record { flag = false; control = 0 }; pc = λ _. idle }

close-overtaken_example :
    Reach start (overtaken start)
    × (is_closed (overtaken start).gate ≡ true)
    × (is_open (overtaken start).gate ≡ true)
    × ((overtaken start).pc 0 ≡ idle)
    × ((overtaken start).pc 1 ≡ idle)
close-overtaken_example = close-overtaken start refl refl refl
