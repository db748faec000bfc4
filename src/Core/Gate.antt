-- ===== src/Core/Gate.antt =====
-- crates/core/src/gate.rs: the process gate. The flag and the control word are the two atomics that
-- every clone of the gate shares. crates/runtime/src/gate.rs wraps the same gate for one plugin.
pub mod Laws
pub mod Interleaving
pub mod Tests
use shiny_song_tools.Prelude.{ℕ, Bool, true, false, ◌==◌, if◌then◌else◌}

abbrev pub gate_closed : ℕ
gate_closed = 0

abbrev pub gate_open : ℕ
gate_open = 1

abbrev pub gate_failed_closed : ℕ
gate_failed_closed = 2

pub record RuntimeGate : Type 0 where
  pub flag : Bool
  pub control : ℕ

unfoldable pub new : RuntimeGate
new = record { flag = false; control = gate_closed }

-- `GateReader::is_open`.
unfoldable pub is_open : RuntimeGate → Bool
is_open g = g.flag

unfoldable pub is_closed : RuntimeGate → Bool
is_closed g = g.control == gate_failed_closed

-- `open`: a compare-exchange on the control word, and the flag if it succeeds.
unfoldable pub open_gate : RuntimeGate → RuntimeGate × Bool
open_gate g =
    if g.control == gate_closed
    then (record { flag = true; control = gate_open }, true)
    else (g, false)

unfoldable pub close : RuntimeGate → RuntimeGate
close g = record { flag = false; control = gate_failed_closed }
