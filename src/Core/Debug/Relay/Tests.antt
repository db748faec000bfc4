-- ===== src/Core/Debug/Relay/Tests.antt =====
-- A run of the relay with one callback before each take.
use shiny_song_tools.Prelude.{ℕ, ◌+◌, ◌≡◌, refl, none, some, ok, [], ◌∷◌}
use shiny_song_tools.Core.Gate.{new}
use shiny_song_tools.Core.Mailbox.{Slot, free}
use shiny_song_tools.Core.Debug.{DebugQueuedRequest, typed}
use shiny_song_tools.Core.Debug.Relay.{Answer, answered, CallbackRelay, run_relay}
use shiny_song_tools.Core.Debug.Relay.Order.{tickets}

abbrev queued : ℕ → ℕ → DebugQueuedRequest ℕ ℕ
queued id d = record { id = id; payload = typed d; generation = 1 }

-- Two requests wait, and one was delivered before.
abbrev relay : CallbackRelay ℕ ℕ
relay = record {
  channel = record {
    inbox = queued 7 4 ∷ queued 8 5 ∷ [];
    outbox = [];
    pending = 3;
    owner_gate = new;
    runtime_gate = new;
  };
  request_slot = record { lock = free; value = none };
  response_slot = record { lock = free; value = none };
  in_flight = (6, 1) ∷ [];
}

-- The callback answers each time.
abbrev answering : Slot (Answer ℕ) → Slot (Answer ℕ)
answering s = record s { value = some (answered (ok 40)) }

two_answered : tickets (run_relay answering relay) ≡ (6, 1) ∷ (7, 1) ∷ (8, 1) ∷ []
unfolding run_relay
two_answered = refl

abbrev reply : ℕ → Answer ℕ
reply d = answered (ok (d + 30))
