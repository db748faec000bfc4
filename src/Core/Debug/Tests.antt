-- ===== src/Core/Debug/Tests.antt =====
-- Runs of a topic's channel.
use shiny_song_tools.Prelude.{ℕ, zero, suc, ◌≡◌, arith, true, ok, [], ◌∷◌}
use shiny_song_tools.Core.Gate.{new}
use shiny_song_tools.Core.Debug.{
  DebugTopicChannel, DebugQueuedRequest, Payload, typed, foreign, Handler, replied, panicked, run,
}
use shiny_song_tools.Core.Debug.Order.{in_order, IsCounted, run-in_order}

-- A handler that panics at 0, and counts its requests.
abbrev counting : Handler ℕ ℕ ℕ
counting = record {
  params_valid = λ s. true;
  handle = λ s d. (s, elim d [ zero ↦ panicked | suc n ↦ replied (ok n) ]);
}

abbrev queued : ℕ → Payload ℕ → DebugQueuedRequest ℕ ℕ
queued id p = record { id = id; payload = p; generation = 1 }

abbrev three : DebugTopicChannel ℕ ℕ
three = record {
  inbox = queued 7 (typed 4) ∷ queued 8 (typed 0) ∷ queued 9 foreign ∷ [];
  outbox = [];
  pending = 3;
  owner_gate = new;
  runtime_gate = new;
}

run-in_order_example :
    (in_order (run counting 0 three).1 ≡ in_order three) × IsCounted 0 (run counting 0 three).1
run-in_order_example = run-in_order counting 0 three 0 (omega arith, omega arith)
