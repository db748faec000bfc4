-- ===== src/Core/Debug/Relay/Answered.antt =====
-- One request on its way through the two slots.
use shiny_song_tools.Prelude.{ℕ, false, none, some, List, [], ◌∷◌}
use shiny_song_tools.Core.Mailbox.{free}
use shiny_song_tools.Core.Debug.{DebugQueuedRequest}
use shiny_song_tools.Core.Debug.Relay.{Answer, CallbackRelay, run_relay, handle_pending}

module _ {V D : Type 0} where
  -- No slot holds anything, no request is on its way, and no callback runs during a frame.
  abbrev pub idle : CallbackRelay V D → CallbackRelay V D
  idle r = record r {
    request_slot = record { lock = free; value = none };
    response_slot = record { lock = free; value = none };
    in_flight = [];
  }

  -- One frame, the hook's entry after it, and the next frame.
  abbrev pub two_frames : (D → Answer V) → CallbackRelay V D → CallbackRelay V D
  two_frames handler r =
      let first = run_relay (λ s. s) r in
      let (e, handled) =
        handle_pending false handler
          (record { request = first.request_slot; response = first.response_slot }) in
      run_relay (λ s. s) (record first { request_slot = e.request; response_slot = e.response })

  abbrev queue :
      DebugQueuedRequest V D → List (DebugQueuedRequest V D) → CallbackRelay V D → CallbackRelay V D
  queue q rest r = idle (record r { channel = record r.channel { inbox = q ∷ rest } })

  -- The frame after the entry, where the hook left `a`.
  abbrev second_frame :
      V → ℕ → List (DebugQueuedRequest V D) → CallbackRelay V D → Answer V → CallbackRelay V D
  second_frame id generation rest r a =
      run_relay (λ s. s)
        (record {
          channel = record r.channel { inbox = rest };
          request_slot = record { lock = free; value = none };
          response_slot = record { lock = free; value = some a };
          in_flight = (id, generation) ∷ [];
        })
