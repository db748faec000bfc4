-- ===== src/Core/Event/Tests.antt =====
-- A run of the event queue.
use shiny_song_tools.Prelude.{ℕ, List, [], ◌∷◌}
use shiny_song_tools.Core.Mailbox.Tests.{list_queue}
use shiny_song_tools.Core.Event.{CompactEvent, info, Use, emit, drain_up_to, perform_all, blank}
use shiny_song_tools.Core.Event.Order.{IsAccounted, perform_all-IsAccounted}

abbrev event : ℕ → CompactEvent
event n = record { code = 1; level = info; owner = 0; site = 0; arg0 = n; arg1 = 0 }

abbrev busy_day : List (Use (list_queue 2))
busy_day = emit (event 1) ∷ emit (event 2) ∷ emit (event 3) ∷ drain_up_to 1 ∷ emit (event 4) ∷ []

perform_all-IsAccounted_example :
    IsAccounted (list_queue 2) (perform_all (list_queue 2) busy_day (blank (list_queue 2)))
perform_all-IsAccounted_example = perform_all-IsAccounted (list_queue 2) busy_day
