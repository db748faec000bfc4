-- ===== src/Core/Route/Tests.antt =====
-- A run of a drain.
use shiny_song_tools.Prelude.{ℕ, List, [], ◌∷◌, some}
use shiny_song_tools.Core.Mailbox.Tests.{list_queue}
use shiny_song_tools.Core.Mailbox.BoundedQueue.{len}
use shiny_song_tools.Core.Route.{drain_bounded, depth_bounded}
use shiny_song_tools.Core.Route.Delivery.{Delivers, drain_bounded-Delivers}

abbrev always_nine : ℕ → List ℕ
always_nine n = 9 ∷ []

drain_bounded-Delivers_example :
    Delivers
      (list_queue 3)
      (1 ∷ [])
      (4 ∷ 5 ∷ [])
      (drain_bounded (list_queue 3) always_nine 2 (4 ∷ 5 ∷ []) (some (1 ∷ [])))
unfolding depth_bounded len
drain_bounded-Delivers_example =
    drain_bounded-Delivers (list_queue 3) always_nine (4 ∷ 5 ∷ []) (1 ∷ [])
