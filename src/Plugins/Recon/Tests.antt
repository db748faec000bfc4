-- ===== src/Plugins/Recon/Tests.antt =====
-- A section of three words at 4096, in an image at 4000.
use shiny_song_tools.Prelude.{ℕ, ◌+◌, ◌-◌, ◌*◌, ◌^◌, ◌==◌, ◌≡◌, refl, true, [], ◌∷◌, if◌then◌else◌}
use shiny_song_tools.Plugins.Recon.{callers_query}
use shiny_song_tools.Plugins.Recon.Callers.{callers, Reports, callers_query-Reports}

-- The first word calls what is 4 before it, the last one what is 12 before it.
abbrev code : ℕ → ℕ
code a =
    if a == 4096
    then 37 * 2 ^ 26 + (2 ^ 26 - 1)
    else if a == 4104
    then 37 * 2 ^ 26 + (2 ^ 26 - 3)
    else 0

both_call :
    callers_query code 4000 4092 1 4096 12
    ≡ record { total = 2; truncated = true; caller_rvas = 96 ∷ [] }
unfolding callers_query
both_call = refl

callers_query-Reports_example :
    Reports code 4000 4092 1
      (callers code 4000 4092 4096 3)
      (callers_query code 4000 4092 1 4096 12)
callers_query-Reports_example = callers_query-Reports code 4000 4092 1 4096 12
