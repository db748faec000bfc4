-- ===== src/Plugins/Fps/Tests.antt =====
-- Runs of the frame rate plugin.
use shiny_song_tools.Prelude.{◌≡◌, refl, true, List, [], ◌∷◌, ok}
use shiny_song_tools.Plugins.Fps.{
  Game, MainCalls, built, rate_replacement, vsync_replacement, fps_startup, apply_setting,
  apply_rate,
}
use shiny_song_tools.Plugins.Fps.Forced.{FpsStep, game_rate, startup, steps, setters_obey}

abbrev through : MainCalls
through = record { vsync = ok tt; rate = ok tt }

abbrev game : Game
game = record { rate = 30; vsync = 1 }

abbrev start_and_set : List FpsStep
start_and_set = startup through ∷ game_rate 60 ∷ []

-- Configured to unlock and started, the hook passes on the 60 that the game asks for.
not_forced : (steps start_and_set (built true, game)).1.rate ≡ 60
unfolding rate_replacement fps_startup apply_setting apply_rate built
not_forced = refl

setters_obey_example :
    ((rate_replacement 30 (steps start_and_set (built true, game)).0).1 ≡ 30)
    × ((vsync_replacement 30 (steps start_and_set (built true, game)).0).1 ≡ 30)
setters_obey_example = setters_obey start_and_set true game 30
