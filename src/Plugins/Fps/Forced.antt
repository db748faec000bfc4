-- ===== src/Plugins/Fps/Forced.antt =====
-- crates/unlock_fps/src/lib.rs: what the game's setters are called with.
use shiny_song_tools.Prelude.{
  ℕ, ◌≡◌, refl, ◌∙◌, ap, Bool, true, false, Option, none, some, List, [], ◌∷◌, ok, arith, All,
}
use shiny_song_tools.Core.Mailbox.LatestCell.{try_send, try_read}
use shiny_song_tools.Plugins.Fps.{
  Fps, Game, MainCalls, built, chosen, unlocked_target, rate_replacement, vsync_replacement,
  apply_rate, apply_setting, fps_startup, fps_set_handler,
}

-- What happens to the plugin: the game calls a setter, the Startup system runs, a request is served.
pub data FpsStep : Type 0 where
  game_rate game_vsync : ℕ → FpsStep
  startup : MainCalls → FpsStep
  request : MainCalls → Bool → FpsStep

abbrev pub step : FpsStep → Fps × Game → Fps × Game
step (game_rate v) (s, g) = let (s', v') = rate_replacement v s in (s', record g { rate = v' })
step (game_vsync v) (s, g) = let (s', v') = vsync_replacement v s in (s', record g { vsync = v' })
step (startup calls) (s, g) = let (s', g', r) = fps_startup calls (s, g) in (s', g')
step (request calls b) (s, g) = let (s', g', r) = fps_set_handler calls b (s, g) in (s', g')

abbrev pub steps : List FpsStep → Fps × Game → Fps × Game
steps [] x = x
steps (t ∷ ts) x = steps ts (step t x)

-- The last request, after an earlier one.
abbrev pub last_request : Option Bool → List FpsStep → Option Bool
last_request o [] = o
last_request o (game_rate v ∷ ts) = last_request o ts
last_request o (game_vsync v ∷ ts) = last_request o ts
last_request o (startup calls ∷ ts) = last_request o ts
last_request o (request calls b ∷ ts) = last_request (some b) ts

apply_setting-setting :
    (calls : MainCalls) (b : Bool) (s : Fps) (g : Game)
    → (apply_setting calls b (s, g)).0.setting ≡ s.setting
unfolding apply_setting apply_rate
apply_setting-setting calls b s g = ground (arith)

request-setting :
    (calls : MainCalls) (b : Bool) (s : Fps) (g : Game)
    → (fps_set_handler calls b (s, g)).0.setting ≡ some b
unfolding fps_set_handler try_send
request-setting calls b s g = apply_setting-setting calls b _ g

steps-setting :
    (ts : List FpsStep) (s : Fps) (g : Game)
    → (steps ts (s, g)).0.setting ≡ last_request s.setting ts
unfolding rate_replacement vsync_replacement fps_startup fps_set_handler
steps-setting [] s g = refl
steps-setting (game_rate v ∷ ts) s g =
    let (s', v') = rate_replacement v s in steps-setting ts s' (record g { rate = v' })
steps-setting (game_vsync v ∷ ts) s g =
    let (s', v') = vsync_replacement v s in steps-setting ts s' (record g { vsync = v' })
steps-setting (startup calls ∷ ts) s g =
    let (s', g', r) = fps_startup calls (s, g) in
    steps-setting ts s' g'
    ∙ ap (λ o. last_request o ts) (apply_setting-setting calls s.unlock_fps s g)
steps-setting (request calls b ∷ ts) s g =
    let (s', g', r) = fps_set_handler calls b (s, g) in
    steps-setting ts s' g' ∙ ap (λ o. last_request o ts) (request-setting calls b s g)

-- From the build on, whatever the game, the Startup system and the requests do: a setter hook passes on
-- the unlocked value if the last request unlocked the frame rate, and otherwise the game's own value.
-- The configured setting has no part in it.
pub setters_obey :
    (ts : List FpsStep) (unlock_fps : Bool) (g : Game) (v : ℕ)
    → let (s, g') = steps ts (built unlock_fps, g) in
      ((rate_replacement v s).1 ≡ chosen (last_request none ts) unlocked_target v)
      × ((vsync_replacement v s).1 ≡ chosen (last_request none ts) 0 v)
unfolding rate_replacement vsync_replacement built try_read
setters_obey ts unlock_fps g v =
    let e = steps-setting ts (built unlock_fps) g in
    (ap (λ o. chosen o unlocked_target v) e, ap (λ o. chosen o 0 v) e)

-- The frame rate is unlocked in the plugin and in the game.
abbrev pub IsUnlocked : Fps × Game → Type 0
IsUnlocked (s, g) =
    (s.setting ≡ some true) × (s.unlock_fps ≡ true) × (g.rate ≡ unlocked_target) × (g.vsync ≡ 0)

-- A request to lock the frame rate.
abbrev pub Locks : FpsStep → Type 0
Locks (request calls false) = Unit
Locks other = ⊥

step-IsUnlocked :
    (t : FpsStep) (x : Fps × Game) → (Locks t → ⊥) → IsUnlocked x → IsUnlocked (step t x)
unfolding rate_replacement vsync_replacement fps_startup fps_set_handler apply_setting apply_rate
    try_send try_read
step-IsUnlocked (game_rate v) (s, g) free h = ground (arith, h)
step-IsUnlocked (game_vsync v) (s, g) free h = ground (arith, h)
step-IsUnlocked (startup calls) (s, g) free h = ground (arith, h)
step-IsUnlocked (request calls true) (s, g) free h = ground (arith, h)
step-IsUnlocked (request calls false) (s, g) free h = absurd (free tt)

-- After a request to unlock whose two calls go through, the game's frame rate is the unlocked one and
-- its vsync is off, as long as no request locks it again: whatever values the game sets, and however
-- the calls of further requests end.
pub steps-IsUnlocked :
    (ts : List FpsStep) (x : Fps × Game)
    → All (λ t. Locks t → ⊥) ts
    → IsUnlocked (steps ts (step (request (record { vsync = ok tt; rate = ok tt }) true) x))
unfolding fps_set_handler apply_setting apply_rate try_send
steps-IsUnlocked ts (s, g) free = kept ts _ free (refl, refl, refl, refl)
  where
    kept :
        (ts : List FpsStep) (x : Fps × Game)
        → All (λ t. Locks t → ⊥) ts
        → IsUnlocked x
        → IsUnlocked (steps ts x)
    kept [] x free h = h
    kept (t ∷ ts) x free h = kept ts (step t x) free.1 (step-IsUnlocked t x free.0 h)
