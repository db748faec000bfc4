-- ===== src/Plugins/Fps.antt =====
-- crates/unlock_fps/src/lib.rs: the state of the frame rate plugin, its two setter hooks and its debug
-- control. A frame rate is its two's complement. That a dispatch calls the original once with what the
-- handler passes is in Core/Hook.
pub mod Forced
pub mod Tests
use shiny_song_tools.Prelude.{
  ℕ, ◌+◌, ◌%◌, ◌^◌, Bool, true, false, Option, none, some, List, [], ◌∷◌, if◌then◌else◌, Result, ok,
  err,
}
use shiny_song_tools.Core.Error.{HookError}
use shiny_song_tools.Core.Mailbox.LatestCell.{try_send, try_read}

abbrev pub unlocked_target : ℕ
unlocked_target = 120

abbrev pub locked_target : ℕ
locked_target = 60

pub record FpsDiagnostics : Type 0 where
  pub apply_count : ℕ
  pub last_applied : ℕ
  pub rate_hook_hits : ℕ
  pub rate_last_input : ℕ
  pub vsync_hook_hits : ℕ
  pub vsync_last_input : ℕ

-- `FpsSites`, `FpsState` and the writer: `setting` is the latest cell that they share.
pub record Fps : Type 0 where
  pub setting : Option Bool
  pub unlock_fps : Bool
  pub updates : ℕ
  pub diagnostics : FpsDiagnostics

-- The values that the game's own setters were called with last.
pub record Game : Type 0 where
  pub rate : ℕ
  pub vsync : ℕ

-- What the build leaves: the cell is new.
unfoldable pub built : Bool → Fps
built unlock_fps = record {
  setting = none;
  unlock_fps = unlock_fps;
  updates = 0;
  diagnostics = record {
    apply_count = 0;
    last_applied = 0;
    rate_hook_hits = 0;
    rate_last_input = 0;
    vsync_hook_hits = 0;
    vsync_last_input = 0;
  };
}

-- `map_or(value, |setting| if setting.0 { target } else { value })`.
abbrev pub chosen : Option Bool → ℕ → ℕ → ℕ
chosen none target value = value
chosen (some true) target value = target
chosen (some false) target value = value

-- The handlers, with the value that they call the original with.
unfoldable pub rate_replacement : ℕ → Fps → Fps × ℕ
unfolding try_read
rate_replacement value s = (
  record s {
    diagnostics = record s.diagnostics {
      rate_hook_hits = (s.diagnostics.rate_hook_hits + 1) % 2 ^ 64;
      rate_last_input = value;
    };
  },
  chosen (try_read s.setting) unlocked_target value,
)

unfoldable pub vsync_replacement : ℕ → Fps → Fps × ℕ
unfolding try_read
vsync_replacement value s = (
  record s {
    diagnostics = record s.diagnostics {
      vsync_hook_hits = (s.diagnostics.vsync_hook_hits + 1) % 2 ^ 64;
      vsync_last_input = value;
    };
  },
  chosen (try_read s.setting) 0 value,
)

-- How `call_original_on_main` ends at the two hooks: an error comes before the call.
pub record MainCalls : Type 0 where
  pub vsync : Result HookError (Unit {0})
  pub rate : Result HookError (Unit {0})

abbrev pub target_of : Bool → ℕ
target_of unlock_fps = if unlock_fps then unlocked_target else locked_target

abbrev pub vsync_of : Bool → ℕ
vsync_of unlock_fps = if unlock_fps then 0 else 1

unfoldable pub apply_rate :
    Result HookError (Unit {0}) → Bool → Fps × Game → Fps × Game × Result HookError (Unit {0})
apply_rate (err e) b (s, g) = (s, g, err e)
apply_rate (ok u) b (s, g) = (
  record s {
    diagnostics = record s.diagnostics {
      last_applied = target_of b;
      apply_count = (s.diagnostics.apply_count + 1) % 2 ^ 64;
    };
  },
  record g { rate = target_of b },
  ok tt,
)

unfoldable pub apply_setting :
    MainCalls → Bool → Fps × Game → Fps × Game × Result HookError (Unit {0})
unfolding apply_rate
apply_setting calls b (s, g) = elim calls.vsync [
  | err e ↦ (s, g, err e)
  | ok u ↦ apply_rate calls.rate b (s, record g { vsync = vsync_of b })
]

unfoldable pub fps_startup : MainCalls → Fps × Game → Fps × Game × Result HookError (Unit {0})
unfolding apply_setting
fps_startup calls (s, g) = apply_setting calls s.unlock_fps (s, g)

unfoldable pub fps_set_handler :
    MainCalls → Bool → Fps × Game → Fps × Game × Result HookError (Unit {0})
unfolding apply_setting try_send
fps_set_handler calls b (s, g) = apply_setting calls b (
  record s {
    setting = (try_send b s.setting).0;
    unlock_fps = b;
    updates = (s.updates + 1) % 2 ^ 64;
  },
  g,
)
