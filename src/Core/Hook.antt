-- ===== src/Core/Hook.antt =====
-- crates/core/src/plugin_api/hook.rs: the static site of a hook target, its dispatch from the
-- replacement function, and its installation. Gates, the slot's memory and the site's atomics are
-- shared; a function takes their values at the time of its call.
pub mod Dispatch
pub mod Install
pub mod Tests
use shiny_song_tools.Prelude.{
  ℕ, Bool, true, false, Option, none, some, not, ◌&&◌, ◌==◌, if◌then◌else◌,
}
use shiny_song_tools.Core.Gate.{RuntimeGate, is_open}
use shiny_song_tools.Core.MethodSlot.{SlotMemory, MethodPointerSlot, reads, current}

pub record SiteGates : Type 0 where
  pub runtime : RuntimeGate
  pub plugin : RuntimeGate

pub record ActiveHook : Type 0 where
  pub slot : MethodPointerSlot
  pub replacement_addr : ℕ

-- `replacement` is the address of the replacement function. The plugin's container takes no part.
pub record SiteInner : Type 0 where
  pub gates : SiteGates
  pub replacement : ℕ
  pub original_addr : ℕ  -- 0 until an installation
  pub method_info_addr : ℕ
  pub installed : Bool
  pub active : Option ActiveHook

-- A `OnceLock`.
abbrev pub HookSite : Type 0
HookSite = Option SiteInner

unfoldable pub is_published : HookSite → Bool
is_published none = false
is_published (some inner) = true

module _ (m : SlotMemory) where
  -- The slot holds the replacement of this hook.
  unfoldable pub owns : m.State → Option ActiveHook → Bool
  unfolding current
  owns s none = false
  owns s (some a) = reads (current m s) a.replacement_addr

  unfoldable pub is_dispatchable : m.State → HookSite → Bool
  unfolding owns is_open
  is_dispatchable s none = false
  is_dispatchable s (some inner) =
      owns s inner.active && is_open inner.gates.runtime && is_open inner.gates.plugin

  -- The checks of `dispatch` that stand before the gates.
  unfoldable pub is_live : m.State → HookSite → Bool
  unfolding owns
  is_live s none = false
  is_live s (some inner) = if owns s inner.active then not (inner.original_addr == 0) else false
