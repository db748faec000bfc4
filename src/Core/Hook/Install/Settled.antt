-- ===== src/Core/Hook/Install/Settled.antt =====
-- How an installation leaves the site.
use shiny_song_tools.Prelude.{◌≡◌, true, false, some, Result, ok, err}
use shiny_song_tools.Core.Error.{PluginError}
use shiny_song_tools.Core.MethodSlot.{SlotMemory, MethodPointerSlot, current}
use shiny_song_tools.Core.MethodSlot
use shiny_song_tools.Core.Hook.{SiteInner, is_live}
use shiny_song_tools.Core.Hook.Install.{View}

module _ (m : SlotMemory) where
  -- An installed site is marked, holds the replacement in the slot and is live; a site whose
  -- installation failed keeps its mark and is not live.
  abbrev pub Settled : SiteInner → Result PluginError (Unit {0}) → View m → Type 0
  Settled inner (ok _) v =
      (v.inner.installed ≡ true)
      × (m.read v.memory ≡ some v.inner.replacement)
      × (is_live m v.memory (some v.inner) ≡ true)
  Settled inner (err e) v =
      (v.inner.installed ≡ inner.installed) × (is_live m v.memory (some v.inner) ≡ false)
