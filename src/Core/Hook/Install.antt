-- ===== src/Core/Hook/Install.antt =====
-- `HookBuilder::handler`, `HookBuilder::install` and the restore actions of an installed hook.
pub mod Windows
pub mod Settled
pub mod Undo
use Prim.Native.String.{String}
use shiny_song_tools.Prelude.{
  ℕ, Bool, true, false, Option, none, some, List, [], ◌∷◌, ◌++◌, Result, ok, err, ◌>>=◌, ◌==◌,
  if◌then◌else◌,
}
use shiny_song_tools.Core.Gate.{RuntimeGate}
use shiny_song_tools.Core.Error.{
  HookError, site_already_registered, signature_mismatch, slot_conflict, installation_failed,
  ownership_drift, RestoreError, ownership_lost, failed, PluginError, message, hook,
}
use shiny_song_tools.Core.MethodSlot.{SlotMemory, MethodPointerSlot, bind, reads, current}
use shiny_song_tools.Core.MethodSlot
use shiny_song_tools.Core.MethodSlot.Target.{
  TargetId, MethodRef, matches, HookMechanism, method_pointer_slot, entry_patch,
}
use shiny_song_tools.Core.Hook.{SiteGates, ActiveHook, SiteInner, HookSite}

-- `handler`: publish the site, once for the life of the process.
unfoldable pub handler : HookSite → SiteGates → ℕ → Result HookError HookSite
handler none gates replacement = ok (
    some (record {
      gates = gates;
      replacement = replacement;
      original_addr = 0;
      method_info_addr = 0;
      installed = false;
      active = none;
    }))
handler (some inner) gates replacement = err site_already_registered

unfoldable pub validate : TargetId → MethodRef → Result HookError (Unit {0})
unfolding matches
validate target method = if matches target method then ok tt else err signature_mismatch

abbrev pub lift {ℓ} : {A : Type ℓ} → Result HookError A → Result PluginError A
lift (ok a) = ok a
lift (err e) = err (hook e)

module _ (m : SlotMemory) where
  -- The trait `MethodResolver`: a memory is given by its state.
  pub record MethodResolver : Type 0 where
    pub resolve : TargetId → Result HookError MethodRef
    pub slot_memory : MethodRef → m.State
    pub entry_patch_memory : MethodRef → ℕ → Result HookError m.State

  unfoldable pub memory_for :
      MethodResolver → HookMechanism → MethodRef → ℕ → Result HookError m.State
  memory_for resolver method_pointer_slot method replacement = ok (resolver.slot_memory method)
  memory_for resolver entry_patch method replacement =
      resolver.entry_patch_memory method replacement

  -- What `install` has bound before it touches the site.
  pub record Bound : Type 0 where
    pub method : MethodRef
    pub memory : m.State
    pub slot : MethodPointerSlot

  unfoldable pub prepare :
      Option MethodResolver → TargetId → HookMechanism → ℕ → Result PluginError Bound
  unfolding validate memory_for bind
  prepare none target mechanism replacement = err (message "method resolver unavailable")
  prepare (some resolver) target mechanism replacement = do
    method ← lift (resolver.resolve target)
    valid ← lift (validate target method)
    memory ← lift (memory_for resolver mechanism method replacement)
    slot ← lift (bind m memory)
    ok (record { method = method; memory = memory; slot = slot })

  -- A site beside the memory of its slot: what a concurrent dispatch sees.
  pub record View : Type 0 where
    pub inner : SiteInner
    pub memory : m.State

  unfoldable pub publish_original : Bound → SiteInner → SiteInner
  publish_original b inner = record inner { original_addr = b.slot.original }

  unfoldable pub publish_method : Bound → SiteInner → SiteInner
  publish_method b inner = record inner { method_info_addr = b.method.method_info }

  -- `OnceLock::set`.
  unfoldable pub set_active : Bound → SiteInner → Result HookError SiteInner
  set_active b inner = elim inner.active [
    | none ↦ ok (record inner {
      active = some (record { slot = b.slot; replacement_addr = inner.replacement });
    })
    | some a ↦ err site_already_registered
  ]

  -- A run of `install`: the views before its last write to the site, in order, the view that it
  -- leaves, and its result.
  pub record InstallRun : Type 0 where
    pub seen : List View
    pub final : View
    pub result : Result PluginError (Unit {0})

  -- From the readback on. `later` is what other writers do to the word between the exchange and the
  -- readback of a rollback.
  conclude :
      (m.State → m.State)
      → Bound
      → SiteInner
      → List View
      → m.State × Result HookError (Unit {0})
      → InstallRun
  unfolding MethodSlot.restore
  conclude later b inner seen (s, ok _) = record {
    seen = seen ++ record { inner = inner; memory = s } ∷ [];
    final = record { inner = record inner { installed = true }; memory = s };
    result = ok tt;
  }
  conclude later b inner seen (s, err installation_failed) = record {
    seen = seen ++ record { inner = inner; memory = s } ∷ [];
    final = record {
      inner = inner;
      memory = (MethodSlot.restore m later b.slot inner.replacement s).0;
    };
    result = err (hook installation_failed);
  }
  conclude later b inner seen (s, err e) = record {
    seen = seen;
    final = record { inner = inner; memory = s };
    result = err (hook e);
  }

  -- The exchange, if the site was not active. `earlier` is what other writers do to the word between its
  -- binding and the exchange, here after the site is active, and `others` what they do between the
  -- exchange and its readback.
  exchange :
      (m.State → m.State)
      → (m.State → m.State)
      → (m.State → m.State)
      → Bound
      → List View
      → SiteInner
      → Result HookError SiteInner
      → InstallRun
  unfolding conclude MethodSlot.install
  exchange earlier others later b seen before (ok inner) =
      let found = earlier b.memory in
      let exchanged = (m.compare_exchange found b.slot.original inner.replacement).0 in
      conclude later b inner
        (seen
          ++ record { inner = inner; memory = b.memory }
            ∷ record { inner = inner; memory = found }
            ∷ record { inner = inner; memory = exchanged }
            ∷ [])
        (MethodSlot.install m others b.slot inner.replacement found)
  exchange earlier others later b seen before (err e) = record {
    seen = seen;
    final = record { inner = before; memory = earlier b.memory };
    result = err (hook e);
  }

  -- `install`, once the target is bound.
  unfoldable pub install_bound :
      (m.State → m.State)
      → (m.State → m.State)
      → (m.State → m.State)
      → Bound
      → SiteInner
      → InstallRun
  unfolding exchange set_active publish_method publish_original
  install_bound earlier others later b inner =
      let first = publish_original b inner in
      let second = publish_method b first in
      exchange earlier others later b
        (record { inner = inner; memory = b.memory }
          ∷ record { inner = first; memory = b.memory }
          ∷ record { inner = second; memory = b.memory }
          ∷ [])
        second (set_active b second)

  -- `HookState` with the flag that it shares with the site.
  pub record HookState : Type 0 where
    pub slot : MethodPointerSlot
    pub replacement : ℕ
    pub installed : Bool

  -- The restore action that an installation leaves in the owner's ledger.
  ledger_result :
      HookState
      → m.State × Result HookError (Unit {0})
      → HookState × m.State × Result RestoreError (Unit {0})
  ledger_result h (s, ok _) = (record h { installed = false }, s, ok tt)
  ledger_result h (s, err ownership_drift) = (record h { installed = false }, s, err ownership_lost)
  ledger_result h (s, err e) = (record h { installed = true }, s, err failed)

  unfoldable pub ledger_restore :
      (m.State → m.State)
      → HookState
      → m.State
      → HookState × m.State × Result RestoreError (Unit {0})
  unfolding ledger_result MethodSlot.restore
  ledger_restore others h s =
      if h.installed
      then ledger_result h (MethodSlot.restore m others h.slot h.replacement s)
      else (record h { installed = false }, s, ok tt)

  -- `HookState::restore`, behind `InstalledHook::restore`.
  explicit_result :
      HookState
      → m.State × Result HookError (Unit {0})
      → HookState × m.State × Result HookError (Unit {0})
  explicit_result h (s, ok _) = (record h { installed = false }, s, ok tt)
  explicit_result h (s, err installation_failed) =
      (record h { installed = true }, s, err installation_failed)
  explicit_result h (s, err e) = (record h { installed = false }, s, err e)

  unfoldable pub explicit_restore :
      (m.State → m.State) → HookState → m.State → HookState × m.State × Result HookError (Unit {0})
  unfolding explicit_result MethodSlot.restore
  explicit_restore others h s =
      if h.installed
      then explicit_result h (MethodSlot.restore m others h.slot h.replacement s)
      else (record h { installed = false }, s, err ownership_drift)

  -- The ownership test of `call_original_on_main`.
  unfoldable pub call_original_on_main : HookState → m.State → Result HookError ℕ
  unfolding current
  call_original_on_main h s =
      if h.installed
      then (if reads (current m s) h.replacement then ok h.slot.original else err ownership_drift)
      else err ownership_drift
