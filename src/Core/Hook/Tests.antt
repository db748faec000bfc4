-- ===== src/Core/Hook/Tests.antt =====
-- Witnesses and tests of hook dispatch, installation and restoration.
use shiny_song_tools.Prelude.{ℕ, ◌≡◌, refl, true, false, none, some, [], ◌∷◌, ok, arith, All}
use shiny_song_tools.Core.Gate.{RuntimeGate}
use shiny_song_tools.Core.MethodSlot.Raw.{raw, raw-IsLawful}
use shiny_song_tools.Core.MethodSlot.Target.{method_pointer_slot}
use shiny_song_tools.Core.MethodSlot.Tests.{string_lookup, string_lookup_ref}
use shiny_song_tools.Core.Hook.{SiteInner, is_live, is_dispatchable}
use shiny_song_tools.Core.Hook.Dispatch.{
  returned, panicked, original_at, fallback_call, panic, done, Outside, dispatch,
}
use shiny_song_tools.Core.Hook.Dispatch.ExactlyOnce.{Once, dispatch-Once, dispatch_skips}
use shiny_song_tools.Core.Hook.Dispatch.Gates.{dispatch-panic}
use shiny_song_tools.Core.Hook.Install.{
  MethodResolver, Bound, prepare, install_bound, HookState, ledger_restore,
}
use shiny_song_tools.Core.Hook.Install.Windows.{
  IsBound, prepare-IsBound, views, Covers, views-Covers,
}
use shiny_song_tools.Core.Hook.Install.Settled.{Settled}
use shiny_song_tools.Core.Hook.Install.Undo.{Restored, ledger_restore-Restored}

abbrev shut : RuntimeGate
shut = record { flag = false; control = 0 }

abbrev opened : RuntimeGate
opened = record { flag = true; control = 1 }

abbrev site : RuntimeGate → SiteInner
site gate = record {
  gates = record { runtime = gate; plugin = opened };
  replacement = 0xabc;
  original_addr = 0x1000;
  method_info_addr = 0x77;
  installed = true;
  active = some (record { slot = record { original = 0x1000 }; replacement_addr = 0xabc });
}

-- An original that doubles its address once and then panics.
abbrev outside : Outside ℕ
outside = record {
  original = λ addr log. elim log [ [] ↦ returned 5 | _ ∷ _ ↦ panicked ];
  fallback = λ log. returned 0;
}

live_at : (gate : RuntimeGate) → is_live raw 0xabc (some (site gate)) ≡ true
unfolding is_live
live_at gate = refl

dispatch-Once_example :
    Once 0x1000 [] (dispatch outside raw 0xabc (some (site opened)) (done 3) []).1
dispatch-Once_example = dispatch-Once outside raw 0xabc (site opened) (done 3) [] (live_at opened)

not_live : is_live raw 0x999 (some (site opened)) ≡ false
unfolding is_live
not_live = refl

dispatch_skips_example :
    dispatch outside raw 0x999 (some (site opened)) (done 3) [] ≡ (returned 0, fallback_call ∷ [])
dispatch_skips_example = dispatch_skips outside raw 0x999 (some (site opened)) (done 3) [] not_live

gated : is_dispatchable raw 0xabc (some (site shut)) ≡ false
unfolding is_dispatchable
gated = refl

dispatchable : is_dispatchable raw 0xabc (some (site opened)) ≡ true
unfolding is_dispatchable
dispatchable = refl

dispatch-panic_example :
    dispatch outside raw 0xabc (some (site opened)) panic [] ≡ (returned 5, original_at 0x1000 ∷ [])
dispatch-panic_example = dispatch-panic outside raw 0xabc (site opened) [] (live_at opened)

abbrev resolver : MethodResolver raw
resolver = record {
  resolve = λ target. ok string_lookup_ref;
  slot_memory = λ method. 0x1000;
  entry_patch_memory = λ method replacement. ok 0x1000;
}

abbrev bound : Bound raw
bound = record { method = string_lookup_ref; memory = 0x1000; slot = record { original = 0x1000 } }

abbrev published : SiteInner
published = record (site opened) {
  original_addr = 0;
  method_info_addr = 0;
  installed = false;
  active = none;
}

bound-IsBound : IsBound raw string_lookup bound
unfolding prepare
bound-IsBound =
    prepare-IsBound raw (some resolver) string_lookup method_pointer_slot 0xabc bound refl

views-Covers_example :
    All (Covers raw) (views raw (install_bound raw (λ s. s) (λ s. s) (λ s. s) bound published))
views-Covers_example =
    views-Covers raw (λ s. s) (λ s. s) (λ s. s) string_lookup bound published bound-IsBound refl
      (omega arith)

abbrev hooked : HookState raw
hooked = record { slot = record { original = 0x1000 }; replacement = 0xabc; installed = true }

ledger_restore-Restored_example :
    Restored raw raw-IsLawful (λ s. s) hooked 0xabc (ledger_restore raw (λ s. s) hooked 0xabc)
ledger_restore-Restored_example = ledger_restore-Restored raw raw-IsLawful (λ s. s) hooked 0xabc
