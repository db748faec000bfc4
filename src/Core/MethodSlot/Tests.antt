-- ===== src/Core/MethodSlot/Tests.antt =====
-- Witnesses and tests of the slot protocol, after the unit tests of method_slot.rs.
use shiny_song_tools.Prelude.{◌≡◌, ◌↔◌, refl, true, false, [], ◌∷◌, err}
use shiny_song_tools.Core.Error.{slot_conflict, slot_malformed}
use shiny_song_tools.Core.MethodSlot.{MethodPointerSlot, bind, install}
use shiny_song_tools.Core.MethodSlot.Raw.{raw, raw_compare_exchange}
use shiny_song_tools.Core.MethodSlot.Target.{
  TargetId, MethodRef, matches, SameMethod, matches-SameMethod,
}

abbrev slot : MethodPointerSlot
slot = record { original = 0x1000 }

install_conflict : install raw (λ s. s) slot 0xabc 0x999 ≡ (0x999, err slot_conflict)
unfolding install raw_compare_exchange
install_conflict = refl

bind_null : bind raw 0 ≡ err slot_malformed
unfolding bind
bind_null = refl

abbrev pub string_lookup : TargetId
string_lookup = record {
  assembly = "Game.dll";
  namespace = "Game";
  class = "Localizer";
  method = "GetText";
  param_count = 2;
  is_static = false;
  return_type = "string";
  parameter_types = "string" ∷ "int" ∷ [];
}

abbrev pub string_lookup_ref : MethodRef
string_lookup_ref = record {
  assembly = "Game.dll";
  namespace = "Game";
  class = "Localizer";
  method = "GetText";
  param_count = 2;
  is_static = false;
  return_type = "string";
  parameter_types = "string" ∷ "int" ∷ [];
  is_generic = false;
  is_inflated = false;
  method_info = 0x1000;
  method_pointer_slot = 0x1000;
}

matches_exact : matches string_lookup string_lookup_ref ≡ true
unfolding matches
matches_exact = refl

matches_generic : matches string_lookup (record string_lookup_ref { is_generic = true }) ≡ false
unfolding matches
matches_generic = refl

matches-SameMethod_example :
    (matches string_lookup string_lookup_ref ≡ true) ↔ SameMethod string_lookup string_lookup_ref
matches-SameMethod_example = matches-SameMethod string_lookup string_lookup_ref
