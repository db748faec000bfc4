-- ===== src/Core/Error.antt =====
-- crates/core/src/error.rs: the error chain that plugins see.
use Prim.Native.String.{String}

pub data HookError : Type 0 where
  target_unavailable signature_mismatch site_already_registered slot_conflict : HookError
  installation_failed ownership_drift slot_malformed : HookError
  entry_patch_unsupported : String → HookError

pub data RestoreError : Type 0 where
  ownership_lost failed : RestoreError

pub data Il2CppError : Type 0 where
  image_not_found image_identity_mismatch readiness_deadline_exceeded : Il2CppError
  domain_unavailable attach_failed identity_mismatch not_ready : Il2CppError
  export_missing readiness_symbol_missing class_not_found : String → Il2CppError
  method_resolution_failed : String → Il2CppError

pub data PluginError : Type 0 where
  resource_conflict missing_dependency message io : String → PluginError
  hook : HookError → PluginError
  il2cpp : Il2CppError → PluginError
