-- ===== src/Runtime/Bootstrap.antt =====
-- crates/runtime/src/bootstrap.rs: what the bootstrap uses of the outside. A state `P` stands for it:
-- the clock, the loader's image table, the IL2CPP runtime, the hooked slots, and what plugins share.
pub mod Polling
pub mod Publish
pub mod Run
use Prim.Native.String.{String}
use shiny_song_tools.Prelude.{ℕ, ◌+◌, ◌≤◌, Bool, Option, Result}
use shiny_song_tools.Core.Error.{Il2CppError, HookError}
use shiny_song_tools.Core.MethodSlot.{SlotMemory, Exchange}
use shiny_song_tools.Core.MethodSlot.Target.{TargetId, MethodRef}

-- The monotonic clock and `thread::sleep`, in milliseconds. A sleep lasts at least as long as asked.
pub record Clock (P : Type 0) : Type 0 where
  pub now : P → ℕ
  pub sleep : ℕ → P → P
  pub now-sleep : (d : ℕ) (p : P) → now p + d ≤ now (sleep d p)

-- `BootstrapReadiness`. The clock does not go back while the predicate is evaluated.
pub record BootstrapReadiness (P : Type 0) (clock : Clock P) : Type 0 where
  pub is_ready : P → P × Result Il2CppError Bool
  pub now-is_ready : (p : P) → clock.now p ≤ clock.now (is_ready p).0

-- The loader's image table, and the opening of the image that it names.
pub record ImageTable (P : Type 0) (clock : Clock P) : Type 0 where
  pub enumerate_unity_framework : P → P × Option String
  pub open_handle : String → P → P × Result Il2CppError String
  pub now-enumerate : (p : P) → clock.now p ≤ clock.now (enumerate_unity_framework p).0

-- `Il2CppApi`: each query may change the outside. What the queries return on success takes no part.
pub record Il2CppApi (P : Type 0) : Type 0 where
  pub unity_framework_image : P → P × Result Il2CppError (Unit {0})
  pub load_exports : P → P × Result Il2CppError (Unit {0})
  pub domain_get : P → P × Result Il2CppError (Unit {0})
  pub attach_current_thread : P → P × Result Il2CppError (Unit {0})
  pub hydrate_metadata : P → P × Result Il2CppError (Unit {0})
  pub runtime_identity : P → P × Result Il2CppError (Unit {0})

-- `MethodResolver`, with the slot of a resolved method as a part of the outside. Between the exchange
-- of a slot and its readback other writers may run: `others` is what they do.
pub record SlotResolver (P : Type 0) : Type 0 where
  pub resolve : TargetId → P → P × Result HookError MethodRef
  pub read : MethodRef → P → Option ℕ
  pub compare_exchange : MethodRef → P → ℕ → ℕ → P × Exchange
  pub others : P → P

-- `slot_memory`.
abbrev pub slot_memory : {P : Type 0} → SlotResolver P → MethodRef → SlotMemory
slot_memory {P} resolver method = record {
  State = P;
  read = resolver.read method;
  compare_exchange = resolver.compare_exchange method;
}
