-- ===== src/Core/Bridge.antt =====
-- crates/core/src/il2cpp_bridge.rs: the backend over the IL2CPP bridge library, and the method lookup of
-- crates/core/src/il2cpp_recon.rs. The dynamic loader, the game's runtime and the library are parameters.
pub mod Overloads
pub mod Resolved
pub mod Ladder
pub mod Tests
use Prim.Native.String.{String, ◌++◌ as join}
use text.Mathlib.Text.{◌==◌ as str_eq}
use shiny_song_tools.Prelude.{
  ℕ, ◌+◌, ◌%◌, ◌^◌, ◌==◌, ◌≡◌, ◌≢◌, Bool, true, false, not, ◌&&◌, ◌||◌, leb, All, Option, none,
  some, ◌>>?◌, List, [], ◌∷◌, ◌++◌, length, if◌then◌else◌, Result, ok, err, ◌>>=◌,
}
use shiny_song_tools.Core.Error.{
  HookError, target_unavailable, signature_mismatch, Il2CppError, not_ready, export_missing,
  domain_unavailable, attach_failed, class_not_found,
}
use shiny_song_tools.Core.MethodSlot.Target.{TargetId, MethodRef, bool_eq}

-- What the library has in its cache of the metadata.
pub record CachedMethod : Type 0 where
  pub name : String
  pub param_count : ℕ
  pub args : List String
  pub return_type : String
  pub is_static : Bool
  pub is_instance : Bool
  pub is_generic : Bool
  pub is_inflated : Bool
  pub address : ℕ
  pub va : ℕ

pub record CachedField : Type 0 where
  pub name : String
  pub is_static : Bool
  pub offset : ℕ

pub record CachedClass : Type 0 where
  pub name : String
  pub namespace : String
  pub methods : List CachedMethod
  pub fields : List CachedField
  pub static_field_data : ℕ

pub record CachedAssembly : Type 0 where
  pub file : String
  pub class : String → Option CachedClass

unfoldable pub overloads : String → ℕ → List CachedMethod → List CachedMethod
overloads name count [] = []
overloads name count (m ∷ ms) =
    let rest = overloads name count ms in
    if str_eq m.name name && (length m.args == count) then m ∷ rest else rest

-- A method has the name and the number of arguments.
abbrev pub Fits : String → ℕ → CachedMethod → Type 0
Fits name count m = (m.name ≡ name) × (length m.args ≡ count)

-- Exactly this entry of the list has them.
abbrev pub IsOnly : String → ℕ → List CachedMethod → CachedMethod → Type 0
IsOnly name count ms m =
    (front back : List CachedMethod) × (ms ≡ front ++ m ∷ back)
    × Fits name count m
    × All (λ n. ¬ Fits name count n) front
    × All (λ n. ¬ Fits name count n) back

-- `api::cache`. A method that is looked up by its name and the number of its arguments is one of those that
-- have them, and there is one if there are such.
pub record Cache : Type 0 where
  pub assembly : String → Option CachedAssembly
  pub method : CachedClass → String → ℕ → Option CachedMethod
  pub method_single :
      (c : CachedClass) (name : String) (count : ℕ) (m : CachedMethod)
      → IsOnly name count c.methods m
      → method c name count ≡ some m

abbrev pub method_ref : CachedAssembly → CachedClass → CachedMethod → MethodRef
method_ref a c m = record {
  assembly = a.file;
  namespace = c.namespace;
  class = c.name;
  method = m.name;
  param_count = m.param_count;
  is_static = m.is_static;
  return_type = m.return_type;
  parameter_types = m.args;
  is_generic = m.is_generic;
  is_inflated = m.is_inflated;
  method_info = m.address;
  method_pointer_slot = m.address;
}

abbrev pub ok_or : {E A : Type 0} → E → Option A → Result E A
ok_or e none = err e
ok_or e (some a) = ok a

-- The tests of a method that was found.
unfoldable pub checked : CachedAssembly → CachedClass → CachedMethod → Result HookError MethodRef
checked a c m =
    if m.address == 0
    then err target_unavailable
    else if bool_eq m.is_static m.is_instance
    then err signature_mismatch
    else ok (method_ref a c m)

module _ (cache : Cache) where
  unfoldable pub resolve_in : TargetId → CachedAssembly → CachedClass → Result HookError MethodRef
  unfolding overloads checked
  resolve_in target a c =
      if not (length (overloads target.method target.param_count c.methods) == 1)
      then err signature_mismatch
      else elim (cache.method c target.method target.param_count) [
        | none ↦ err signature_mismatch
        | some m ↦ checked a c m
      ]

  -- `MethodResolver::resolve`.
  unfoldable pub resolve : TargetId → Result HookError MethodRef
  unfolding resolve_in
  resolve target = do
    a ← ok_or target_unavailable (cache.assembly target.assembly)
    c ← ok_or target_unavailable (a.class (join target.namespace (join "." target.class)))
    resolve_in target a c

  -- Methods by their declared number of parameters.
  unfoldable pub same_arity : String → ℕ → List CachedMethod → List CachedMethod
  same_arity name count [] = []
  same_arity name count (m ∷ ms) =
      let rest = same_arity name count ms in
      if str_eq m.name name && (m.param_count == count) then m ∷ rest else rest

  unfoldable pub single_va : List CachedMethod → Option ℕ
  single_va [] = none
  single_va (m ∷ []) = if m.va == 0 then none else some m.va
  single_va (m ∷ n ∷ ms) = none

  unfoldable pub resolve_method_va : String → String → String → ℕ → Result Il2CppError (Option ℕ)
  unfolding same_arity single_va
  resolve_method_va assembly class_full_name name count = do
    a ← ok_or (class_not_found assembly) (cache.assembly assembly)
    c ←
        ok_or (class_not_found (join assembly (join "::" class_full_name)))
          (a.class class_full_name)
    ok (single_va (same_arity name count c.methods))

-- `read_statics`: the fields with a word of the static storage each. An offset is its two's complement.
unfoldable pub read_statics : (ℕ → ℕ) → ℕ → List CachedField → List (String × ℕ)
read_statics memory storage [] = []
read_statics memory storage (f ∷ fs) =
    let rest = read_statics memory storage fs in
    if (storage == 0) || not f.is_static || leb (2 ^ 31) f.offset
    then rest
    else (f.name, memory (storage + f.offset)) ∷ rest

-- The loader: `dlsym` in a handle, null as 0, and the path of the image that owns an address.
pub record Loader : Type 0 where
  pub dlsym : ℕ → String → ℕ
  pub image_owner : ℕ → Option String
  pub has_nul : String → Bool

pub record ExactHandle : Type 0 where
  pub raw : ℕ
  pub path : String

-- `ExactHandle::symbol`.
unfoldable pub symbol : Loader → ExactHandle → String → Option ℕ
symbol loader h name =
    let address = loader.dlsym h.raw name in
    if loader.has_nul name
    then none
    else if address == 0
    then none
    else (loader.image_owner address >>? λ owner.
        if str_eq owner h.path then some address else none)

-- The exports of the game as the library calls them, on the game as `S`, null as 0; and the library's load of
-- them, which names those that its argument does not find.
pub record Exports (S : Type 0) : Type 0 where
  pub required : List String
  pub load : (String → ℕ) → Result (List String) (Unit {0})
  pub domain_get : S → S × ℕ
  pub thread_current : S → ℕ
  pub thread_attach : ℕ → S → S × ℕ
  pub thread_detach : ℕ → S → S
  pub cache_init : S → S × Bool
  pub load_found : (f : String → ℕ) → load f ≡ ok tt → All (λ name. f name ≢ 0) required

-- The backend, with the domain that it has captured, 0 before that.
pub record BridgeBackend (S : Type 0) : Type 0 where
  pub domain : ℕ
  pub game : S

-- What a guard detaches when it is dropped; `none` for an attachment of others.
abbrev pub AttachGuard : Type 0
AttachGuard = Option ℕ

abbrev pub address_or_null : Option ℕ → ℕ
address_or_null none = 0
address_or_null (some a) = a

unfoldable pub first_missing : Result (List String) (Unit {0}) → Result Il2CppError (Unit {0})
first_missing (ok u) = ok tt
first_missing (err []) = err not_ready
first_missing (err (name ∷ names)) = err (export_missing name)

module _ {S : Type 0} (exports : Exports S) where
  unfoldable pub load_exports : Loader → ExactHandle → Result Il2CppError (Unit {0})
  unfolding symbol first_missing
  load_exports loader h =
      first_missing (exports.load (λ name. address_or_null (symbol loader h name)))

  unfoldable pub domain_get : BridgeBackend S → BridgeBackend S × Result Il2CppError ℕ
  domain_get b =
      let (game, domain) = exports.domain_get b.game in
      if not (b.domain == 0)
      then (b, ok b.domain)
      else if domain == 0
      then (record b { game = game }, err domain_unavailable)
      else (record { domain = domain; game = game }, ok domain)

  unfoldable pub attach_current_thread :
      BridgeBackend S → BridgeBackend S × Result Il2CppError AttachGuard
  attach_current_thread b =
      let (game, thread) = exports.thread_attach b.domain b.game in
      if b.domain == 0
      then (b, err not_ready)
      else if not (exports.thread_current b.game == 0)
      then (b, ok none)
      else if thread == 0
      then (record b { game = game }, err attach_failed)
      else (record b { game = game }, ok (some thread))

  -- The drop of the guard.
  unfoldable pub drop_guard : AttachGuard → BridgeBackend S → BridgeBackend S
  drop_guard none b = b
  drop_guard (some thread) b = record b { game = exports.thread_detach thread b.game }

  unfoldable pub hydrate_metadata :
      BridgeBackend S → BridgeBackend S × Result Il2CppError (Unit {0})
  hydrate_metadata b =
      let (game, done) = exports.cache_init b.game in
      (record b { game = game }, if done then ok tt else err not_ready)
