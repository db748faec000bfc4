-- ===== src/Core/Bridge/Tests.antt =====
-- A cache with one class, and a game whose domain is at 5.
use Prim.Native.String.{String}
use shiny_song_tools.Prelude.{
  ℕ, zero, suc, ◌+◌, ◌≡◌, ◌≢◌, refl, ap, arith, true, false, Option, none, some, List, [], ◌∷◌, All,
  Result, ok, err,
}
use shiny_song_tools.Core.MethodSlot.Target.{TargetId}
use shiny_song_tools.Core.Bridge.{
  CachedMethod, CachedClass, Cache, overloads, resolve, Loader, ExactHandle, Exports, BridgeBackend,
  load_exports, domain_get,
}
use shiny_song_tools.Core.Bridge.Overloads.{IsOnly-overloads}
use shiny_song_tools.Core.Bridge.Resolved.{Resolves, resolve-Resolves}

abbrev late_update : CachedMethod
late_update = record {
  name = "LateUpdate";
  param_count = 0;
  args = [];
  return_type = "System.Void";
  is_static = false;
  is_instance = true;
  is_generic = false;
  is_inflated = false;
  address = 4096;
  va = 8192;
}

abbrev behaviour : CachedClass
behaviour = record {
  name = "Loop";
  namespace = "Game";
  methods = late_update ∷ [];
  fields = [];
  static_field_data = 0;
}

abbrev first_of : List CachedMethod → Option CachedMethod
first_of [] = none
first_of (m ∷ ms) = some m

abbrev cache : Cache
cache = record {
  assembly = λ name. some (record { file = name; class = λ full. some behaviour });
  method = λ c name count. first_of (overloads name count c.methods);
  method_single = λ c name count m only. ap first_of (IsOnly-overloads name count c.methods m only);
}

abbrev target : TargetId
target = record {
  assembly = "Game.dll";
  namespace = "Game";
  class = "Loop";
  method = "LateUpdate";
  param_count = 0;
  is_static = false;
  return_type = "System.Void";
  parameter_types = [];
}

resolve-Resolves_example : Resolves cache target (resolve cache target)
resolve-Resolves_example = resolve-Resolves cache target

-- Every name has the address 7 in the image.
abbrev loader : Loader
loader = record {
  dlsym = λ h name. 7;
  image_owner = λ address. some "UnityFramework";
  has_nul = λ name. false;
}

abbrev handle : ExactHandle
handle = record { raw = 1; path = "UnityFramework" }

-- Nothing is needed beyond one export, which loads if it is found.
abbrev load_one : ℕ → Result (List String) (Unit {0})
load_one n = elim n [ zero ↦ err ("il2cpp_domain_get" ∷ []) | suc k ↦ ok tt ]

load_one_found :
    (f : String → ℕ)
    → load_one (f "il2cpp_domain_get") ≡ ok tt
    → All (λ name. f name ≢ 0) ("il2cpp_domain_get" ∷ [])
load_one_found f e = (λ null. ground (arith, e, null), tt)

abbrev exports : Exports ℕ
exports = record {
  required = "il2cpp_domain_get" ∷ [];
  load = λ f. load_one (f "il2cpp_domain_get");
  domain_get = λ calls. (calls + 1, 5);
  thread_current = λ calls. 0;
  thread_attach = λ domain calls. (calls + 1, 9);
  thread_detach = λ thread calls. calls + 1;
  cache_init = λ calls. (calls + 1, true);
  load_found = load_one_found;
}

loads : load_exports exports loader handle ≡ ok tt
unfolding load_exports
loads = refl

abbrev fresh : BridgeBackend ℕ
fresh = record { domain = 0; game = 0 }

abbrev asked : BridgeBackend ℕ
asked = record { domain = 5; game = 1 }

first_query : domain_get exports fresh ≡ (asked, ok 5)
unfolding domain_get
first_query = refl
