-- ===== src/Runtime/Bootstrap/Run/Tests.antt =====
-- A run of the bootstrap on an outside that is a clock and one hooked word.
use shiny_song_tools.Prelude.{
  ℕ, ◌+◌, true, false, none, some, List, [], ◌∷◌, ok, leb, ◌==◌, if◌then◌else◌, arith,
}
use shiny_song_tools.Core.MethodSlot.{swapped, observed}
use shiny_song_tools.Core.MethodSlot.Target.{MethodRef}
use shiny_song_tools.Runtime.App.Tests.{world_ops}
use shiny_song_tools.Runtime.App.Build.{Build, built, insert_resource}
use shiny_song_tools.Runtime.Bootstrap.{Clock, BootstrapReadiness, Il2CppApi, SlotResolver}
use shiny_song_tools.Runtime.Bootstrap.Publish.{ProductionPlugin}
use shiny_song_tools.Runtime.Bootstrap.Run.{
  BootstrapDeps, scheduler_target, run_bootstrap_with_readiness_wait,
}
use shiny_song_tools.Runtime.Bootstrap.Run.Settled.{
  Completes, run_bootstrap_with_readiness_wait-Completes,
}

pub record Outside : Type 0 where
  pub time : ℕ
  pub word : ℕ

abbrev clock : Clock Outside
clock = record {
  now = λ p. p.time;
  sleep = λ d p. record p { time = p.time + d };
  now-sleep = λ d p. omega arith;
}

abbrev predicate : BootstrapReadiness Outside clock
predicate = record { is_ready = λ p. (p, ok (leb 3 p.time)); now-is_ready = λ p. omega arith }

abbrev api : Il2CppApi Outside
api = record {
  unity_framework_image = λ p. (p, ok tt);
  load_exports = λ p. (p, ok tt);
  domain_get = λ p. (p, ok tt);
  attach_current_thread = λ p. (p, ok tt);
  hydrate_metadata = λ p. (p, ok tt);
  runtime_identity = λ p. (p, ok tt);
}

abbrev late_update : MethodRef
late_update = record {
  assembly = scheduler_target.assembly;
  namespace = scheduler_target.namespace;
  class = scheduler_target.class;
  method = scheduler_target.method;
  param_count = 0;
  is_static = false;
  return_type = "void";
  parameter_types = [];
  is_generic = false;
  is_inflated = false;
  method_info = 70;
  method_pointer_slot = 80;
}

abbrev resolver : SlotResolver Outside
resolver = record {
  resolve = λ target p. (p, ok late_update);
  read = λ method p. some p.word;
  compare_exchange = λ method p expected new.
      if p.word == expected then (record p { word = new }, swapped) else (p, observed p.word);
  others = λ p. p;
}

abbrev inserts : ProductionPlugin → Build (List ℕ) Outside
inserts plugin = insert_resource 1 (λ r. built (ok tt))

abbrev pub deps : BootstrapDeps world_ops Outside
deps = record {
  api = api;
  clock = clock;
  predicate = predicate;
  resolver = resolver;
  config = record {
    debug_enabled = true;
    fps_unlock_fps = false;
    translation_dump = false;
    recon_enabled = false;
  };
  services = record { routes = []; fail_pending_requests = λ owner p. p };
  new_world = 7 ∷ [];
  builds = inserts;
  replacement = 9;
}

run_bootstrap_with_readiness_wait-Completes_example :
    Completes world_ops deps none
      (run_bootstrap_with_readiness_wait world_ops deps none 6 10 2 (record { time = 0; word = 5 }))
run_bootstrap_with_readiness_wait-Completes_example =
    run_bootstrap_with_readiness_wait-Completes world_ops deps none 5 10 2
      (record { time = 0; word = 5 }) (omega arith)
