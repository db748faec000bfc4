-- ===== src/Runtime/Process/Managed.antt =====
-- The Apps of the process, from the bootstrap on.
use Prim.Native.String.{String}
use shiny_song_tools.Prelude.{
  ℕ, zero, suc, ◌+◌, ◌*◌, ◌≤◌, ◌≡◌, refl, sym, ◌∙◌, ap, subst, Bool, true, false, none, some, List,
  [], ◌∷◌, All, arith,
}
use shiny_song_tools.Runtime.Host.{WorldOps}
use shiny_song_tools.Runtime.Manager.{PluginRecord}
use shiny_song_tools.Runtime.App.{Services, App, put_records}
use shiny_song_tools.Runtime.App.Startup.{run_startup}
use shiny_song_tools.Runtime.App.Update.{run_update, begin_update}
use shiny_song_tools.Runtime.App.Lifecycle.{IsFresh, IsLive, run_startup-IsLive, run_update-IsLive}
use shiny_song_tools.Runtime.App.Lifecycle.Names.{names, run_startup-names, run_update-names}
use shiny_song_tools.Runtime.Scheduler.{Context, AppSlot}
use shiny_song_tools.Runtime.Scheduler.RunFrame.{run_frame}
use shiny_song_tools.Runtime.Scheduler.Keeps.{Holds, Seats, run_frame-Holds}
use shiny_song_tools.Runtime.Scheduler.Ownership.{apps, seated, is_running, run_frame-apps}
use shiny_song_tools.Runtime.Process.{
  app_driver, Thread, main_thread, other_thread, Process, slot_at, put_at, seen_by, run_on,
  run_frames, begun,
}
use shiny_song_tools.Runtime.Bootstrap.Publish.{Published, Outcome, returned}
use shiny_song_tools.Runtime.Bootstrap.Run.{BootstrapDeps, Slot, run_bootstrap_with_readiness_wait}
use shiny_song_tools.Runtime.Bootstrap.Run.Endings.{enabled_names, HandsOver, Settles}
use shiny_song_tools.Runtime.Bootstrap.Run.Settled.{
  Completes, run_bootstrap_with_readiness_wait-Completes,
}

module _ {W P : Type 0} where
  abbrev Managed : Bool → List (PluginRecord W P) → Type 0
  Managed false rs = All IsFresh rs
  Managed true rs = All IsLive rs

  -- Before its startup no owner's gate has been opened; after it every owner is active with an open gate,
  -- or retired with its gate closed for good and no restore action left. The owners have these names.
  abbrev pub IsManaged : List String → App W P → Type 0
  IsManaged owners a =
      Managed a.startup_completed a.plugins.records × (names a.plugins.records ≡ owners)

module _ (ops : WorldOps) {P : Type 0} (services : Services ops.World P) where
  -- The Apps in the slots of the other threads.
  abbrev pub seats : List (AppSlot (App ops.World P)) → ℕ
  seats [] = 0
  seats (x ∷ xs) = seated x + seats xs

  seats-put_at :
      (n : ℕ) (y : AppSlot (App ops.World P)) (xs : List (AppSlot (App ops.World P)))
      → seats (put_at n y xs) + seated (slot_at n xs) ≡ seats xs + seated y
  unfolding put_at slot_at
  seats-put_at zero y [] = omega arith
  seats-put_at zero y (x ∷ xs) = omega arith
  seats-put_at (suc n) y [] = omega (arith, seats-put_at n y [])
  seats-put_at (suc n) y (x ∷ xs) = omega (arith, seats-put_at n y xs)

  -- A frame off the main thread starts no App: at most it takes one out of the handoff, as exited.
  off_main_idle :
      (c : Context (App ops.World P))
      → is_running c.slot ≡ false
      → is_running (run_frame (app_driver ops services) false c).slot ≡ false
  unfolding run_frame
  off_main_idle c h = ground (arith, h)

  -- The Apps of the process.
  abbrev pub all_apps : Process ops services → ℕ
  all_apps p = apps p.context + seats p.others

  run_on-all_apps :
      (t : Thread) (p : Process ops services) → all_apps (run_on ops services t p) ≡ all_apps p
  unfolding run_on
  run_on-all_apps main_thread p =
      ap (λ n. n + seats p.others) (run_frame-apps (app_driver ops services) true p.context)
  run_on-all_apps (other_thread n) p =
      let c = seen_by ops services n p in
      let c' = run_frame (app_driver ops services) false c in
      omega
        (arith, run_frame-apps (app_driver ops services) false c, seats-put_at n c'.slot p.others)

module _ (ops : WorldOps) {P : Type 0} (services : Services ops.World P)
    (owners : List String) where
  run_startup-IsManaged :
      (a : App ops.World P)
      → IsManaged owners a
      → a.startup_completed ≡ false
      → IsManaged owners (run_startup ops services a).0
  unfolding run_startup
  run_startup-IsManaged a h e = (
    run_startup-IsLive ops services a (subst (λ b. Managed b a.plugins.records) e h.0),
    run_startup-names ops services a ∙ h.1,
  )

  run_update-IsManaged :
      (a : App ops.World P)
      → IsManaged owners a
      → a.startup_completed ≡ true
      → IsManaged owners (run_update ops services a).0
  unfolding run_update begin_update put_records
  run_update-IsManaged a h e = (
    subst (λ b. Managed b (run_update ops services a).0.plugins.records) (sym e)
        (run_update-IsLive ops services a (subst (λ b. Managed b a.plugins.records) e h.0)),
    run_update-names ops services a ∙ h.1,
  )

  abbrev Fits : Context (App ops.World P) → Type 0
  Fits c = Holds (app_driver ops services) (IsManaged owners) c

  abbrev Seat : AppSlot (App ops.World P) → Type 0
  Seat x = Seats (app_driver ops services) (IsManaged owners) x × (is_running x ≡ false)

  -- Every App is managed, and one in the slot of another thread than the main one is exited.
  pub record IsKept (p : Process ops services) : Type 0 where
    pub managed : Fits p.context
    pub not_running : All Seat p.others

  slot_at-Seat : (n : ℕ) (xs : List (AppSlot (App ops.World P))) → All Seat xs → Seat (slot_at n xs)
  unfolding slot_at
  slot_at-Seat n [] h = (tt, refl)
  slot_at-Seat zero (x ∷ xs) h = h.0
  slot_at-Seat (suc n) (x ∷ xs) h = slot_at-Seat n xs h.1

  put_at-Seat :
      (n : ℕ) (y : AppSlot (App ops.World P)) (xs : List (AppSlot (App ops.World P)))
      → Seat y
      → All Seat xs
      → All Seat (put_at n y xs)
  unfolding put_at
  put_at-Seat zero y [] s h = (s, tt)
  put_at-Seat zero y (x ∷ xs) s h = (s, h.1)
  put_at-Seat (suc n) y [] s h = ((tt, refl), put_at-Seat n y [] s tt)
  put_at-Seat (suc n) y (x ∷ xs) s h = (h.0, put_at-Seat n y xs s h.1)

  frame-Fits :
      (on_main : Bool) (c : Context (App ops.World P))
      → Fits c
      → Fits (run_frame (app_driver ops services) on_main c)
  frame-Fits on_main c h =
      run_frame-Holds (app_driver ops services) (IsManaged owners) run_startup-IsManaged
        run_update-IsManaged on_main c h

  run_on-IsKept :
      (t : Thread) (p : Process ops services) → IsKept p → IsKept (run_on ops services t p)
  unfolding run_on
  run_on-IsKept main_thread p h = record {
    managed = frame-Fits true p.context h.managed;
    not_running = h.not_running;
  }
  run_on-IsKept (other_thread n) p h =
      let c = seen_by ops services n p in
      let (seat, idle) = slot_at-Seat n p.others h.not_running in
      let (offers, seats', kept) = frame-Fits false c (h.managed.0, seat, h.managed.2) in
      record {
        managed = (offers, h.managed.1, kept);
        not_running =
            put_at-Seat n _ p.others (seats', off_main_idle ops services c idle) h.not_running;
      }

  frames_kept :
      (ts : List Thread) (p : Process ops services)
      → IsKept p
      → let p' = run_frames ops services ts p in
        IsKept p' × (all_apps ops services p' ≡ all_apps ops services p)
  unfolding run_frames
  frames_kept [] p h = (h, refl)
  frames_kept (t ∷ ts) p h =
      let (kept, count) = frames_kept ts (run_on ops services t p) (run_on-IsKept t p h) in
      (kept, count ∙ run_on-all_apps ops services t p)

module _ (ops : WorldOps) {P : Type 0} (deps : BootstrapDeps ops P) where
  open deps use {services}

  HandsOver-Holds :
      (before : Slot ops deps) (o : Outcome ops.World P) (c : Published (App ops.World P))
      → HandsOver ops deps before o
      → o.scheduler ≡ some c
      → Holds (app_driver ops services) (IsManaged (enabled_names ops deps)) c.context
        × (apps c.context ≡ 1)
  HandsOver-Holds before o c over e =
      let (fresh, c', app, m, at, context, built, on, nz, fits, hooked, dropped, outside) = over in
      let same : c' ≡ c = some_same (sym at ∙ e) in
      let managed : IsManaged (enabled_names ops deps) app =
        (subst (λ b. Managed b app.plugins.records) (sym built.3) built.0, built.4) in
      subst
        (λ (x : Context (App ops.World P)).
          Holds (app_driver ops services) (IsManaged (enabled_names ops deps)) x × (apps x ≡ 1))
        (sym context ∙ ap (λ x. x.context) same) ((managed, tt, tt), refl)
    where
      some_same : {x y : Published (App ops.World P)} → some x ≡ some y → x ≡ y
      some_same {x} {y} h = ap (λ z. elim z [ none ↦ x | some w ↦ w ]) h

  -- A run of the bootstrap that returns true, and then any frames one after the other, each on the main
  -- thread or on any other, where each thread has its own slot: there is exactly one App, in the handoff,
  -- in the slot of a thread or retained; it does not run on another thread than the main one, where it is
  -- at most exited; its owners are those of the plugins that the configuration enables, in their order;
  -- and each of them is fresh before its startup and, after it, live or retired for good.
  pub run_frames-Holds :
      (before : Slot ops deps) (k deadline backoff : ℕ) (p : P) (o : Outcome ops.World P)
      (c : Published (App ops.World P)) (ts : List Thread)
      → deadline ≤ k * backoff
      → run_bootstrap_with_readiness_wait ops deps before (suc k) deadline backoff p ≡ some o
      → o.ending ≡ returned true
      → o.scheduler ≡ some c
      → let p' = run_frames ops services ts (begun ops services c.context) in
        IsKept ops services (enabled_names ops deps) p' × (all_apps ops services p' ≡ 1)
  run_frames-Holds before k deadline backoff p o c ts h runs ends at =
      let settled =
        subst (Completes ops deps before) runs
          (run_bootstrap_with_readiness_wait-Completes ops deps before k deadline backoff p h) in
      let over = subst (λ e. Settles ops deps e before o) ends settled in
      let (held, one) = HandsOver-Holds before o c over at in
      let (kept, count) =
        frames_kept ops services (enabled_names ops deps) ts (begun ops services c.context)
          (record { managed = held; not_running = tt }) in
      (kept, omega (arith, count, one))
