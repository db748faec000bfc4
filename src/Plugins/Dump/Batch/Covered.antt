-- ===== src/Plugins/Dump/Batch/Covered.antt =====
-- What a batch of scenarios covers.
use shiny_song_tools.Prelude.{
  ℕ, suc, ◌+◌, ◌^◌, ◌≤◌, ◌<◌, ◌≡◌, refl, true, if-elim, ◌⊎◌, inl, inr, some, List, [], ◌∷◌, arith,
  All, length, take, get_elem?, ltb, Result, ok, err,
}
use shiny_song_tools.Plugins.Dump.Files.{Folder}
use shiny_song_tools.Plugins.Dump.Batch.{DataFile, Std, BatchError, part_name}
use shiny_song_tools.Plugins.Dump.Batch.Writes.{IsKeeping, Grows}
use shiny_song_tools.Plugins.Dump.Batch.Probed.{Has, IsClose, EndsBy, Refused, Probes}
use shiny_song_tools.Plugins.Dump.Batch.Parts.{probe_parts-Probes}
use shiny_song_tools.Plugins.Dump.Batch.Scenarios.{Batch, Run, next_scenario, scan_scenarios}

module _ (folder : Folder) (keeping : IsKeeping folder) (std : Std) (game : DataFile)
    (fuel : ℕ) where
  module _ (is_key_va get_bytes_va limit : ℕ) where
    abbrev State : Type 0
    State = Batch folder std game fuel

    -- All parts that the game has of the scenario are in the folder.
    abbrev pub Whole : folder.State → List ℕ → Type 0
    Whole f sid =
        (n : ℕ)
        → Has folder keeping std game is_key_va get_bytes_va sid n
        → folder.exists (part_name folder std game sid n) f ≡ true

    -- Why the loop stopped after `n` scenarios.
    abbrev Stop : List (List ℕ) → ℕ → State → Result BatchError (Unit {0}) → Type 0
    Stop sids n s (ok tt) = (n ≡ length sids) ⊎ (limit ≤ s.sids_done)
    Stop sids n s (err e) =
        (sid : List ℕ) × (get_elem? sids n ≡ some sid)
        × Refused folder keeping std game is_key_va get_bytes_va sid s.dir e

    -- From `s` on, the first scenarios of the list were covered, and the cursor is behind them.
    pub record Covers (sids : List (List ℕ)) (s s' : State) (r : Result BatchError (Unit {0}))
        : Type 0 where
      pub covered : ℕ
      pub cursor_moved : s'.scenario_cursor ≡ s.scenario_cursor + covered
      pub done_counted : s'.sids_done ≡ s.sids_done + covered
      pub within_limit : (covered ≡ 0) ⊎ (s'.sids_done ≤ limit)
      pub whole : All (Whole s'.dir) (take covered sids)
      pub grows : Grows folder s.dir s'.dir
      pub stop : Stop sids covered s' r

    -- What holds of the scenarios of a list.
    pub record IsOrderly (bound : ℕ) (sids : List (List ℕ)) : Type 0 where
      pub close : All (λ sid. IsClose folder keeping std game is_key_va get_bytes_va sid) sids
      pub ends : All (λ sid. EndsBy folder keeping std game is_key_va get_bytes_va sid bound) sids

    abbrev pub CoversRun : List (List ℕ) → State → Run folder std game fuel → Type 0
    CoversRun sids s run =
        (s' : State) × (r : Result BatchError (Unit {0})) × (run ≡ some (s', r))
        × Covers sids s s' r

    stop_here :
        (sids : List (List ℕ)) (s : State)
        → (0 ≡ length sids) ⊎ (limit ≤ s.sids_done)
        → Covers sids s s (ok tt)
    stop_here sids s why = record {
      covered = 0;
      cursor_moved = omega arith;
      done_counted = omega arith;
      within_limit = inl refl;
      whole = tt;
      grows = λ n e. e;
      stop = why;
    }

    Stop-cons :
        (sid : List ℕ) (sids : List (List ℕ)) (n : ℕ) (s : State) (r : Result BatchError (Unit {0}))
        → Stop sids n s r
        → Stop (sid ∷ sids) (suc n) s r
    Stop-cons sid sids n s (ok tt) (inl e) = inl (omega (arith, e))
    Stop-cons sid sids n s (ok tt) (inr e) = inr e
    Stop-cons sid sids n s (err e) h = h

    next_scenario-Covers :
        (sid : List ℕ) (sids : List (List ℕ)) (written : ℕ) (g : folder.State) (s s' : State)
        (r : Result BatchError (Unit {0}))
        → s.sids_done < limit
        → Probes folder keeping std game is_key_va get_bytes_va sid s.dir (g, ok written)
        → Covers sids
            (next_scenario folder std game fuel is_key_va get_bytes_va limit written g s)
            s'
            r
        → Covers (sid ∷ sids) s s' r
    next_scenario-Covers sid sids written g s s' r less (grows, all) c = record {
      covered = suc c.covered;
      cursor_moved = omega (arith, c.cursor_moved);
      done_counted = omega (arith, c.done_counted);
      within_limit = inr (omega (arith, less, c.within_limit, c.done_counted));
      whole = ((λ n has. c.grows (part_name folder std game sid n) (all n has)), c.whole);
      grows = λ n e. c.grows n (grows n e);
      stop = Stop-cons sid sids c.covered s' r c.stop;
    }

    abbrev after :
        List (List ℕ) → State → folder.State × Result BatchError ℕ → Run folder std game fuel
    unfolding scan_scenarios
    after sids s o = elim o.1 [
      | err e ↦ some (record s { dir = o.0 }, err e)
      | ok written ↦
          scan_scenarios folder std game fuel is_key_va get_bytes_va limit sids
            (next_scenario folder std game fuel is_key_va get_bytes_va limit written o.0 s)
    ]

    after-Covers :
        (sid : List ℕ) (sids : List (List ℕ)) (s : State) (o : folder.State × Result BatchError ℕ)
        → s.sids_done < limit
        → Probes folder keeping std game is_key_va get_bytes_va sid s.dir o
        → ((t : State)
            → CoversRun sids t
                (scan_scenarios folder std game fuel is_key_va get_bytes_va limit sids t))
        → CoversRun (sid ∷ sids) s (after sids s o)
    unfolding after
    after-Covers sid sids s (g, err e) less (grows, why) rest = (
      record s { dir = g },
      err e,
      refl,
      record {
        covered = 0;
        cursor_moved = omega arith;
        done_counted = omega arith;
        within_limit = inl refl;
        whole = tt;
        grows = grows;
        stop = (sid, refl, why);
      },
    )
    after-Covers sid sids s (g, ok written) less probes rest =
        let (s', r, e, c) =
          rest (next_scenario folder std game fuel is_key_va get_bytes_va limit written g s) in
        (s', r, e, next_scenario-Covers sid sids written g s s' r less probes c)

    -- A batch ends, where in each of its scenarios no part is further than five from the one before it or
    -- from the start, the numbers of the parts have a bound below the last six of 32 bits, and the fuel is
    -- more than six beyond that bound. It covers the first scenarios from the cursor on, moves the cursor
    -- behind them, and stops at the end of the list, or at the limit, which it does not pass, or at the
    -- scenario whose error it reports, where the cursor stays. All parts that the game has of the covered
    -- scenarios are in the folder, and no file of the folder is lost.
    pub scan_scenarios-Covers :
        (bound : ℕ) (sids : List (List ℕ)) (s : State)
        → IsOrderly bound sids
        → bound + 6 < 2 ^ 32
        → bound + 6 < fuel
        → CoversRun sids s (scan_scenarios folder std game fuel is_key_va get_bytes_va limit sids s)
    unfolding scan_scenarios
    scan_scenarios-Covers bound [] s orderly small enough =
        (s, ok tt, refl, stop_here [] s (inl refl))
    scan_scenarios-Covers bound (sid ∷ sids) s orderly small enough =
        if-elim (CoversRun (sid ∷ sids) s) (ltb s.sids_done limit) _ _
          (λ t.
            let (o, e, p) =
              probe_parts-Probes folder keeping std game is_key_va get_bytes_va sid bound fuel
                s.files_written s.dir orderly.close.0 orderly.ends.0 small enough in
            rw e (
              after-Covers sid sids s o (ground (arith, t)) p (λ u.
                scan_scenarios-Covers bound sids u
                  (record { close = orderly.close.1; ends = orderly.ends.1 }) small enough)))
          (λ t. (s, ok tt, refl, stop_here (sid ∷ sids) s (inr (ground (arith, t)))))
