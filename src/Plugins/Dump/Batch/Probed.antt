-- ===== src/Plugins/Dump/Batch/Probed.antt =====
-- The invariant of the loop over the parts of a scenario.
use shiny_song_tools.Prelude.{
  ℕ, zero, suc, ◌+◌, ◌%◌, ◌^◌, ◌≤◌, ◌<◌, ◌≡◌, sym, subst, true, ◌⊎◌, List, arith, dec_lt,
  ℕ_discrete, Result, ok, err,
}
use shiny_song_tools.Plugins.Dump.Files.{Folder}
use shiny_song_tools.Plugins.Dump.Batch.{
  DataFile, Std, BatchError, string_new_failed, key_of, dump_one_data_file, Probe, part_name,
  wrapping_next,
}
use shiny_song_tools.Plugins.Dump.Batch.Writes.{IsKeeping, Grows}

module _ (folder : Folder) (keeping : IsKeeping folder) (std : Std) (game : DataFile) where
  module _ (is_key_va get_bytes_va : ℕ) (sid : List ℕ) where
    -- The game has this part of the scenario.
    abbrev pub Has : ℕ → Type 0
    Has n =
        game.is_key_exist is_key_va (key_of folder std game (part_name folder std game sid n))
        ≡ true

    abbrev pub Kept : ℕ → folder.State → Type 0
    Kept n f = folder.exists (part_name folder std game sid n) f ≡ true

    -- The parts below the current one are written, and the last misses are misses.
    pub record Probed (bound : ℕ) (start : folder.State) (s : Probe folder std game) : Type 0 where
      pub few : s.misses ≤ 5
      pub reached : s.misses ≤ s.part
      pub kept : (n : ℕ) → n < s.part → Has n → Kept n s.dir
      pub gap : (n : ℕ) → n < s.part → s.part ≤ n + s.misses → ¬ Has n
      pub grows : Grows folder start s.dir
      pub near : s.part ≤ bound + s.misses

    -- Why a probe reports an error.
    abbrev pub Refused : folder.State → BatchError → Type 0
    Refused g e =
        (n : ℕ) × (((e ≡ string_new_failed)
            × (key_of folder std game (part_name folder std game sid n) ≡ 0))
          ⊎ (Has n
              × ((f : folder.State) × (dump_one_data_file folder std game get_bytes_va
                      (part_name folder std game sid n) (part_name folder std game sid n) f
                    ≡ (g, err e)))))

    -- How a probe ends: no file is lost, and all parts that the game has are written, or an error is
    -- reported.
    abbrev pub Probes : folder.State → folder.State × Result BatchError ℕ → Type 0
    Probes start (g, ok written) = Grows folder start g × ((n : ℕ) → Has n → Kept n g)
    Probes start (g, err e) = Grows folder start g × Refused g e

    -- No part is further than five from the one before it, or from the start.
    abbrev pub IsClose : Type 0
    IsClose = (n : ℕ) → Has n → 5 ≤ n → (m : ℕ) × (m < n) × (n ≤ m + 5) × Has m

    -- Beyond the last part there is none.
    abbrev pub EndsBy : ℕ → Type 0
    EndsBy bound = (n : ℕ) → bound ≤ n → ¬ Has n

    module _ (bound : ℕ) (start : folder.State) where
      -- After five misses in a row nothing follows.
      none_after :
          (s : Probe folder std game) (close : IsClose) (i : Probed bound start s)
          → 5 ≤ s.misses
          → (fuel n : ℕ) → n < fuel
          → s.part ≤ n
          → ¬ Has n
      none_after s close i five zero n less beyond has = absurd (omega (arith, less))
      none_after s close i five (suc fuel) n less beyond has =
          let (m, below, near, has') = close n has (omega (arith, i.reached, five, beyond)) in
          elim (dec_lt m s.part) [
            | yes old ↦ i.gap m old (omega (arith, near, five, beyond)) has'
            | no new ↦
                none_after s close i five fuel m (omega (arith, below, less)) (omega (arith, new))
                  has'
          ]

      pub probe-Kept :
          (s : Probe folder std game) (close : IsClose) (i : Probed bound start s)
          → 5 ≤ s.misses
          → (n : ℕ) → Has n
          → Kept n s.dir
      probe-Kept s close i five n has = elim (dec_lt n s.part) [
        | yes old ↦ i.kept n old has
        | no new ↦
            absurd (none_after s close i five (suc n) n (omega arith) (omega (arith, new)) has)
      ]

      pub missed-Probed :
          (s : Probe folder std game)
          → bound + 6 < 2 ^ 32
          → s.misses < 5
          → Probed bound start s
          → ¬ Has s.part
          → Probed bound start
              (record s { part = wrapping_next folder std game s.part; misses = s.misses + 1 })
      missed-Probed s small few i miss =
          let e : (s.part + 1) % 2 ^ 32 ≡ s.part + 1 = omega (arith, small, few, i.near) in
          rw e (record {
            few = omega (arith, few);
            reached = omega (arith, i.reached);
            kept = λ n less has. elim (ℕ_discrete n s.part) [
              | yes same ↦ absurd (miss (subst Has same has))
              | no other ↦ i.kept n (omega (arith, less, other)) has
            ];
            gap = λ n less from. elim (ℕ_discrete n s.part) [
              | yes same ↦ λ has. miss (subst Has same has)
              | no other ↦ i.gap n (omega (arith, less, other)) (omega (arith, from))
            ];
            grows = i.grows;
            near = omega (arith, i.near);
          })

      pub hit-Probed :
          (s : Probe folder std game) (g : folder.State)
          → bound + 6 < 2 ^ 32
          → s.part < bound
          → Probed bound start s
          → Grows folder s.dir g
          → Kept s.part g
          → Probed bound start (record {
            part = wrapping_next folder std game s.part;
            misses = 0;
            files_written = s.files_written + 1;
            dir = g;
          })
      hit-Probed s g small less i grows there =
          let e : (s.part + 1) % 2 ^ 32 ≡ s.part + 1 = omega (arith, small, less) in
          rw e (record {
            few = omega arith;
            reached = omega arith;
            kept = λ n below has. elim (ℕ_discrete n s.part) [
              | yes same ↦ subst (λ m. Kept m g) (sym same) there
              | no other ↦
                  grows (part_name folder std game sid n)
                    (i.kept n (omega (arith, below, other)) has)
            ];
            gap = λ n below from. absurd (omega (arith, below, from));
            grows = λ n e'. grows n (i.grows n e');
            near = omega (arith, less);
          })
