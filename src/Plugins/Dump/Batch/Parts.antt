-- ===== src/Plugins/Dump/Batch/Parts.antt =====
-- Which parts of a scenario the bulk dump writes.
use shiny_song_tools.Prelude.{
  ℕ, zero, suc, ◌+◌, ◌^◌, ◌<◌, ◌≡◌, refl, inl, inr, Option, some, List, arith, leb, ◌==◌, if-elim,
  dec_lt, Result, ok, err,
}
use shiny_song_tools.Plugins.Dump.Files.{Folder}
use shiny_song_tools.Plugins.Dump.Batch.{
  DataFile, Std, BatchError, key_of, dump_one_data_file, Probe, Next, going, ended, part_name,
  after_dump, probe_part, probe_parts,
}
use shiny_song_tools.Plugins.Dump.Batch.Writes.{IsKeeping, Dumped, dump_one_data_file-Dumped}
use shiny_song_tools.Plugins.Dump.Batch.Probed.{
  Has, IsClose, EndsBy, Probes, Probed, probe-Kept, missed-Probed, hit-Probed,
}

module _ (folder : Folder) (keeping : IsKeeping folder) (std : Std) (game : DataFile) where
  module _ (is_key_va get_bytes_va : ℕ) (sid : List ℕ) where
    module _ (bound : ℕ) (start : folder.State) where
      -- What one turn does.
      abbrev Turns : Probe folder std game → Next folder std game → Type 0
      Turns s (going s') =
          Probed folder keeping std game is_key_va get_bytes_va sid bound start s'
          × (s'.part ≡ s.part + 1)
      Turns s (ended g r) = Probes folder keeping std game is_key_va get_bytes_va sid start (g, r)

      after_dump-Turns :
          (s : Probe folder std game) (w : folder.State × Result BatchError (Unit {0}))
          → bound + 6 < 2 ^ 32
          → s.part < bound
          → Probed folder keeping std game is_key_va get_bytes_va sid bound start s
          → Has folder keeping std game is_key_va get_bytes_va sid s.part
          → dump_one_data_file folder std game get_bytes_va
              (part_name folder std game sid s.part)
              (part_name folder std game sid s.part)
              s.dir
            ≡ w
          → Dumped folder (part_name folder std game sid s.part) s.dir w
          → Turns s (after_dump folder std game s w)
      unfolding after_dump
      after_dump-Turns s (g, ok tt) small less i has run (grows, there) = (
        hit-Probed folder keeping std game is_key_va get_bytes_va sid bound start s g small less i
            grows there,
        omega (arith, small, less),
      )
      after_dump-Turns s (g, err e) small less i has run grows =
          ((λ n x. grows n (i.grows n x)), (s.part, inr (has, (s.dir, run))))

      probe_part-Turns :
          (s : Probe folder std game)
          → bound + 6 < 2 ^ 32
          → IsClose folder keeping std game is_key_va get_bytes_va sid
          → EndsBy folder keeping std game is_key_va get_bytes_va sid bound
          → Probed folder keeping std game is_key_va get_bytes_va sid bound start s
          → Turns s (probe_part folder std game is_key_va get_bytes_va sid s)
      unfolding probe_part
      probe_part-Turns s small close ends i =
          let name = part_name folder std game sid s.part in
          let key = key_of folder std game name in
          let w = dump_one_data_file folder std game get_bytes_va name name s.dir in
          if-elim (Turns s) (leb 5 s.misses) _ _
            (λ t. (
              i.grows,
              probe-Kept folder keeping std game is_key_va get_bytes_va sid bound start s close i
                  (ground (arith, t)),
            ))
            (λ t.
              if-elim (Turns s) (key == 0) _ _
                (λ z. (i.grows, (s.part, inl (refl, ground (arith, z)))))
                (λ z.
                  if-elim (Turns s) (game.is_key_exist is_key_va key) _ _
                    (λ has.
                      let less : s.part < bound = elim (dec_lt s.part bound) [
                        | yes l ↦ l
                        | no l ↦ absurd (ends s.part (omega (arith, l)) has)
                      ] in
                      after_dump-Turns s w small less i has refl (
                        dump_one_data_file-Dumped folder keeping std game get_bytes_va name name
                          s.dir))
                    (λ no_key. (
                      missed-Probed folder keeping std game is_key_va get_bytes_va sid bound start s
                          small (ground (arith, t)) i (λ has. ground (arith, has, no_key)),
                      omega (arith, small, i.near, i.few),
                    ))))

      -- A run gives a result of which this holds.
      abbrev Gives : Option (folder.State × Result BatchError ℕ) → Type 0
      Gives run =
          (o : folder.State × Result BatchError ℕ) × (run ≡ some o)
          × Probes folder keeping std game is_key_va get_bytes_va sid start o

      turn_then :
          (run : Probe folder std game → Option (folder.State × Result BatchError ℕ))
          (s : Probe folder std game) (x : Next folder std game)
          → Turns s x
          → ((s' : Probe folder std game)
              → Probed folder keeping std game is_key_va get_bytes_va sid bound start s'
              → s'.part ≡ s.part + 1
              → Gives (run s'))
          → Gives (elim x [ ended f r ↦ some (f, r) | going s' ↦ run s' ])
      turn_then run s (ended f r) t k = ((f, r), refl, t)
      turn_then run s (going s') (i, next) k = k s' i next

      probe_parts-Probed :
          (fuel : ℕ) (s : Probe folder std game)
          → bound + 6 < 2 ^ 32
          → IsClose folder keeping std game is_key_va get_bytes_va sid
          → EndsBy folder keeping std game is_key_va get_bytes_va sid bound
          → Probed folder keeping std game is_key_va get_bytes_va sid bound start s
          → bound + 6 < fuel + s.part
          → Gives (probe_parts folder std game is_key_va get_bytes_va sid fuel s)
      unfolding probe_parts
      probe_parts-Probed zero s small close ends i enough =
          absurd (omega (arith, enough, i.near, i.few))
      probe_parts-Probed (suc fuel) s small close ends i enough =
          turn_then (λ s'. probe_parts folder std game is_key_va get_bytes_va sid fuel s') s
            (probe_part folder std game is_key_va get_bytes_va sid s)
            (probe_part-Turns s small close ends i)
            (λ s' i' next.
              probe_parts-Probed fuel s' small close ends i' (omega (arith, enough, next)))

    -- The probe of one scenario ends, where no part is further than five from the one before it or from
    -- the start, the numbers of the parts have a bound below the last six of 32 bits, and the fuel is more
    -- than six beyond that bound: no file of the folder is lost, and either every part that the game has is
    -- in the folder, or the error of the part at which the probe stopped is reported.
    pub probe_parts-Probes :
        (bound fuel files_written : ℕ) (f : folder.State)
        → IsClose folder keeping std game is_key_va get_bytes_va sid
        → EndsBy folder keeping std game is_key_va get_bytes_va sid bound
        → bound + 6 < 2 ^ 32
        → bound + 6 < fuel
        → (o : folder.State × Result BatchError ℕ) × (probe_parts folder std game is_key_va
              get_bytes_va sid fuel
              (record { part = 0; misses = 0; files_written = files_written; dir = f })
            ≡ some o)
          × Probes folder keeping std game is_key_va get_bytes_va sid f o
    probe_parts-Probes bound fuel files_written f close ends small enough =
        probe_parts-Probed bound f fuel
          (record { part = 0; misses = 0; files_written = files_written; dir = f }) small close ends
          (record {
            few = omega arith;
            reached = omega arith;
            kept = λ n less. absurd (omega (arith, less));
            gap = λ n less. absurd (omega (arith, less));
            grows = λ n e. e;
            near = omega arith;
          })
          (omega (arith, enough))
