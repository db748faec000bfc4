-- ===== src/Plugins/Dump/Batch/Scenarios.antt =====
-- crates/translation_dump/src/lib.rs: `scenario_dump_handler`, the batch of scenarios from the cursor on.
-- The dump of the localization texts gives it its categories as lists of characters.
use shiny_song_tools.Prelude.{
  ℕ, zero, suc, ◌+◌, Bool, Option, none, some, List, [], ◌∷◌, length, ltb, leb, if◌then◌else◌,
  Result, ok, err,
}
use shiny_song_tools.Core.Bridge.{Cache}
use shiny_song_tools.Plugins.Dump.Files.{Folder}
use shiny_song_tools.Plugins.Dump.Batch.{
  DataFile, Std, BatchError, data_file_function, sids_of, dedup, probe_parts,
}

pub record ScenarioDumpResponse : Type 0 where
  pub total_sids : ℕ
  pub cursor : ℕ
  pub sids_done : ℕ
  pub files_written : ℕ
  pub done : Bool

abbrev pub unwrap_or : ℕ → Option ℕ → ℕ
unwrap_or n none = n
unwrap_or n (some m) = m

unfoldable pub skip : ℕ → List (List ℕ) → List (List ℕ)
skip zero xs = xs
skip (suc n) [] = []
skip (suc n) (x ∷ xs) = skip n xs

module _ (folder : Folder) (std : Std) (game : DataFile) (fuel : ℕ) where
  -- The locals of the loop, with the cursor that the plugin's state keeps, and the folder.
  pub record Batch : Type 0 where
    pub scenario_cursor : ℕ
    pub sids_done : ℕ
    pub files_written : ℕ
    pub dir : folder.State

  abbrev pub Run : Type 0
  Run = Option (Batch × Result BatchError (Unit {0}))

  module _ (is_key_va get_bytes_va limit : ℕ) where
    abbrev pub probe : List ℕ → Batch → Option (folder.State × Result BatchError ℕ)
    probe sid s =
        probe_parts folder std game is_key_va get_bytes_va sid fuel
          (record { part = 0; misses = 0; files_written = s.files_written; dir = s.dir })

    abbrev pub next_scenario : ℕ → folder.State → Batch → Batch
    next_scenario written f s = record {
      scenario_cursor = s.scenario_cursor + 1;
      sids_done = s.sids_done + 1;
      files_written = written;
      dir = f;
    }

    -- The loop over the scenarios from the cursor on. `none` when a probe runs out of fuel.
    unfoldable pub scan_scenarios : List (List ℕ) → Batch → Run
    scan_scenarios [] s = some (s, ok tt)
    scan_scenarios (sid ∷ sids) s =
        if ltb s.sids_done limit
        then elim (probe sid s) [
          | none ↦ none
          | some o ↦ elim o.1 [
            | err e ↦ some (record s { dir = o.0 }, err e)
            | ok written ↦ scan_scenarios sids (next_scenario written o.0 s)
          ]
        ]
        else some (s, ok tt)

  abbrev respond :
      ℕ
      → ℕ
      → Batch × Result BatchError (Unit {0})
      → (ℕ × folder.State) × Result BatchError ScenarioDumpResponse
  respond total count (s, err e) = ((s.scenario_cursor, s.dir), err e)
  respond total count (s, ok tt) = (
    (s.scenario_cursor, s.dir),
    ok (record {
      total_sids = total;
      cursor = s.scenario_cursor;
      sids_done = s.sids_done;
      files_written = s.files_written;
      done = leb count s.scenario_cursor;
    }),
  )

  -- The handler: the cursor and the folder afterwards, and the response.
  unfoldable pub scenario_dump :
      Cache
      → List (List ℕ)
      → Option ℕ
      → ℕ
      → folder.State
      → Option ((ℕ × folder.State) × Result BatchError ScenarioDumpResponse)
  unfolding data_file_function sids_of dedup skip scan_scenarios
  scenario_dump cache categories limit cursor f =
      let sids = dedup (std.sort (sids_of categories)) in
      elim (data_file_function cache "IsKeyExist") [
        | err e ↦ some ((cursor, f), err e)
        | ok is_key_va ↦ elim (data_file_function cache "GetBytes") [
          | err e ↦ some ((cursor, f), err e)
          | ok get_bytes_va ↦
              let run =
                scan_scenarios is_key_va get_bytes_va (unwrap_or 25 limit) (skip cursor sids)
                  (record {
                    scenario_cursor = cursor;
                    sids_done = 0;
                    files_written = 0;
                    dir = folder.create_dir_all f;
                  }) in
              elim run [
                | none ↦ none
                | some o ↦ some (respond (length (sids_of categories)) (length sids) o)
              ]
        ]
      ]
