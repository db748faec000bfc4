-- ===== src/Plugins/Dump/Batch/Tests.antt =====
-- Runs of the hook of `DataFile.GetBytes` and of a batch of one scenario, in a folder that is a list of
-- names.
use shiny_song_tools.Prelude.{
  ℕ, ◌+◌, ◌≡◌, refl, Bool, true, false, ◌||◌, some, List, [], ◌∷◌, arith, ok, ◌==◌, ==_self,
}
use shiny_song_tools.Plugins.Dump.Tests.{zeroed}
use shiny_song_tools.Plugins.Dump.Files.{
  Folder, FilesSites, GameData, get_bytes_hook, same_chars, json_suffix,
}
use shiny_song_tools.Plugins.Dump.Files.Names.{HooksProperly, get_bytes_hook-HooksProperly}
use shiny_song_tools.Plugins.Dump.Batch.{DataFile, Std, probe_parts}
use shiny_song_tools.Plugins.Dump.Batch.Writes.{IsKeeping}
use shiny_song_tools.Plugins.Dump.Batch.Scenarios.{Batch, scan_scenarios}
use shiny_song_tools.Plugins.Dump.Batch.Covered.{CoversRun, scan_scenarios-Covers}

abbrev holds : List ℕ → List (List ℕ) → Bool
holds name [] = false
holds name (n ∷ ns) = same_chars name n || holds name ns

abbrev names : Folder
names = record {
  State = List (List ℕ);
  exists = holds;
  create_dir_all = λ f. f;
  write = λ name bytes f. (name ∷ f, true);
}

same_chars_self : (cs : List ℕ) → same_chars cs cs ≡ true
same_chars_self [] = refl
same_chars_self (c ∷ cs) = ground (arith, ==_self c, same_chars_self cs)

names-IsKeeping : IsKeeping names
names-IsKeeping = record {
  created = λ name f e. e;
  stays = λ name other bytes f e. ground (arith, e);
  written = λ name bytes f e. ground (arith, same_chars_self name);
}

-- The path "a/b.json", and an array of one byte.
abbrev game : GameData
game = record {
  string_utf16 = λ a. some (97 ∷ 47 ∷ 98 ∷ json_suffix);
  from_utf16_lossy = λ units. units;
  read_u32 = λ a. some 1;
  read_bytes = λ a len. 7 ∷ [];
}

abbrev empty_folder : FilesSites names
empty_folder = record { json_dir = []; diagnostics = zeroed }

-- The name "a_b.json".
get_bytes_hook_run :
    get_bytes_hook names game 1 2 empty_folder
    ≡ some (record {
      json_dir = (97 ∷ 95 ∷ 98 ∷ json_suffix) ∷ [];
      diagnostics = record zeroed { get_bytes_seen = 1; get_bytes_dumps = 1 };
    })
unfolding get_bytes_hook
get_bytes_hook_run = refl

get_bytes_hook-HooksProperly_example :
    HooksProperly names game 2 empty_folder (get_bytes_hook names game 1 2 empty_folder)
get_bytes_hook-HooksProperly_example = get_bytes_hook-HooksProperly names game 1 2 empty_folder

abbrev std : Std
std = record { encode_utf16 = λ cs. cs; two_digits = λ n. n ∷ []; sort = λ ns. ns }

-- A string is one more than its third character.
abbrev third : List ℕ → ℕ
third (a ∷ b ∷ c ∷ cs) = c + 1
third cs = 1

-- The game has the parts 0 and 3.
abbrev data_file : DataFile
data_file = record {
  new_string = third;
  is_key_exist = λ va key. (key == 1) || (key == 4);
  get_bytes = λ va key. 9;
  read_u32 = λ a. 1;
  read_bytes = λ a len. 7 ∷ [];
}

abbrev start : Batch names std data_file 11
start = record { scenario_cursor = 0; sids_done = 0; files_written = 0; dir = [] }

abbrev scenario : List (List ℕ)
scenario = (65 ∷ []) ∷ []

scan_scenarios_run :
    scan_scenarios names std data_file 11 1 2 25 scenario start
    ≡ some (
      record {
        scenario_cursor = 1;
        sids_done = 1;
        files_written = 2;
        dir = (65 ∷ 95 ∷ 3 ∷ json_suffix) ∷ (65 ∷ 95 ∷ 0 ∷ json_suffix) ∷ [];
      },
      ok tt,
    )
unfolding scan_scenarios probe_parts
scan_scenarios_run = refl

scan_scenarios-Covers_example :
    CoversRun names names-IsKeeping std data_file 11 1 2 25 scenario start
      (scan_scenarios names std data_file 11 1 2 25 scenario start)
scan_scenarios-Covers_example =
    scan_scenarios-Covers names names-IsKeeping std data_file 11 1 2 25 4 scenario start
      (record {
        close = ((λ n has far. absurd (ground (arith, has, far))), tt);
        ends = ((λ n far has. ground (arith, has, far)), tt);
      })
      (omega arith) (omega arith)
