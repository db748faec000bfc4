-- ===== src/Runtime/Config/Tests.antt =====
-- A load of the configuration, with a TOML value that is a tree of tables and truth values.
use Prim.Native.String.{String}
use text.Mathlib.Text.{◌==◌}
use shiny_song_tools.Prelude.{◌≡◌, refl, if◌then◌else◌, Bool, true, false, Option, none, some}
use shiny_song_tools.Runtime.Config.{
  Toml, ReadOutcome, found, ConfigFiles, load_config, settle_read, parse_config, parse_value,
  parse_fields, flag, flag_in,
}
use shiny_song_tools.Runtime.Config.FailClosed.{IsLoaded, load_config-IsLoaded}

-- The value of the text `[translation]` with the line `dump = true` in it.
data Value : Type 0 where
  whole translation dump : Value

abbrev is_a_table : Value → Bool
is_a_table dump = false
is_a_table other = true

abbrev field_of : Value → String → Option Value
field_of whole key = if key == "translation" then some translation else none
field_of translation key = if key == "dump" then some dump else none
field_of dump key = none

abbrev truth_of : Value → Option Bool
truth_of dump = some true
truth_of other = none

abbrev one_text : Toml
one_text = record {
  Value = Value;
  from_str = λ text. if text == "[translation]" then some whole else none;
  is_table = is_a_table;
  get = field_of;
  as_bool = truth_of;
}

abbrev one_file : ConfigFiles
one_file = record {
  State = ReadOutcome;
  read_to_string = λ s. s;
  create_new = λ text s. found text;
}

dump_is_on : (load_config one_text one_file (found "[translation]")).1.translation_dump ≡ true
unfolding load_config settle_read parse_config parse_value parse_fields flag flag_in
dump_is_on = refl

load_config-IsLoaded_example :
    IsLoaded one_text one_file
      (found "[translation]")
      (found "[translation]")
      (load_config one_text one_file (found "[translation]")).0
      (load_config one_text one_file (found "[translation]")).1
load_config-IsLoaded_example = load_config-IsLoaded one_text one_file (found "[translation]")
