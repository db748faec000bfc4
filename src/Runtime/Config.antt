-- ===== src/Runtime/Config.antt =====
-- crates/runtime/src/config.rs and crates/core/src/plugin_api/config.rs: the typed configuration.
pub mod FailClosed
pub mod Tests
use Prim.Native.String.{String}
use shiny_song_tools.Prelude.{
  Bool, true, false, Option, none, some, ◌>>?◌, List, [], ◌∷◌, ◌++◌, if◌then◌else◌,
}

pub record RuntimeConfig : Type 0 where
  pub debug_enabled : Bool
  pub fps_unlock_fps : Bool
  pub translation_dump : Bool
  pub recon_enabled : Bool

abbrev pub default : RuntimeConfig
default = record {
  debug_enabled = false;
  fps_unlock_fps = false;
  translation_dump = false;
  recon_enabled = false;
}

-- The TOML library: a parsed value, its fields if it is a table, and its truth value if it is one.
pub record Toml : Type 1 where
  pub Value : Type 0
  pub from_str : String → Option Value
  pub is_table : Value → Bool
  pub get : Value → String → Option Value
  pub as_bool : Value → Option Bool

module _ (toml : Toml) where
  -- A known field of a section that is a table.
  unfoldable pub flag_in : String → toml.Value → Option Bool
  flag_in field section =
      if toml.is_table section
      then elim (toml.get section field) [ none ↦ some false | some v ↦ toml.as_bool v ]
      else none

  -- A known field of a section that may be missing.
  unfoldable pub flag : toml.Value → String → String → Option Bool
  unfolding flag_in
  flag value section field = elim (toml.get value section) [
    | none ↦ some false
    | some s ↦ flag_in field s
  ]

  unfoldable pub parse_fields : toml.Value → Option RuntimeConfig
  parse_fields value = flag value "debug" "enabled" >>? λ debug.
      flag value "fps" "unlock_fps" >>? λ fps. flag value "translation" "dump" >>? λ dump.
      flag value "recon" "enabled" >>? λ recon. some (record {
        debug_enabled = debug;
        fps_unlock_fps = fps;
        translation_dump = dump;
        recon_enabled = recon;
      })

  unfoldable pub parse_value : toml.Value → Option RuntimeConfig
  parse_value value = if toml.is_table value then parse_fields value else none

  unfoldable pub parse_config : String → Option RuntimeConfig
  parse_config text = toml.from_str text >>? parse_value

-- What `read_to_string` returned.
pub data ReadOutcome : Type 0 where
  found : String → ReadOutcome
  not_found refused : ReadOutcome

-- The file system under the data root: reading the file, and the attempt to create it with the given
-- text where there is none, whose failure is ignored.
pub record ConfigFiles : Type 1 where
  pub State : Type 0
  pub read_to_string : State → ReadOutcome
  pub create_new : String → State → State

abbrev pub empty_config : String
empty_config =
    "# Shiny Song Tools runtime configuration.\n# Empty by default: all optional plugins remain disabled.\n"

abbrev pub unwrap_or_default : Option RuntimeConfig → RuntimeConfig
unwrap_or_default none = default
unwrap_or_default (some c) = c

module _ (toml : Toml) (files : ConfigFiles) where
  unfoldable pub settle_read : files.State → ReadOutcome → files.State × RuntimeConfig
  settle_read s (found text) = (s, unwrap_or_default (parse_config toml text))
  settle_read s not_found = (files.create_new empty_config s, default)
  settle_read s refused = (s, default)

  unfoldable pub load_config : files.State → files.State × RuntimeConfig
  unfolding settle_read
  load_config s = settle_read s (files.read_to_string s)
