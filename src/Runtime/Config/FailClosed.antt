-- ===== src/Runtime/Config/FailClosed.antt =====
-- crates/runtime/src/config.rs: where an enabled flag comes from.
use Prim.Native.String.{String}
use shiny_song_tools.Prelude.{
  ◌≡◌, refl, sym, ◌∙◌, ap, Option-cases, Bool-cases, subst, true, some, arith, ◌⊎◌, inl, inr,
}
use shiny_song_tools.Runtime.Config.{
  RuntimeConfig, default, Toml, flag_in, flag, parse_fields, parse_value, parse_config, ReadOutcome,
  found, not_found, refused, ConfigFiles, empty_config, unwrap_or_default, settle_read, load_config,
}

module _ (toml : Toml) where
  -- The value is a table whose section is a table whose field is the truth value `true`.
  abbrev pub Enables : toml.Value → String → String → Type 0
  Enables value section field =
      (toml.is_table value ≡ true)
      × (s : toml.Value) × (toml.get value section ≡ some s)
      × (toml.is_table s ≡ true)
      × (b : toml.Value) × (toml.get s field ≡ some b)
      × (toml.as_bool b ≡ some true)

  flag-Enables :
      (value : toml.Value) (section field : String)
      → toml.is_table value ≡ true
      → flag toml value section field ≡ some true
      → Enables value section field
  unfolding flag flag_in
  flag-Enables value section field t h = elim (Option-cases (toml.get value section)) [
    | inl e ↦ ground (arith, e, h)
    | inr (s, e) ↦ elim (Option-cases (toml.get s field)) [
      | inl f ↦ ground (arith, e, f, h)
      | inr (b, f) ↦ (t, s, e, ground (arith, e, f, h), b, f, ground (arith, e, f, h))
    ]
  ]

  -- Every flag that is set is enabled by the value, in its own section and field.
  abbrev pub IsEnabledBy : toml.Value → RuntimeConfig → Type 0
  IsEnabledBy value c =
      (c.debug_enabled ≡ true → Enables value "debug" "enabled")
      × (c.fps_unlock_fps ≡ true → Enables value "fps" "unlock_fps")
      × (c.translation_dump ≡ true → Enables value "translation" "dump")
      × (c.recon_enabled ≡ true → Enables value "recon" "enabled")

  parse_fields-flags :
      (value : toml.Value) (c : RuntimeConfig)
      → parse_fields toml value ≡ some c
      → (flag toml value "debug" "enabled" ≡ some c.debug_enabled)
        × (flag toml value "fps" "unlock_fps" ≡ some c.fps_unlock_fps)
        × (flag toml value "translation" "dump" ≡ some c.translation_dump)
        × (flag toml value "recon" "enabled" ≡ some c.recon_enabled)
  unfolding parse_fields
  parse_fields-flags value c h = ground (arith, h)

  parse_fields-IsEnabledBy :
      (value : toml.Value) (c : RuntimeConfig)
      → toml.is_table value ≡ true
      → parse_fields toml value ≡ some c
      → IsEnabledBy value c
  parse_fields-IsEnabledBy value c t h =
      let (debug, fps, dump, recon) = parse_fields-flags value c h in
      (
        λ on. flag-Enables value "debug" "enabled" t (debug ∙ ap some on),
        λ on. flag-Enables value "fps" "unlock_fps" t (fps ∙ ap some on),
        λ on. flag-Enables value "translation" "dump" t (dump ∙ ap some on),
        λ on. flag-Enables value "recon" "enabled" t (recon ∙ ap some on),
      )

module _ (toml : Toml) (files : ConfigFiles) where
  -- How the read ended, what the file system is afterwards, and what the configuration is.
  abbrev pub IsLoaded : files.State → ReadOutcome → files.State → RuntimeConfig → Type 0
  IsLoaded s (found text) s' c =
      (s' ≡ s)
      × ((c ≡ default)
          ⊎ ((value : toml.Value) × (toml.from_str text ≡ some value) × IsEnabledBy toml value c))
  IsLoaded s not_found s' c = (s' ≡ files.create_new empty_config s) × (c ≡ default)
  IsLoaded s refused s' c = (s' ≡ s) × (c ≡ default)

  parsed-IsEnabledBy :
      (text : String)
      → let c = unwrap_or_default (parse_config toml text) in
        (c ≡ default)
        ⊎ ((value : toml.Value) × (toml.from_str text ≡ some value) × IsEnabledBy toml value c)
  unfolding parse_config parse_value
  parsed-IsEnabledBy text = elim (Option-cases (toml.from_str text)) [
    | inl e ↦ inl (ground (arith, e))
    | inr (value, e) ↦ elim (Bool-cases (toml.is_table value)) [
      | inr f ↦ inl (ground (arith, e, f))
      | inl t ↦ elim (Option-cases (parse_fields toml value)) [
        | inl f ↦ inl (ground (arith, e, t, f))
        | inr (c, f) ↦
            let r : parse_config toml text ≡ some c = ground (arith, e, t, f) in
            inr (
              value,
              e,
              subst (λ o. IsEnabledBy toml value (unwrap_or_default o)) (sym r)
                  (parse_fields-IsEnabledBy toml value c t f),
            )
      ]
    ]
  ]

  settle_read-IsLoaded :
      (s : files.State) (r : ReadOutcome)
      → let (s', c) = settle_read toml files s r in IsLoaded s r s' c
  unfolding settle_read
  settle_read-IsLoaded s (found text) = (refl, parsed-IsEnabledBy text)
  settle_read-IsLoaded s not_found = (refl, refl)
  settle_read-IsLoaded s refused = (refl, refl)

  -- However the read of the configuration file ends, the load gives a configuration: the default one
  -- where there is no text, and where there is, the default one or one in which every flag that is set
  -- is enabled by the parsed text in its own section and field. The file is created only where there
  -- was none.
  pub load_config-IsLoaded :
      (s : files.State)
      → let (s', c) = load_config toml files s in IsLoaded s (files.read_to_string s) s' c
  unfolding load_config
  load_config-IsLoaded s = settle_read-IsLoaded s (files.read_to_string s)
