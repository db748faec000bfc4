-- ===== src/Plugins/Dump/Merged.antt =====
-- crates/translation_dump/src/lib.rs: which texts a merged map brings.
use Prim.Native.String.{String}
use text.Mathlib.Text.{◌==◌ as str_eq}
use shiny_song_tools.Prelude.{◌≡◌, refl, ap, ◌∙◌, ◌&&◌, Option, some, List, [], ◌∷◌, if◌then◌else◌}
use shiny_song_tools.Plugins.Dump.Maps.{
  LocalifyMap, text_in, text_in-put, text_in-or_default, put, or_default,
}
use shiny_song_tools.Plugins.Dump.State.{DumpState, merge_bucket, merge_map}

-- What a list of ids with their texts says last of an id, or else `old`.
abbrev pub said_in :
    String → List (String × String) → String → String → Option String → Option String
said_in category [] c i old = old
said_in category (e ∷ es) c i old =
    said_in category es c i (if str_eq category c && str_eq e.0 i then some e.1 else old)

-- The same of a whole map.
abbrev pub said : LocalifyMap → String → String → Option String → Option String
said [] c i old = old
said (b ∷ m) c i old = said m c i (said_in b.0 b.1 c i old)

merge_bucket-said :
    (category : String) (es : List (String × String)) (s : DumpState) (c i : String)
    → text_in (merge_bucket category es s).entries c i
      ≡ said_in category es c i (text_in s.entries c i)
unfolding merge_bucket put
merge_bucket-said category [] s c i = refl
merge_bucket-said category (e ∷ es) s c i =
    merge_bucket-said category es _ c i
    ∙ ap (said_in category es c i) (text_in-put category e.0 e.1 c i s.entries)

-- After a merge the tables have what the map says last of an id, and else what they had.
pub merge_map-said :
    (m : LocalifyMap) (s : DumpState) (c i : String)
    → text_in (merge_map m s).entries c i ≡ said m c i (text_in s.entries c i)
unfolding merge_map
merge_map-said [] s c i = refl
merge_map-said (b ∷ m) s c i =
    let s' = record s { entries = or_default b.0 s.entries } in
    merge_map-said m (merge_bucket b.0 b.1 s') c i
    ∙ ap (said m c i) (
        merge_bucket-said b.0 b.1 s' c i
        ∙ ap (said_in b.0 b.1 c i) (text_in-or_default b.0 c i s.entries))
