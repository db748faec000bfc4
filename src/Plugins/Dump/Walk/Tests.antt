-- ===== src/Plugins/Dump/Walk/Tests.antt =====
-- A walk over a memory with one category, that has one text.
use shiny_song_tools.Prelude.{
  ◌^◌, ◌≡◌, refl, arith, ok, false, inr, none, some, [], ◌∷◌, ◌==◌, if◌then◌else◌,
}
use shiny_song_tools.Plugins.Dump.{Texts}
use shiny_song_tools.Plugins.Dump.Walk.{GameMemory, walk_string_dictionary, read_string}
use shiny_song_tools.Plugins.Dump.Walk.Ids.{CategoryEntries, text_of}
use shiny_song_tools.Plugins.Dump.Walk.Reads.{HasStringDictionary, walk_string_dictionary-Reads}
use shiny_song_tools.Plugins.Dump.Maps.{text_in}
use shiny_song_tools.Plugins.Dump.Tests.{disk, disk-IsAtomic, no_files, clean_state}
use shiny_song_tools.Plugins.Dump.Dictionary.{Leaves, dump_dic_handler, dump_dic_handler-Leaves}
use Prim.Native.String.{String}

abbrev texts : Texts
texts = record {
  from_utf16 = λ units. some "A";
  to_string = λ n. "7";
  u32_to_string = λ n. "7";
  is_blank = λ s. false;
}

-- The outer dictionary is at 1000 with its array at 2000, the inner one at 3000 and 4000, and a string
-- at 100.
abbrev memory : GameMemory
memory = record {
  read_u32 = λ a.
      if a == 1032
      then 2
      else if a == 3032
      then 2
      else if a == 2056
      then 2 ^ 31
      else if a == 4056
      then 2 ^ 31
      else if a == 116
      then 1
      else if a == 4040
      then 9
      else 5;
  read_ptr =
      λ a. if a == 1024 then 2000 else if a == 2048 then 3000 else if a == 3024 then 4000 else 100;
  read_u16 = λ a. 65;
}

abbrev one_category : CategoryEntries
one_category = some ("A", some (9, "A") ∷ none ∷ []) ∷ none ∷ []

memory-HasStringDictionary : HasStringDictionary texts memory 1000 one_category
unfolding read_string
memory-HasStringDictionary = (
  omega arith,
  omega arith,
  refl,
  omega arith,
  (
    refl,
    refl,
    λ h. inr (omega arith, omega arith, refl, omega arith, (refl, refl, refl, (refl, tt))),
    (refl, tt),
  ),
)

walk_string_dictionary-Reads_example :
    ((walk_string_dictionary texts memory 1000 []).1 ≡ ok tt)
    × ((c q : String)
        → text_in (walk_string_dictionary texts memory 1000 []).0 c q
          ≡ text_of texts one_category c q (text_in [] c q))
walk_string_dictionary-Reads_example =
    walk_string_dictionary-Reads texts memory 1000 one_category [] memory-HasStringDictionary

-- The manager at 500 has its dictionary at 1000.
abbrev manager : GameMemory
manager = record memory { read_ptr = λ a. if a == 516 then 1000 else memory.read_ptr a }

dump_dic_handler-Leaves_example :
    Leaves disk texts manager 500
      (some (some 16))
      no_files
      clean_state
      (dump_dic_handler disk texts manager 500 (some (some 16)) no_files clean_state)
unfolding text_in
dump_dic_handler-Leaves_example =
    dump_dic_handler-Leaves disk texts manager disk-IsAtomic 500 (some (some 16)) no_files
      clean_state (λ clean c i. refl)
