-- ===== src/Plugins/Dump/Batch/Writes.antt =====
-- What the write of one data file leaves.
use shiny_song_tools.Prelude.{
  ℕ, ◌+◌, ◌≡◌, refl, Bool, true, false, List, ltb, ◌==◌, if-elim, Result, ok, err,
}
use shiny_song_tools.Plugins.Dump.Files.{Folder, max_data_file_bytes}
use shiny_song_tools.Plugins.Dump.Batch.{
  DataFile, Std, BatchError, key_of, written_as, write_array, dump_one_data_file,
}

-- What a folder does with its files.
pub record IsKeeping (folder : Folder) : Type 0 where
  pub created :
      (name : List ℕ) (f : folder.State)
      → folder.exists name f ≡ true
      → folder.exists name (folder.create_dir_all f) ≡ true
  pub stays :
      (name other bytes : List ℕ) (f : folder.State)
      → folder.exists name f ≡ true
      → folder.exists name (folder.write other bytes f).0 ≡ true
  pub written :
      (name bytes : List ℕ) (f : folder.State)
      → (folder.write name bytes f).1 ≡ true
      → folder.exists name (folder.write name bytes f).0 ≡ true

module _ (folder : Folder) where
  -- Every file of the one is a file of the other.
  abbrev pub Grows : folder.State → folder.State → Type 0
  Grows f g = (name : List ℕ) → folder.exists name f ≡ true → folder.exists name g ≡ true

  -- What a dump of one file leaves, with the target where it succeeds.
  abbrev pub Dumped : List ℕ → folder.State → folder.State × Result BatchError (Unit {0}) → Type 0
  Dumped target f (g, ok tt) = Grows f g × (folder.exists target g ≡ true)
  Dumped target f (g, err e) = Grows f g

module _ (folder : Folder) (keeping : IsKeeping folder) (std : Std) (game : DataFile) where
  written_as-Dumped :
      (target : List ℕ) (f g : folder.State) (done : Bool)
      → Grows folder f g
      → (done ≡ true → folder.exists target g ≡ true)
      → Dumped folder target f (written_as folder std game (g, done))
  written_as-Dumped target f g true grows there = (grows, there refl)
  written_as-Dumped target f g false grows there = grows

  write_array-Dumped :
      (array : ℕ) (target : List ℕ) (f : folder.State)
      → Dumped folder target f (write_array folder std game array target f)
  unfolding write_array
  write_array-Dumped array target f =
      let len = game.read_u32 (array + 24) in
      let bytes = game.read_bytes (array + 32) len in
      let f' = folder.create_dir_all f in
      let w = folder.write target bytes f' in
      if-elim (Dumped folder target f) (ltb max_data_file_bytes len) _ _ (λ t. λ n e. e)
        (λ t.
          written_as-Dumped target f w.0 w.1
            (λ n e. keeping.stays n target bytes f' (keeping.created n f e))
            (keeping.written target bytes f'))

  pub dump_one_data_file-Dumped :
      (va : ℕ) (key target : List ℕ) (f : folder.State)
      → Dumped folder target f (dump_one_data_file folder std game va key target f)
  unfolding dump_one_data_file
  dump_one_data_file-Dumped va key target f =
      if-elim (Dumped folder target f) (key_of folder std game key == 0) _ _ (λ t. λ n e. e)
        (λ t.
          if-elim (Dumped folder target f) (game.get_bytes va (key_of folder std game key) == 0) _ _
            (λ t'. λ n e. e)
            (λ t'. write_array-Dumped (game.get_bytes va (key_of folder std game key)) target f))
