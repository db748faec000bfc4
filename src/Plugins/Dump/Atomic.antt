-- ===== src/Plugins/Dump/Atomic.antt =====
-- crates/translation_dump/src/lib.rs: the write of the dump file, on a disk that keeps its promises.
use Prim.Native.String.{String}
use shiny_song_tools.Prelude.{◌≡◌, refl, ◌∙◌, Option, some, List, Result, ok, err}
use shiny_song_tools.Core.Error.{PluginError}
use shiny_song_tools.Plugins.Dump.Maps.{LocalifyMap}
use shiny_song_tools.Plugins.Dump.State.{Disk, after, write_atomic_json}

module _ (disk : Disk) where
  abbrev Quiet : (disk.State → disk.State × Result PluginError (Unit {0})) → Type 0
  Quiet op =
      (f : disk.State)
      → (disk.saved (op f).0 ≡ disk.saved f) × (disk.staged (op f).0 ≡ disk.staged f)

  -- What is left of the dump file by an operation that should give it the content `m`.
  abbrev pub Ends :
      LocalifyMap → Option LocalifyMap → disk.State × Result PluginError (Unit {0}) → Type 0
  Ends m old (f, ok u) = disk.saved f ≡ some m
  Ends m old (f, err e) = disk.saved f ≡ old

  -- What the file system promises: only a rename changes the dump file, and it brings the temporary
  -- file there or does nothing; what was written there is found there.
  pub record IsAtomic : Type 0 where
    pub create_dir_all-Quiet : Quiet disk.create_dir_all
    pub open_temp-saved : (f : disk.State) → disk.saved (disk.open_temp f).0 ≡ disk.saved f
    pub to_writer_pretty-saved :
        (m : LocalifyMap) (f : disk.State) → disk.saved (disk.to_writer_pretty m f).0 ≡ disk.saved f
    pub to_writer_pretty-staged :
        (m : LocalifyMap) (f : disk.State)
        → (disk.to_writer_pretty m f).1 ≡ ok tt
        → disk.staged (disk.to_writer_pretty m f).0 ≡ some m
    pub write_newline-Quiet : Quiet disk.write_newline
    pub flush-Quiet : Quiet disk.flush
    pub sync_all-Quiet : Quiet disk.sync_all
    pub renamed :
        (f : disk.State) (m : LocalifyMap)
        → disk.staged f ≡ some m
        → Ends m (disk.saved f) (disk.rename f)
    pub write_lyrics-saved :
        (l : List (String × String)) (f : disk.State)
        → disk.saved (disk.write_lyrics l f) ≡ disk.saved f

  after-Ends :
      (m : LocalifyMap) (old : Option LocalifyMap) (r : disk.State × Result PluginError (Unit {0}))
      (next : disk.State → disk.State × Result PluginError (Unit {0}))
      → disk.saved r.0 ≡ old
      → (r.1 ≡ ok tt → Ends m old (next r.0))
      → Ends m old (after disk r next)
  after-Ends m old (f, ok u) next kept going = going refl
  after-Ends m old (f, err e) next kept going = kept

  Ends_at :
      (m : LocalifyMap) (old now : Option LocalifyMap)
      (r : disk.State × Result PluginError (Unit {0}))
      → now ≡ old
      → Ends m now r
      → Ends m old r
  Ends_at m old now (f, ok u) e h = h
  Ends_at m old now (f, err _) e h = h ∙ e

  module _ (atomic : IsAtomic) where
    open atomic use {
      create_dir_all-Quiet, open_temp-saved, to_writer_pretty-saved, to_writer_pretty-staged,
      write_newline-Quiet, flush-Quiet, sync_all-Quiet, renamed, write_lyrics-saved,
    }

    -- From the written temporary file on.
    rest-Ends :
        (m : LocalifyMap) (old : Option LocalifyMap) (f : disk.State)
        → disk.saved f ≡ old
        → disk.staged f ≡ some m
        → Ends m old (
            after disk
              (disk.write_newline f)
              λ f. after disk (disk.flush f) λ f. after disk (disk.sync_all f) disk.rename)
    rest-Ends m old f kept staged =
        let f1 = (disk.write_newline f).0 in
        let f2 = (disk.flush f1).0 in
        let f3 = (disk.sync_all f2).0 in
        let (s1, t1) = write_newline-Quiet f in
        let (s2, t2) = flush-Quiet f1 in
        let (s3, t3) = sync_all-Quiet f2 in
        let k1 = s1 ∙ kept in
        let k2 = s2 ∙ k1 in
        let k3 = s3 ∙ k2 in
        after-Ends m old (disk.write_newline f) _ k1 (λ a.
          after-Ends m old (disk.flush f1) _ k2 (λ b.
            after-Ends m old (disk.sync_all f2) disk.rename k3 (λ c.
              Ends_at m old (disk.saved f3) (disk.rename f3) k3
                (renamed f3 m (t3 ∙ (t2 ∙ (t1 ∙ staged)))))))

    -- The write replaces the content of the dump file as a whole or, if it fails, leaves it as it was.
    pub write_atomic_json-Ends :
        (m : LocalifyMap) (f : disk.State) → Ends m (disk.saved f) (write_atomic_json disk m f)
    unfolding write_atomic_json
    write_atomic_json-Ends m f =
        let old = disk.saved f in
        let f1 = (disk.create_dir_all f).0 in
        let f2 = (disk.open_temp f1).0 in
        let f3 = (disk.to_writer_pretty m f2).0 in
        let k1 = (create_dir_all-Quiet f).0 in
        let k2 = open_temp-saved f1 ∙ k1 in
        let k3 = to_writer_pretty-saved m f2 ∙ k2 in
        after-Ends m old (disk.create_dir_all f) _ k1 (λ a.
          after-Ends m old (disk.open_temp f1) _ k2 (λ b.
            after-Ends m old (disk.to_writer_pretty m f2) _ k3
              (λ c. rest-Ends m old f3 k3 (to_writer_pretty-staged m f2 c))))
