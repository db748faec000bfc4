-- ===== src/Runtime/Manager/Registered.antt =====
-- Owner ids are distinct, and every record is found by its id.
use Prim.Native.String.{String}
use shiny_song_tools.Prelude.{ℕ, ◌+◌, ◌≤◌, ◌≡◌, some, List, [], ◌∷◌, ◌++◌, arith, All}
use shiny_song_tools.Runtime.Manager.{PluginRecord, PluginManager, new_record, begin_owner, find}

module _ {W P : Type 0} where
  -- The ids ascend from `low`, below `high`.
  abbrev pub Ascends : ℕ → List (PluginRecord W P) → ℕ → Type 0
  Ascends low [] high = low ≤ high
  Ascends low (r ∷ rs) high = (low ≤ r.id) × Ascends (r.id + 1) rs high

  abbrev pub IsRegistered : PluginManager W P → Type 0
  IsRegistered m = Ascends 0 m.records m.next_owner

  Ascends-append :
      (low high : ℕ) (rs : List (PluginRecord W P)) (name : String)
      → Ascends low rs high
      → Ascends low (rs ++ new_record high name ∷ []) (high + 1)
  unfolding new_record
  Ascends-append low high [] name h = (h, omega arith)
  Ascends-append low high (r ∷ rs) name h = (h.0, Ascends-append (r.id + 1) high rs name h.1)

  -- Every registration keeps the ids ascending below the next one.
  pub begin_owner-IsRegistered :
      (m : PluginManager W P) (name : String) → IsRegistered m → IsRegistered (begin_owner m name).0
  unfolding begin_owner
  begin_owner-IsRegistered m name v = Ascends-append 0 m.next_owner m.records name v

  abbrev Finds : List (PluginRecord W P) → PluginRecord W P → Type 0
  Finds rs r = find r.id rs ≡ some r

  abbrev Above : ℕ → PluginRecord W P → Type 0
  Above low r = low ≤ r.id

  lowered :
      (low n : ℕ) (xs : List (PluginRecord W P))
      → low ≤ n
      → All (Above (n + 1)) xs
      → All (Above low) xs
  lowered low n [] h a = tt
  lowered low n (x ∷ xs) h a = (omega (arith, h, a.0), lowered low n xs h a.1)

  above : (low high : ℕ) (rs : List (PluginRecord W P)) → Ascends low rs high → All (Above low) rs
  above low high [] h = tt
  above low high (r ∷ rs) h = (h.0, lowered low r.id rs h.0 (above (r.id + 1) high rs h.1))

  All-Finds-cons :
      (r : PluginRecord W P) (rs xs : List (PluginRecord W P))
      → All (Above (r.id + 1)) xs
      → All (Finds rs) xs
      → All (Finds (r ∷ rs)) xs
  unfolding find
  All-Finds-cons r rs [] a f = tt
  All-Finds-cons r rs (x ∷ xs) a f = (ground arith, All-Finds-cons r rs xs a.1 f.1)

  find_each :
      (low high : ℕ) (rs : List (PluginRecord W P)) → Ascends low rs high → All (Finds rs) rs
  unfolding find
  find_each low high [] h = tt
  find_each low high (r ∷ rs) h = (
    ground arith,
    All-Finds-cons r rs rs (above (r.id + 1) high rs h.1) (find_each (r.id + 1) high rs h.1),
  )

  -- In a registered manager the lookup of a record's id finds that record, so that the lookups of the
  -- drivers, which take their ids from the records, do not panic.
  pub find_registered : (m : PluginManager W P) → IsRegistered m → All (Finds m.records) m.records
  find_registered m v = find_each 0 m.next_owner m.records v
