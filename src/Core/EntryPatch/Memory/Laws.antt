-- ===== src/Core/EntryPatch/Memory/Laws.antt =====
-- The bytes of the process under the patches, and the state that the slot memory shows of them.
use shiny_song_tools.Prelude.{
  ℕ, ◌+◌, ◌%◌, ◌≤◌, ◌≡◌, ◌≢◌, refl, ◌∙◌, Bool, true, false, not, ◌&&◌, ltb, ◌==◌, if◌then◌else◌,
  arith, Result, ok, err, Option, none, some, if-elim, &&-left, List, [], ◌∷◌, length, ℕ_discrete,
}
use shiny_song_tools.Core.Error.{HookError}
use shiny_song_tools.Core.MethodSlot.{Exchange, swapped, observed}
use shiny_song_tools.Core.EntryPatch.Memory.{
  Bytes, System, write, reads_back, confirmed, remap_staged, remap_sized, remap_patch, EntryPatch,
  Failure, entry_patch_write_failed, entry_restore_write_failed, EntryState, state_word, rewritten,
  patch_entry, unpatch_entry, compare_exchange,
}

reads_back_written :
    (addr : ℕ) (bytes : List ℕ) (m m' : Bytes)
    → ((a : ℕ) → addr ≤ a → m' a ≡ write addr bytes m a)
    → reads_back addr bytes m' ≡ true
unfolding write reads_back
reads_back_written addr [] m m' h = refl
reads_back_written addr (x ∷ xs) m m' h = ground (
  arith,
  h addr (omega arith),
  reads_back_written (addr + 1) xs m m' (λ a le. ground (arith, h a (omega (arith, le)), le)),
)

write_over :
    (addr : ℕ) (xs ys : List ℕ) (m m' : Bytes) (a : ℕ)
    → length xs ≡ length ys
    → m' a ≡ write addr ys m a
    → write addr xs m' a ≡ write addr xs m a
unfolding write
write_over addr [] [] m m' a len h = h
write_over addr [] (y ∷ ys) m m' a len h = ground arith
write_over addr (x ∷ xs) [] m m' a len h = ground arith
write_over addr (x ∷ xs) (y ∷ ys) m m' a len h = elim (ℕ_discrete a addr) [
  | yes e ↦ ground (arith, e)
  | no ne ↦ ground (
    arith,
    ne,
    h,
    write_over (addr + 1) xs ys m m' a (omega (arith, len)) (ground (arith, ne, h)),
  )
]

-- A patch writes its bytes and no other, or fails and changes nothing.
abbrev pub Patched : ℕ → List ℕ → Bytes → Bytes × Result HookError (Unit {0}) → Type 0
Patched addr bytes m (m', ok u) = (a : ℕ) → m' a ≡ write addr bytes m a
Patched addr bytes m (m', err x) = (a : ℕ) → m' a ≡ m a

if_Patched :
    (addr : ℕ) (bytes : List ℕ) (m : Bytes) (test : Bool)
    (x y : Bytes × Result HookError (Unit {0}))
    → Patched addr bytes m x
    → Patched addr bytes m y
    → Patched addr bytes m (if test then x else y)
if_Patched addr bytes m true x y hx hy = hx
if_Patched addr bytes m false x y hx hy = hy

confirmed-Patched :
    (addr : ℕ) (bytes : List ℕ) (m : Bytes) (now : Bytes × Bool)
    → ((a : ℕ) → now.0 a ≡ (if now.1 then write addr bytes m a else m a))
    → Patched addr bytes m (confirmed addr bytes now)
unfolding confirmed
confirmed-Patched addr bytes m (m', false) law = law
confirmed-Patched addr bytes m (m', true) law =
    rw (reads_back_written addr bytes m m' (λ a le. law a)) law

remap_staged-Patched :
    (sys : System) (addr : ℕ) (bytes : List ℕ) (m : Bytes)
    → Patched addr bytes m (remap_staged sys addr bytes m)
unfolding remap_staged
remap_staged-Patched sys addr bytes m =
    let copy = write addr bytes m in
    if_Patched addr bytes m (not sys.stage) _ _ (λ a. refl)
      (if_Patched addr bytes m (not (sys.writable && sys.executable)) _ _ (λ a. refl)
        (confirmed-Patched addr bytes m (sys.remap m copy) (sys.remapped m copy)))

remap_sized-Patched :
    (sys : System) (addr : ℕ) (bytes : List ℕ) (m : Bytes) (size : Option ℕ)
    → Patched addr bytes m (remap_sized sys addr bytes m size)
unfolding remap_sized
remap_sized-Patched sys addr bytes m none = λ a. refl
remap_sized-Patched sys addr bytes m (some ps) =
    if_Patched addr bytes m (ltb ps (addr % ps + length bytes)) _ _ (λ a. refl)
      (remap_staged-Patched sys addr bytes m)

-- A patch either succeeds and writes its bytes at its address and no other, or fails and changes no
-- byte, whatever the system refuses.
pub remap_patch-Patched :
    (sys : System) (addr : ℕ) (bytes : List ℕ) (m : Bytes)
    → Patched addr bytes m (remap_patch sys addr bytes m)
unfolding remap_patch
remap_patch-Patched sys addr bytes m = remap_sized-Patched sys addr bytes m sys.page_size

-- The bytes at the entry that the installed flag stands for.
abbrev pub shown : EntryPatch → Bool → List ℕ
shown e installed = if installed then e.patch else e.original

-- The bytes of the process are those of `base`, with the patch or the original at the entry.
abbrev pub IsSynced : EntryPatch → Bytes → EntryState → Type 0
IsSynced e base s = (a : ℕ) → s.bytes a ≡ write e.entry (shown e s.installed) base a

-- A successful exchange found the expected state word and left the new one; a failed one reports the
-- word that it found, and leaves the word and every byte.
abbrev pub Moved : EntryPatch → EntryState → ℕ → ℕ → EntryState × Exchange → Type 0
Moved e s expected new (t, swapped) = (expected ≡ state_word e s) × (state_word e t ≡ new)
Moved e s expected new (t, observed word) =
    (word ≡ state_word e s) × (state_word e t ≡ state_word e s) × ((a : ℕ) → t.bytes a ≡ s.bytes a)

abbrev Both : EntryPatch → Bytes → EntryState → ℕ → ℕ → EntryState × Exchange → Type 0
Both e base s expected new (t, x) = Moved e s expected new (t, x) × IsSynced e base t

rewritten-Both :
    (sys : System) (e : EntryPatch) (base : Bytes) (s : EntryState) (expected new : ℕ) (f : Failure)
    → (next : Bool) (r : Bytes × Result HookError (Unit {0}))
    → length (shown e next) ≡ length (shown e s.installed)
    → expected ≡ state_word e s
    → (if next then e.replacement else e.trampoline) ≡ new
    → IsSynced e base s
    → Patched e.entry (shown e next) s.bytes r
    → Both e base s expected new (rewritten sys e f (state_word e s) next s r)
unfolding rewritten state_word
rewritten-Both sys e base s expected new f next (m, ok u) len ex word sync patched = (
  (ex, word),
  λ a.
      patched a
      ∙ write_over e.entry (shown e next) (shown e s.installed) base s.bytes a len (sync a),
)
rewritten-Both sys e base s expected new f next (m, err x) len ex word sync patched =
    ((refl, refl, patched), λ a. patched a ∙ sync a)

unmoved-Both :
    (e : EntryPatch) (base : Bytes) (s : EntryState) (expected new : ℕ)
    → IsSynced e base s
    → Both e base s expected new (s, observed (state_word e s))
unmoved-Both e base s expected new sync = ((refl, refl, λ a. refl), sync)

-- The exchange of the entry patch, if the patch is as long as the code that it displaces and the
-- trampoline is not the replacement: a success found the expected state word and left the new one, a
-- failure reports the word and changes neither it nor any byte; and always the bytes at the entry
-- stay those that the state word stands for, with every other byte as it was.
pub compare_exchange-Moved :
    (sys : System) (e : EntryPatch) (base : Bytes) (s : EntryState) (expected new : ℕ)
    → length e.patch ≡ length e.original
    → e.trampoline ≢ e.replacement
    → IsSynced e base s
    → Moved e s expected new (compare_exchange sys e s expected new)
      × IsSynced e base (compare_exchange sys e s expected new).0
unfolding compare_exchange patch_entry unpatch_entry
compare_exchange-Moved sys e base s expected new len ne sync =
    let Good : EntryState × Exchange → Type 0 = Both e base s expected new in
    let same = unmoved-Both e base s expected new sync in
    if-elim Good (not (expected == state_word e s)) _ _ (λ wrong. same)
      (λ right.
        if-elim Good ((new == e.replacement) && not s.installed) _ _
          (λ t.
            rewritten-Both sys e base s expected new entry_patch_write_failed (new == e.replacement)
              (patch_entry sys e s) (ground (arith, t, len)) (ground (arith, right))
              (ground (arith, t)) sync
              (rw (&&-left (new == e.replacement) (not s.installed) t)
                (remap_patch-Patched sys e.entry e.patch s.bytes)))
          (λ no.
            if-elim Good ((new == e.trampoline) && s.installed) _ _
              (λ t.
                let old : (new == e.replacement) ≡ false = ground (arith, t, ne) in
                rewritten-Both sys e base s expected new entry_restore_write_failed
                  (new == e.replacement) (unpatch_entry sys e s) (ground (arith, t, old, len))
                  (ground (arith, right)) (ground (arith, t, old)) sync
                  (rw old (remap_patch-Patched sys e.entry e.original s.bytes)))
              (λ no. same)))
