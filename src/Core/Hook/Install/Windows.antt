-- ===== src/Core/Hook/Install/Windows.antt =====
-- What a dispatch that runs in the middle of an installation finds.
use shiny_song_tools.Prelude.{
  ℕ, ◌≡◌, ◌≢◌, refl, sym, subst, true, Option, none, some, List, [], ◌∷◌, ◌++◌, Result, ok, err,
  arith, All, All-append, All-single,
}
use shiny_song_tools.Core.Error.{HookError, installation_failed}
use shiny_song_tools.Core.MethodSlot.{SlotMemory, reads}
use shiny_song_tools.Core.MethodSlot.Laws.{bind_captures}
use shiny_song_tools.Core.MethodSlot.Target.{TargetId, HookMechanism, matches}
use shiny_song_tools.Core.Hook.{SiteInner, is_live}
use shiny_song_tools.Core.Hook.Install.{
  MethodResolver, Bound, View, InstallRun, prepare, validate, memory_for, publish_original,
  publish_method, set_active, exchange, conclude, install_bound,
}

module _ (m : SlotMemory) where
  -- What `prepare` has established.
  pub record IsBound (target : TargetId) (b : Bound m) : Type 0 where
    pub matched : matches target b.method ≡ true
    pub captured : m.read b.memory ≡ some b.slot.original
    pub not_null : b.slot.original ≢ 0

  -- An installation gets past its preparation only with a method that matches the declared target,
  -- and with the value of its slot captured and not null.
  pub prepare-IsBound :
      (resolver : Option (MethodResolver m)) (target : TargetId) (mechanism : HookMechanism)
      (replacement : ℕ) (b : Bound m)
      → prepare m resolver target mechanism replacement ≡ ok b
      → IsBound target b
  unfolding prepare validate memory_for
  prepare-IsBound none target mechanism replacement b h = cc
  prepare-IsBound (some r) target mechanism replacement b h = ground (arith, bind_captures m)

  abbrev pub views : InstallRun m → List (View m)
  views r = r.seen ++ r.final ∷ []

  -- A dispatch at this view calls the original if the game can reach the replacement at all.
  abbrev pub Covers : View m → Type 0
  Covers v =
      reads (m.read v.memory) v.inner.replacement ≡ true → is_live m v.memory (some v.inner) ≡ true

  abbrev pub activated : Bound m → SiteInner → SiteInner
  activated b inner = record inner {
    active = some (record { slot = b.slot; replacement_addr = inner.replacement });
  }

  pub set_active-fresh :
      (b : Bound m) (inner : SiteInner)
      → inner.active ≡ none
      → set_active m b inner ≡ ok (activated b inner)
  unfolding set_active
  set_active-fresh b inner fresh = ground arith

  module _ (b : Bound m) (inner : SiteInner) (ne : b.slot.original ≢ inner.replacement) where
    -- Before the exchange the slot holds the original.
    Covers-before :
        (i : SiteInner)
        → i.replacement ≡ inner.replacement
        → m.read b.memory ≡ some b.slot.original
        → Covers (record { inner = i; memory = b.memory })
    Covers-before i e captured h = absurd (ground arith)

    -- From the activation on, the slot alone decides.
    Covers-active :
        (i : SiteInner) (s : m.State)
        → i.active ≡ some (record { slot = b.slot; replacement_addr = i.replacement })
        → i.original_addr ≡ b.slot.original
        → b.slot.original ≢ 0
        → Covers (record { inner = i; memory = s })
    unfolding is_live
    Covers-active i s e a nz h = ground arith

    conclude-Covers :
        (later : m.State → m.State) (i : SiteInner) (seen : List (View m))
        (r : m.State × Result HookError (Unit {0}))
        → i.active ≡ some (record { slot = b.slot; replacement_addr = i.replacement })
        → i.original_addr ≡ b.slot.original
        → b.slot.original ≢ 0
        → All Covers seen
        → All Covers (views (conclude m later b i seen r))
    unfolding conclude
    conclude-Covers later i seen (s, ok _) e a nz h =
        All-append Covers (seen ++ record { inner = i; memory = s } ∷ []) _
          (All-append Covers seen _ h (All-single Covers _ (Covers-active i s e a nz)))
          (All-single Covers _ (Covers-active (record i { installed = true }) s e a nz))
    conclude-Covers later i seen (s, err installation_failed) e a nz h =
        All-append Covers (seen ++ record { inner = i; memory = s } ∷ []) _
          (All-append Covers seen _ h (All-single Covers _ (Covers-active i s e a nz)))
          (All-single Covers _ (Covers-active i _ e a nz))
    conclude-Covers later i seen (s, err x) e a nz h =
        All-append Covers seen _ h (All-single Covers _ (Covers-active i s e a nz))

  -- At every moment of a first installation at which the slot holds the replacement, whatever other
  -- writers do from the site's activation on, the site is live: a game call that lands there reaches the
  -- original.
  pub views-Covers :
      (earlier others later : m.State → m.State) (target : TargetId) (b : Bound m)
      (inner : SiteInner)
      → IsBound target b
      → inner.active ≡ none
      → b.slot.original ≢ inner.replacement
      → All Covers (views (install_bound m earlier others later b inner))
  unfolding install_bound is_live publish_original publish_method
  views-Covers earlier others later target b inner bound fresh ne =
      subst (λ r. All Covers (views (exchange m earlier others later b seen second r)))
        (sym (set_active-fresh b second fresh))
        (conclude-Covers b inner ne later active (seen ++ window) _ refl refl bound.not_null (
          All-append Covers seen window
            (before inner refl, (before first refl, (before second refl, tt)))
            (live b.memory, (live (earlier b.memory), (live exchanged, tt)))))
    where
      first : SiteInner
      first = publish_original m b inner

      second : SiteInner
      second = publish_method m b first

      active : SiteInner
      active = activated b second

      seen : List (View m)
      seen =
          record { inner = inner; memory = b.memory }
          ∷ record { inner = first; memory = b.memory }
          ∷ record { inner = second; memory = b.memory }
          ∷ []

      exchanged : m.State
      exchanged = (m.compare_exchange (earlier b.memory) b.slot.original active.replacement).0

      window : List (View m)
      window =
          record { inner = active; memory = b.memory }
          ∷ record { inner = active; memory = earlier b.memory }
          ∷ record { inner = active; memory = exchanged }
          ∷ []

      before :
          (i : SiteInner)
          → i.replacement ≡ inner.replacement
          → Covers (record { inner = i; memory = b.memory })
      before i e = Covers-before b inner ne i e bound.captured

      live : (s : m.State) → Covers (record { inner = active; memory = s })
      live s = Covers-active b inner ne active s refl refl bound.not_null
