-- ===== src/Core/Bridge/Ladder.antt =====
-- The exports that are loaded, and the one query of the domain.
use Prim.Native.String.{String}
use text.Mathlib.Text.{◌==◌ as str_eq}
use text.Mathlib.TextEquality.{eq_iff}
use shiny_song_tools.Prelude.{
  ℕ, ◌==◌, ◌≡◌, ◌≢◌, refl, ap, subst, ◌∙◌, arith, true, not, Option, none, some, ◌>>?◌, List, [],
  ◌∷◌, All, if-elim, if_true, if◌then◌else◌, Result, ok, err,
}
use shiny_song_tools.Core.Error.{Il2CppError}
use shiny_song_tools.Core.Bridge.{
  Loader, ExactHandle, symbol, Exports, BridgeBackend, AttachGuard, address_or_null, first_missing,
  load_exports, domain_get, attach_current_thread, drop_guard, hydrate_metadata,
}

-- The address of an export in this very image.
abbrev pub IsIn : Loader → ExactHandle → String → ℕ → Type 0
IsIn loader h name address =
    (loader.dlsym h.raw name ≡ address) × (address ≢ 0) × (loader.image_owner address ≡ some h.path)

abbrev SymbolEnd : Loader → ExactHandle → String → Option ℕ → Type 0
SymbolEnd loader h name none = Unit
SymbolEnd loader h name (some a) = IsIn loader h name a

owned :
    (loader : Loader) (h : ExactHandle) (name : String) (o : Option String)
    → loader.image_owner (loader.dlsym h.raw name) ≡ o
    → loader.dlsym h.raw name ≢ 0
    → SymbolEnd loader h name
        (o >>? λ owner. if str_eq owner h.path then some (loader.dlsym h.raw name) else none)
owned loader h name none e ne = tt
owned loader h name (some owner) e ne =
    if-elim (SymbolEnd loader h name) (str_eq owner h.path) _ _
      (λ t. (refl, ne, e ∙ ap some ((eq_iff owner h.path).0 t))) (λ t. tt)

symbol-SymbolEnd :
    (loader : Loader) (h : ExactHandle) (name : String)
    → SymbolEnd loader h name (symbol loader h name)
unfolding symbol
symbol-SymbolEnd loader h name =
    if-elim (SymbolEnd loader h name) (loader.has_nul name) _ _ (λ t. tt)
      (λ t.
        if-elim (SymbolEnd loader h name) (loader.dlsym h.raw name == 0) _ _ (λ null. tt)
          (λ some_address.
            owned loader h name (loader.image_owner (loader.dlsym h.raw name)) refl
              (ground (arith, some_address))))

address_or_null-IsIn :
    (loader : Loader) (h : ExactHandle) (name : String) (o : Option ℕ)
    → SymbolEnd loader h name o
    → address_or_null o ≢ 0
    → IsIn loader h name (address_or_null o)
address_or_null-IsIn loader h name none e ne = absurd (ne refl)
address_or_null-IsIn loader h name (some a) e ne = e

module _ {S : Type 0} (exports : Exports S) where
  loaded : (r : Result (List String) (Unit {0})) → first_missing r ≡ ok tt → r ≡ ok tt
  unfolding first_missing
  loaded (ok u) e = refl
  loaded (err []) e = cc
  loaded (err (name ∷ names)) e = cc

  All-IsIn :
      (loader : Loader) (h : ExactHandle) (names : List String)
      → All (λ name. address_or_null (symbol loader h name) ≢ 0) names
      → All (λ name. IsIn loader h name (address_or_null (symbol loader h name))) names
  All-IsIn loader h [] found = tt
  All-IsIn loader h (name ∷ names) found = (
    address_or_null-IsIn loader h name (symbol loader h name) (symbol-SymbolEnd loader h name)
        found.0,
    All-IsIn loader h names found.1,
  )

  -- If the exports load, then each of those that the library needs has got an address that the loader gave
  -- for its name in the handle, and that lies in the image of the handle and in no other.
  pub load_exports-IsIn :
      (loader : Loader) (h : ExactHandle)
      → load_exports exports loader h ≡ ok tt
      → All (λ name. IsIn loader h name (address_or_null (symbol loader h name))) exports.required
  unfolding load_exports
  load_exports-IsIn loader h e =
      All-IsIn loader h exports.required
        (exports.load_found (λ name. address_or_null (symbol loader h name)) (loaded _ e))

  -- What the bootstrap does with the backend.
  pub data Operation : Type 0 where
    get attach hydrate : Operation
    detach : AttachGuard → Operation

  unfoldable pub perform : Operation → BridgeBackend S → BridgeBackend S
  unfolding domain_get attach_current_thread hydrate_metadata drop_guard
  perform get b = (domain_get exports b).0
  perform attach b = (attach_current_thread exports b).0
  perform hydrate b = (hydrate_metadata exports b).0
  perform (detach guard) b = drop_guard exports guard b

  unfoldable pub perform_all : List Operation → BridgeBackend S → BridgeBackend S
  unfolding perform
  perform_all [] b = b
  perform_all (o ∷ os) b = perform_all os (perform o b)

  captured : (d : ℕ) (b : BridgeBackend S) → b.domain ≡ d → d ≢ 0 → domain_get exports b ≡ (b, ok d)
  unfolding domain_get
  captured d b e ne =
      let other : not (b.domain == 0) ≡ true = ground (arith, e, ne) in
      if_true (λ (x : BridgeBackend S × Result Il2CppError ℕ). x ≡ (b, ok d)) _ _ _ other
        (ap (λ n. let x : BridgeBackend S × Result Il2CppError ℕ = (b, ok n) in x) e)

  perform_keeps :
      (d : ℕ) (o : Operation) (b : BridgeBackend S)
      → b.domain ≡ d
      → d ≢ 0
      → (perform o b).domain ≡ d
  unfolding perform attach_current_thread hydrate_metadata drop_guard
  perform_keeps d get b e ne =
      ap (λ (x : BridgeBackend S × Result Il2CppError ℕ). x.0.domain) (captured d b e ne) ∙ e
  perform_keeps d attach b e ne = ground (arith, e)
  perform_keeps d hydrate b e ne = e
  perform_keeps d (detach none) b e ne = e
  perform_keeps d (detach (some thread)) b e ne = e

  perform_all_keeps :
      (d : ℕ) (os : List Operation) (b : BridgeBackend S)
      → b.domain ≡ d
      → d ≢ 0
      → (perform_all os b).domain ≡ d
  unfolding perform_all
  perform_all_keeps d [] b e ne = e
  perform_all_keeps d (o ∷ os) b e ne =
      perform_all_keeps d os (perform o b) (perform_keeps d o b e ne) ne

  abbrev DomainEnd : BridgeBackend S × Result Il2CppError ℕ → Type 0
  DomainEnd (b, ok d) = (b.domain ≡ d) × (d ≢ 0)
  DomainEnd (b, err e) = Unit

  domain_get-DomainEnd : (b : BridgeBackend S) → DomainEnd (domain_get exports b)
  unfolding domain_get
  domain_get-DomainEnd b =
      if-elim DomainEnd (not (b.domain == 0)) _ _ (λ t. (refl, ground (arith, t)))
        (λ t.
          if-elim DomainEnd ((exports.domain_get b.game).1 == 0) _ _ (λ null. tt)
            (λ some_domain. (refl, ground (arith, some_domain))))

  -- Once a query of the domain has succeeded, the game is not asked again: after any further queries,
  -- attachments, hydrations and detachments a query leaves the game as it is and returns that domain,
  -- which is not null.
  pub domain_get_once :
      (b b' : BridgeBackend S) (d : ℕ) (os : List Operation)
      → domain_get exports b ≡ (b', ok d)
      → (d ≢ 0) × (domain_get exports (perform_all os b') ≡ (perform_all os b', ok d))
  domain_get_once b b' d os e =
      let (kept, ne) = subst DomainEnd e (domain_get-DomainEnd b) in
      (ne, captured d (perform_all os b') (perform_all_keeps d os b' kept ne) ne)
