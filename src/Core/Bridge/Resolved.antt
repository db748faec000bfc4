-- ===== src/Core/Bridge/Resolved.antt =====
-- What a target resolves to.
use Prim.Native.String.{◌++◌ as join}
use shiny_song_tools.Prelude.{
  ◌==◌, ◌≡◌, ◌≢◌, ◌⊎◌, inl, inr, refl, sym, subst, arith, true, false, not, Option, none, some,
  Option-cases, List, [], ◌∷◌, length, if-elim, Result, ok, err,
}
use shiny_song_tools.Core.Error.{HookError, target_unavailable, signature_mismatch}
use shiny_song_tools.Core.MethodSlot.Target.{TargetId, MethodRef, bool_eq}
use shiny_song_tools.Core.Bridge.{
  CachedMethod, CachedClass, CachedAssembly, Cache, IsOnly, overloads, method_ref, ok_or, checked,
  resolve_in, resolve,
}
use shiny_song_tools.Core.Bridge.Overloads.{overloads-IsOnly, IsOnly-overloads}

single_of : {A : Type 0} (xs : List A) → length xs ≡ 1 → (x : A) × (xs ≡ x ∷ [])
single_of [] e = absurd (omega (arith, e))
single_of (x ∷ []) e = (x, refl)
single_of (x ∷ y ∷ xs) e = absurd (omega (arith, e))

-- The class that a target names, in the cache.
abbrev pub IsClass : Cache → TargetId → CachedAssembly → CachedClass → Type 0
IsClass cache target a c =
    (cache.assembly target.assembly ≡ some a)
    × (a.class (join target.namespace (join "." target.class)) ≡ some c)

-- A method may be trusted: it has an address, and its two flags for static methods agree.
abbrev pub IsUsable : CachedMethod → Type 0
IsUsable m = (m.address ≢ 0) × (m.is_static ≡ not m.is_instance)

-- The class has exactly this method with the name and the number of arguments of the target.
abbrev pub IsNamed : TargetId → CachedClass → CachedMethod → Type 0
IsNamed target c m = IsOnly target.method target.param_count c.methods m

-- The target names no class of the cache.
abbrev pub HasNoClass : Cache → TargetId → Type 0
HasNoClass cache target =
    (cache.assembly target.assembly ≡ none)
    ⊎ ((a : CachedAssembly) × (cache.assembly target.assembly ≡ some a)
        × (a.class (join target.namespace (join "." target.class)) ≡ none))

abbrev pub Resolves : Cache → TargetId → Result HookError MethodRef → Type 0
Resolves cache target (ok r) =
    (a : CachedAssembly) × (c : CachedClass) × (m : CachedMethod) × IsClass cache target a c
    × IsNamed target c m
    × IsUsable m
    × (r ≡ method_ref a c m)
Resolves cache target (err e) =
    (HasNoClass cache target × (e ≡ target_unavailable))
    ⊎ ((a : CachedAssembly) × (c : CachedClass) × IsClass cache target a c
        × ((((m : CachedMethod) → ¬ IsNamed target c m) × (e ≡ signature_mismatch))
            ⊎ ((m : CachedMethod) × IsNamed target c m
                × (((m.address ≡ 0) × (e ≡ target_unavailable))
                    ⊎ ((m.address ≢ 0)
                        × (m.is_static ≡ m.is_instance)
                        × (e ≡ signature_mismatch))))))

flags_agree :
    (m : CachedMethod) → bool_eq m.is_static m.is_instance ≡ false → m.is_static ≡ not m.is_instance
flags_agree m h = ground (arith, h)

flags_differ :
    (m : CachedMethod) → bool_eq m.is_static m.is_instance ≡ true → m.is_static ≡ m.is_instance
flags_differ m h = ground (arith, h)

module _ (cache : Cache) (target : TargetId) where
  module _ (a : CachedAssembly) (c : CachedClass) (found : IsClass cache target a c) where
    checked-Resolves :
        (m : CachedMethod) → IsNamed target c m → Resolves cache target (checked a c m)
    unfolding checked
    checked-Resolves m only =
        if-elim (Resolves cache target) (m.address == 0) _ _
          (λ null. inr (a, c, found, inr (m, only, inl (ground (arith, null), refl))))
          (λ address.
            let some_address : m.address ≢ 0 = ground (arith, address) in
            if-elim (Resolves cache target) (bool_eq m.is_static m.is_instance) _ _
              (λ differ.
                inr (a, c, found, inr (m, only, inr (some_address, flags_differ m differ, refl))))
              (λ agree. (a, c, m, found, only, (some_address, flags_agree m agree), refl)))

    resolve_in-Resolves : Resolves cache target (resolve_in cache target a c)
    unfolding resolve_in
    resolve_in-Resolves =
        let ms = overloads target.method target.param_count c.methods in
        if-elim (Resolves cache target) (not (length ms == 1)) _ _
          (λ many. inr (
            a,
            c,
            found,
            inl (
              (λ m only. ground (
                arith,
                many,
                IsOnly-overloads target.method target.param_count c.methods m only,
              )),
              refl,
            ),
          ))
          (λ one.
            let (m, single) = single_of ms (ground (arith, one)) in
            let only = overloads-IsOnly target.method target.param_count c.methods m single in
            let e = cache.method_single c target.method target.param_count m only in
            subst
              (λ (o : Option CachedMethod).
                Resolves cache target
                  (elim o [ none ↦ err signature_mismatch | some x ↦ checked a c x ]))
              (sym e) (checked-Resolves m only))

  -- A target resolves to a method exactly if the cache has its class, exactly one method of that class has
  -- the name and the number of arguments, that method has an address, and its two flags for static
  -- methods agree; the result is what the cache says of it. Each other case has its error.
  pub resolve-Resolves : Resolves cache target (resolve cache target)
  unfolding resolve
  resolve-Resolves = elim (Option-cases (cache.assembly target.assembly)) [
    | inl e ↦ rw (e, ok_or) (inl (inl e, refl))
    | inr (a, e) ↦ elim (Option-cases (a.class (join target.namespace (join "." target.class)))) [
      | inl e' ↦ rw (e, ok_or) (rw (e', ok_or) (inl (inr (a, e, e'), refl)))
      | inr (c, e') ↦ rw (e, ok_or) (rw (e', ok_or) (resolve_in-Resolves a c (e, e')))
    ]
  ]
