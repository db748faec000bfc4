-- ===== src/Core/Hook/Dispatch/Gates.antt =====
-- What a dispatch returns: behind a closed gate the handler is out of reach, and an ordinary
-- handler's result is the result.
use shiny_song_tools.Prelude.{◌≡◌, true, false, some, List, ◌∷◌, arith}
use shiny_song_tools.Core.MethodSlot.{SlotMemory}
use shiny_song_tools.Core.Hook.{SiteInner, is_live, is_dispatchable}
use shiny_song_tools.Core.Hook.Dispatch.{
  returned, panicked, Call, original_at, fallback_call, refused, value, unwound, Handler, done,
  panic, call_original, Outside, run_original, enter, dispatch,
}

-- A handler that calls the original once, maps its value, and lets an unwind through.
abbrev pub mapping : {R : Type 0} → (R → R) → Handler R
mapping f =
    call_original λ reply. elim reply [ refused ↦ panic | value v ↦ done (f v) | unwound ↦ panic ]

module _ {R : Type 0} (out : Outside R) (m : SlotMemory) (s : m.State) (inner : SiteInner) where
  -- While the site is live and a gate is closed, every handler is bypassed: the result is the
  -- original's own, after that one call.
  pub dispatch_gated :
      (h : Handler R) (log : List Call)
      → is_live m s (some inner) ≡ true
      → is_dispatchable m s (some inner) ≡ false
      → dispatch out m s (some inner) h log
        ≡ (out.original inner.original_addr log, original_at inner.original_addr ∷ log)
  unfolding dispatch is_live is_dispatchable enter run_original
  dispatch_gated h log live shut = ground arith

  -- With both gates open, a handler that calls the original and maps its value determines the
  -- result; if the original panics the fallback gives it, and the original is not tried again.
  pub dispatch-mapping :
      (f : R → R) (log : List Call)
      → is_live m s (some inner) ≡ true
      → is_dispatchable m s (some inner) ≡ true
      → dispatch out m s (some inner) (mapping f) log
        ≡ (elim (out.original inner.original_addr log) [
          | returned v ↦ (returned (f v), original_at inner.original_addr ∷ log)
          | panicked ↦ (
            out.fallback (original_at inner.original_addr ∷ log),
            fallback_call ∷ original_at inner.original_addr ∷ log,
          )
        ])
  unfolding dispatch is_live is_dispatchable enter
  dispatch-mapping f log live shut = ground arith

  -- At a live site, a handler that panics at once changes nothing: the original is called once and
  -- its result is the result.
  pub dispatch-panic :
      (log : List Call)
      → is_live m s (some inner) ≡ true
      → dispatch out m s (some inner) panic log
        ≡ (out.original inner.original_addr log, original_at inner.original_addr ∷ log)
  unfolding dispatch is_live enter run_original
  dispatch-panic log live = ground arith
