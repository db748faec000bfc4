-- ===== src/Core/Original.antt =====
-- crates/core/src/original.rs: the phase of the one call of an original.
use shiny_song_tools.Prelude.{Bool, true, false}

pub data OriginalPhase : Type 0 where
  before_original calling_original after_original : OriginalPhase

unfoldable pub needs_original : OriginalPhase → Bool
needs_original before_original = true
needs_original _ = false

unfoldable pub begin_call : OriginalPhase → OriginalPhase × Bool
begin_call before_original = (calling_original, true)
begin_call p = (p, false)

unfoldable pub end_call : OriginalPhase → OriginalPhase
end_call calling_original = after_original
end_call p = p
