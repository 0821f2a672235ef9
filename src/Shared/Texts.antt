-- ===== src/Shared/Texts.antt =====
-- Texts.
use Prim.Native.String.{String}
use mathlib.Core.Bool.{Bool, ◌||◌}
use text.Mathlib.Text.{starts_with}

-- `sub in text`
abbrev pub contains : String → String → Bool
contains sub String.[] = starts_with String.[] sub
contains sub (String.◌∷◌ c s) =
    let rest = contains sub s in starts_with (String.◌∷◌ c s) sub || rest
