-- ===== src/Prelude/Texts.antt =====
-- Operations on texts that more than one component uses.
use Prim.Native.String.{String}
use text.Mathlib.Text.{starts_with}
use mathlib.Core.Bool.{Bool, ◌||◌}

-- `strings.Contains`
unfoldable pub contains : String → String → Bool
contains String.[] t = starts_with String.[] t
contains (String.◌∷◌ c s) t = starts_with (String.◌∷◌ c s) t || contains s t
