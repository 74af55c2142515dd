-- ===== src/Text.antt =====
-- Go's strings as lists of code points, with what the program uses of `strings` and `strconv`.
pub mod Strings
pub mod Equality
pub mod Fields
use Prim.Native.Char.{code}
use Prim.Native.String.{String}
use rightsizer.Prelude.{ℕ, List, [], ◌∷◌}

abbrev pub Text : Type 0
Text = List ℕ

-- The code points of a literal.
abbrev pub codes : String → Text
codes String.[] = []
codes (String.◌∷◌ first rest) = code first ∷ codes rest
