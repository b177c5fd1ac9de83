-- ===== src/Base/Text.antt =====
-- Searching and splitting texts. A text is a list of characters; a Go string is its UTF-8 bytes, and
-- the searches below agree on the two because every pattern is itself valid UTF-8.
pub mod Infix
use Prim.Native.Nat.{ℕ}
use Prim.Native.Char.{code}
use Prim.Native.String.{String, [], ◌∷◌}
use mathlib.Core.Bool.{Bool, true, false, ◌||◌, ◌&&◌}
use bmc_secret_operator.Base.Core.{◌=ℕ◌}

-- Whether the first text begins with the second.
unfoldable pub begins : String → String → Bool
begins s [] = true
begins [] (c ∷ t) = false
begins (d ∷ s) (c ∷ t) = (code d =ℕ code c) && begins s t

-- Some suffix of the text begins with the pattern: `strings.Contains`.
unfoldable pub has_infix : String → String → Bool
unfolding begins
has_infix [] t = begins [] t
has_infix (c ∷ s) t = begins (c ∷ s) t || has_infix s t

-- Whether the character with this code occurs.
unfoldable pub has_char : ℕ → String → Bool
has_char k [] = false
has_char k (c ∷ s) = (code c =ℕ k) || has_char k s
