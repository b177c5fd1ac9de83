-- ===== src/Base/Decimal.antt =====
-- The decimal digits of a number, as `%d` prints it.
use Prim.Native.Nat.{ℕ, zero, suc, ◌/◌, ◌%◌}
use Prim.Native.String.{String, [], ◌∷◌, ◌++◌}
use mathlib.Core.Path.{◌≡◌, refl}
use mathlib.Core.Bool.{true, false}
use bmc_secret_operator.Base.Core.{ltb}

-- The text of the character at an index; "" behind the end.
char_at : ℕ → String → String
char_at n [] = []
char_at zero (c ∷ s) = c ∷ []
char_at (suc n) (c ∷ s) = char_at n s

digit : ℕ → String
unfolding char_at
digit d = char_at d "0123456789"

-- A number has no more digits than its value and one more.
digits : ℕ → ℕ → String
unfolding digit
digits zero n = ""
digits (suc fuel) n = elim (ltb n 10) [
  | true ↦ digit n
  | false ↦ digits fuel (n / 10) ++ digit (n % 10)
]

unfoldable pub decimal : ℕ → String
unfolding digits
decimal n = digits (suc n) n

decimal_307 : decimal 307 ≡ "307"
unfolding decimal
decimal_307 = refl
