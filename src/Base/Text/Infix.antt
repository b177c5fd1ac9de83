-- ===== src/Base/Text/Infix.antt =====
-- Searching a text that was put together: a pattern without some character is found on one side of
-- it or on the other.
use Prim.Native.Char.{Char, code}
use Prim.Native.String.{String, [], ◌∷◌, ◌++◌}
use text.Mathlib.TextLemmas.{nil-append, cons-append}
use mathlib.Core.Path.{◌≡◌, refl}
use mathlib.Core.Bool.{false, ◌||◌}
use native.Mathlib.Omega.{arith}
use bmc_secret_operator.Base.Text.{begins, has_infix, has_char}

begins-cut :
    (p q : String) (x : Char) (t : String)
    → has_char (code x) t ≡ false
    → begins (p ++ (x ∷ q)) t ≡ begins p t
unfolding begins has_char
begins-cut [] q x [] h = refl
begins-cut [] q x (c ∷ t) h = rw nil-append (ground arith)
begins-cut (d ∷ p) q x [] h = refl
begins-cut (d ∷ p) q x (c ∷ t) h = rw cons-append (ground (arith, begins-cut p q x t))

begins-nil :
    (q : String) (x : Char) (t : String)
    → has_char (code x) t ≡ false
    → begins (x ∷ q) t ≡ begins [] t
unfolding begins has_char
begins-nil q x [] h = refl
begins-nil q x (c ∷ t) h = ground arith

cons_cut :
    (d : Char) (p q : String) (x : Char) (t : String)
    → has_char (code x) t ≡ false
    → begins (d ∷ (p ++ (x ∷ q))) t ≡ begins (d ∷ p) t
unfolding begins has_char
cons_cut d p q x [] h = refl
cons_cut d p q x (c ∷ t) h = ground (arith, begins-cut p q x t)

pub has_infix-cut :
    (p q : String) (x : Char) (t : String)
    → has_char (code x) t ≡ false
    → has_infix (p ++ (x ∷ q)) t ≡ has_infix p t || has_infix q t
unfolding has_infix
has_infix-cut [] q x t h = rw nil-append (ground (arith, begins-nil q x t h))
has_infix-cut (d ∷ p) q x t h =
    rw cons-append (ground (arith, has_infix-cut p q x t h, cons_cut d p q x t h))
