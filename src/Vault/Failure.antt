-- ===== src/Vault/Failure.antt =====
-- The text by which `SecretExists` tells an absent secret from a failure.
use Prim.Native.Char.{Char}
use Prim.Native.String.{◌∷◌}
use text.Mathlib.TextLemmas.{nil-append, cons-append, append_assoc}
use mathlib.Core.Bool.{◌||◌}
use bmc_secret_operator.Base.{◌≡◌, refl, ◌∙◌, ap, String, ◌<>◌, false, Error, wrap}
use bmc_secret_operator.Base.Text.{begins, has_infix, has_char}
use bmc_secret_operator.Base.Text.Infix.{has_infix-cut}

abbrev pub not_found_text : String
not_found_text = "secret not found"

two_chars : (c d : Char) (s : String) → (c ∷ (d ∷ "")) <> s ≡ c ∷ (d ∷ s)
two_chars c d s = rw (cons-append, cons-append, nil-append) refl

at_path :
    (full_path : String)
    → has_infix ("failed to read secret from vault at " <> full_path) not_found_text
      ≡ has_infix full_path not_found_text
unfolding has_infix begins has_char
at_path full_path =
    ap (λ (s : String). has_infix s not_found_text)
      (append_assoc "failed to read secret from vault " "at " full_path
        ∙ ap (λ (s : String). "failed to read secret from vault " <> s)
            (cons-append "a" "t " full_path
              ∙ ap (λ (s : String). "a" ∷ s) (two_chars "t" " " full_path)))
    ∙ has_infix-cut "failed to read secret from vault " ("t" ∷ (" " ∷ full_path)) "a" not_found_text
        refl

-- Where the full path does not contain the text, a failed read's message contains it exactly if the
-- client's error does.
pub read_failure :
    (full_path : String) (e : Error)
    → has_infix full_path not_found_text ≡ false
    → has_infix
        (wrap ("failed to read secret from vault at " <> full_path) e).message
        not_found_text
      ≡ has_infix e.message not_found_text
unfolding has_infix begins has_char
read_failure full_path e h =
    ap
      (λ (s : String).
        has_infix (("failed to read secret from vault at " <> full_path) <> s) not_found_text)
      (two_chars ":" " " e.message)
    ∙ has_infix-cut ("failed to read secret from vault at " <> full_path) (" " ∷ e.message) ":"
        not_found_text refl
    ∙ ap (λ b. b || has_infix e.message not_found_text) (at_path full_path ∙ h)
