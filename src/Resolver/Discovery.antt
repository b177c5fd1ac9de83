-- ===== src/Resolver/Discovery.antt =====
-- Which BMCs a secret's run finds, and what it takes from the objects.
use mathlib.Core.Bool.{false≢true}
use mathlib.Core.List.{Memᴰ}
use mathlib.Core.List.Memᴰ
use bmc_secret_operator.Base.{
  ◌≡◌, ◌∙◌, ◌↔◌, sym, ap, String, false, Option, none, some, List, [], ◌∷◌, ◌==◌, eq_iff, arith,
}
use bmc_secret_operator.Base.{Result, ok, err, errorf, inl, inr, Bool-cases, if◌then◌else◌}
use bmc_secret_operator.Base.Dict.{lookup}
use bmc_secret_operator.Api.Metal.{Bmc, BmcSecret}
use bmc_secret_operator.Resolver.{matching_bmcs, extract_credentials, or_empty}
use bmc_secret_operator.Reconciler.Setup.{find_bmc_secrets_for_bmc}

matching_bmcs-Memᴰ_of :
    (name : String) (bmcs : List Bmc) (bmc : Bmc)
    → Memᴰ bmc (matching_bmcs name bmcs)
    → Memᴰ bmc bmcs × (bmc.bmc_secret_ref ≡ name)
unfolding matching_bmcs
matching_bmcs-Memᴰ_of name [] bmc m = absurd (Memᴰ.not-nil m)
matching_bmcs-Memᴰ_of name (b ∷ rest) bmc m = elim (Bool-cases (b.bmc_secret_ref == name)) [
  | inl e ↦ elim (Memᴰ.cases_cons (rw (e, matching_bmcs) at m)) [
    | inl same ↦ (
      Memᴰ.head same,
      ap (λ (x : Bmc). x.bmc_secret_ref) same ∙ (eq_iff b.bmc_secret_ref name).0 e,
    )
    | inr later ↦ let (i, r) = matching_bmcs-Memᴰ_of name rest bmc later in (Memᴰ.tail i, r)
  ]
  | inr e ↦
      let (i, r) = matching_bmcs-Memᴰ_of name rest bmc (rw (e, matching_bmcs) at m) in
      (Memᴰ.tail i, r)
]

matching_bmcs-Memᴰ :
    (name : String) (bmcs : List Bmc) (bmc : Bmc)
    → Memᴰ bmc bmcs
    → bmc.bmc_secret_ref ≡ name
    → Memᴰ bmc (matching_bmcs name bmcs)
unfolding matching_bmcs
matching_bmcs-Memᴰ name [] bmc m r = absurd (Memᴰ.not-nil m)
matching_bmcs-Memᴰ name (b ∷ rest) bmc m r = elim (Bool-cases (b.bmc_secret_ref == name)) [
  | inl e ↦ elim (Memᴰ.cases_cons m) [
    | inl same ↦ rw (e, matching_bmcs) (Memᴰ.head same)
    | inr later ↦ rw (e, matching_bmcs) (Memᴰ.tail (matching_bmcs-Memᴰ name rest bmc later r))
  ]
  | inr e ↦ elim (Memᴰ.cases_cons m) [
    | inl same ↦ absurd (
        false≢true (
          sym e
          ∙ (eq_iff b.bmc_secret_ref name).1 (ap (λ (x : Bmc). x.bmc_secret_ref) (sym same) ∙ r)))
    | inr later ↦ rw (e, matching_bmcs) (matching_bmcs-Memᴰ name rest bmc later r)
  ]
]

-- The BMCs that a secret's run finds are exactly those of the cluster's list whose events ask for
-- a run of just that secret.
pub matching_bmcs-find_bmc_secrets_for_bmc :
    (name : String) (bmcs : List Bmc) (bmc : Bmc)
    → Memᴰ bmc (matching_bmcs name bmcs)
      ↔ (Memᴰ bmc bmcs × (find_bmc_secrets_for_bmc bmc ≡ name ∷ []))
unfolding find_bmc_secrets_for_bmc
matching_bmcs-find_bmc_secrets_for_bmc name bmcs bmc = (
  λ m. let (i, r) = matching_bmcs-Memᴰ_of name bmcs bmc m in (i, ap (λ n. n ∷ []) r),
  λ (i, r). matching_bmcs-Memᴰ name bmcs bmc i (cc r),
)

-- The checks on the two values.
abbrev checked : String → String → Result (String × String)
checked u p =
    if u == ""
    then err (errorf "username not found in BMCSecret data")
    else if p == ""
    then err (errorf "password not found in BMCSecret data")
    else ok (u, p)

checked_exact :
    (u p : Option String) (username password : String)
    → (checked (or_empty u) (or_empty p) ≡ ok (username, password)) ↔ (
        (u ≡ some username)
        × (p ≡ some password)
        × ((username == "") ≡ false)
        × ((password == "") ≡ false))
checked_exact none p username password = ground arith
checked_exact (some u) none username password = ground arith
checked_exact (some u) (some p) username password = ground arith

-- The credentials are found exactly if both keys are there and neither is empty, and are then the
-- object's.
pub extract_credentials_exact :
    (secret : BmcSecret) (username password : String)
    → (extract_credentials secret ≡ ok (username, password)) ↔ (
        (lookup "username" secret.content ≡ some username)
        × (lookup "password" secret.content ≡ some password)
        × ((username == "") ≡ false)
        × ((password == "") ≡ false))
unfolding extract_credentials
extract_credentials_exact secret username password =
    checked_exact (lookup "username" secret.content) (lookup "password" secret.content) username
      password
