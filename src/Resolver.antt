-- ===== src/Resolver.antt =====
-- internal/controller/bmcresolver: which BMCs use a secret, and what identifies them.
pub mod Discovery
use bmc_secret_operator.Base.{String, Option, none, some, ◌==◌, List, [], ◌∷◌}
use bmc_secret_operator.Base.{Result, ok, err, errorf, wrap, if◌then◌else◌}
use bmc_secret_operator.Base.Effect.{Eff, attempt, pure}
use bmc_secret_operator.Base.Dict.{find, lookup}
use bmc_secret_operator.Api.Metal.{Bmc, BmcSecret}

-- The loop of `FindBMCsForSecret`.
unfoldable pub matching_bmcs : String → List Bmc → List Bmc
matching_bmcs secret_name [] = []
matching_bmcs secret_name (bmc ∷ rest) =
    if bmc.bmc_secret_ref == secret_name
    then bmc ∷ matching_bmcs secret_name rest
    else matching_bmcs secret_name rest

unfoldable pub find_bmcs_for_secret :
    {S : Type 0} → Eff S (Result (List Bmc)) → String → Eff S (Result (List Bmc))
unfolding matching_bmcs
find_bmcs_for_secret list_bmcs secret_name =
    attempt list_bmcs (λ e. pure (err (wrap "failed to list BMC resources" e)))
      (λ items. pure (ok (matching_bmcs secret_name items)))

unfoldable pub extract_region_from_bmc : Bmc → String → String
extract_region_from_bmc bmc region_label_key = elim (find region_label_key bmc.labels) [
  | none ↦ "unknown"
  | some region ↦ if region == "" then "unknown" else region
]

-- `p != nil && *p != ""`
abbrev non_empty : Option String → Option String
non_empty none = none
non_empty (some s) = if s == "" then none else some s

unfoldable pub get_hostname_from_bmc : Bmc → String
get_hostname_from_bmc bmc = elim (non_empty bmc.hostname) [
  | some hostname ↦ hostname
  | none ↦ elim (non_empty bmc.endpoint_ref) [ some name ↦ name | none ↦ bmc.name ]
]

-- A missing key leaves the zero value.
abbrev pub or_empty : Option String → String
or_empty none = ""
or_empty (some s) = s

unfoldable pub extract_credentials : BmcSecret → Result (String × String)
extract_credentials bmc_secret =
    let username = or_empty (lookup "username" bmc_secret.content) in
    let password = or_empty (lookup "password" bmc_secret.content) in
    if username == ""
    then err (errorf "username not found in BMCSecret data")
    else if password == ""
    then err (errorf "password not found in BMCSecret data")
    else ok (username, password)
