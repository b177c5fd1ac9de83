-- ===== src/Metrics/Classify.antt =====
-- `classifyError` and `contains` of internal/metrics/metrics.go.
use bmc_secret_operator.Base.{String, Bool, false, ◌||◌, Option, none, some}
use bmc_secret_operator.Base.{List, [], ◌∷◌, Error, if◌then◌else◌}
use bmc_secret_operator.Base.Text.{has_infix}

-- The loop over the substrings; the inner loop compares at every place where the rest is long
-- enough, which is `has_infix`.
unfoldable pub contains : String → List String → Bool
contains s [] = false
contains s (substr ∷ substrings) = has_infix s substr || contains s substrings

unfoldable pub classify_error : Option Error → String
unfolding contains
classify_error none = "none"
classify_error (some e) =
    if contains e.message
      ("connection refused" ∷ "connection reset" ∷ "dial tcp" ∷ "no such host" ∷ [])
    then "network"
    else if contains e.message (
        "authentication failed" ∷ "unauthorized" ∷ "permission denied" ∷ "forbidden"
        ∷ "invalid token" ∷ [])
    then "auth"
    else if contains e.message ("not found" ∷ "does not exist" ∷ [])
    then "not_found"
    else if contains e.message ("timeout" ∷ "deadline exceeded" ∷ "context canceled" ∷ [])
    then "timeout"
    else if contains e.message ("invalid configuration" ∷ "missing" ∷ "required" ∷ [])
    then "config"
    else "unknown"
