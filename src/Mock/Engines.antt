-- ===== src/Mock/Engines.antt =====
-- `matchesLabel` of internal/controller/mock/mock_multi_engine.go
use bmc_secret_operator.Base.{String, Bool, true, false, Option, none, some, ◌==◌, if◌then◌else◌}
use bmc_secret_operator.Base.Dict.{Dict, find}
use bmc_secret_operator.MultiEngine.{split_at_equals}

-- The loop breaks at the first '='; without one both variables stay empty.
unfoldable pub key_and_expected : String → String × String
key_and_expected label_spec = elim ((split_at_equals label_spec).1) [
  | some value ↦ ((split_at_equals label_spec).0, value)
  | none ↦ ("", "")
]

-- The rest of the function, from the two variables.
unfoldable pub match_expected : Option (Dict String) → String → String × String → Bool
match_expected labels label_spec (key, expected_value) =
    elim (find (if key == "" then label_spec else key) labels) [
      | none ↦ false
      | some value ↦ if expected_value == "" then true else value == expected_value
    ]

unfoldable pub matches_label : Option (Dict String) → String → Bool
unfolding match_expected
matches_label labels label_spec =
    if label_spec == ""
    then false
    else match_expected labels label_spec (key_and_expected label_spec)
