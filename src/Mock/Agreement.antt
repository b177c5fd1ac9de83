-- ===== src/Mock/Agreement.antt =====
-- `matchesLabel` of the mock factory beside the operator's `MatchesLabels`.
use bmc_secret_operator.Base.{
  ◌≡◌, ◌∙◌, sym, refl, String, Bool, true, false, Option, none, some, ◌==◌, eq_iff, arith,
  if◌then◌else◌, inl, inr, Option-cases, Bool-cases,
}
use mathlib.Core.Path.{ap₂}
use text.Mathlib.TextLemmas.{cons-ne-nil}
use bmc_secret_operator.Base.Dict.{Dict, find}
use bmc_secret_operator.Interface.{EngineBackend}
use bmc_secret_operator.MultiEngine.{split_at_equals, parse_sync_label, matches_labels}
use bmc_secret_operator.Mock.Engines.{matches_label, match_expected, key_and_expected}

split_at_equals-none : (s : String) → (split_at_equals s).1 ≡ none → (split_at_equals s).0 ≡ s
unfolding split_at_equals
split_at_equals-none String.[] h = refl
split_at_equals-none (String.◌∷◌ c s) h = ground (arith, split_at_equals-none s)

-- With a key that is not empty, the mock's variables are the key and the value of the label.
match_expected-key :
    (labels : Option (Dict String)) (label key value : String)
    → (key == "") ≡ false
    → match_expected labels label (key, value)
      ≡ elim (find key labels) [ none ↦ false | some v ↦ if value == "" then true else v == value ]
unfolding match_expected
match_expected-key none label key value h = refl
match_expected-key (some m) label key value h = ground arith

match_expected-whole :
    (labels : Option (Dict String)) (label : String)
    → match_expected labels label ("", "")
      ≡ elim (find label labels) [ none ↦ false | some _ ↦ true ]
unfolding match_expected
match_expected-whole labels label = refl

matches_label-non_empty :
    (labels : Option (Dict String)) (label : String)
    → (label == "") ≡ false
    → matches_label labels label ≡ match_expected labels label (key_and_expected label)
unfolding matches_label
matches_label-non_empty labels label h = rw (h, matches_label)

abbrev by_find : Option (Dict String) → String → String → Bool
by_find labels key value = elim (find key labels) [
  | none ↦ false
  | some v ↦ if value == "" then true else v == value
]

matches_labels-find :
    {B : Type 0} (e : EngineBackend B) (labels : Option (Dict String))
    → matches_labels e labels ≡ by_find labels e.sync_label_key e.sync_label_val
unfolding matches_labels
matches_labels-find e none = refl
matches_labels-find e (some labels) = ground arith

not_empty : (label value : String) → (split_at_equals label).1 ≡ some value → (label == "") ≡ false
unfolding split_at_equals
not_empty String.[] value n = cc
not_empty (String.◌∷◌ c s) value n = elim (Bool-cases (String.◌∷◌ c s == "")) [
  | inl b ↦ absurd (cons-ne-nil c s ((eq_iff _ _).0 b))
  | inr b ↦ b
]

label_of_key :
    (label : String)
    → ((parse_sync_label label).0 == "") ≡ false
    → ((label == "") ≡ false)
      × ((labels : Option (Dict String))
          → match_expected labels label (key_and_expected label)
            ≡ by_find labels (parse_sync_label label).0 (parse_sync_label label).1)
unfolding parse_sync_label key_and_expected
label_of_key label h = elim (Option-cases (split_at_equals label).1) [
  | inl n ↦
      let same = split_at_equals-none label n in
      let h' : ((split_at_equals label).0 == "") ≡ false = rw (n, parse_sync_label) at h in
      (
        rw same at h',
        λ labels.
            rw (n, key_and_expected, parse_sync_label)
              (rw same (match_expected-whole labels label)),
      )
  | inr (value, n) ↦
      let h' : ((split_at_equals label).0 == "") ≡ false = rw (n, parse_sync_label) at h in
      (
        not_empty label value n,
        λ labels.
            rw (n, key_and_expected, parse_sync_label) (match_expected-key labels label _ value h'),
      )
]

-- For an engine whose key and value are those of its sync label: if the key is not empty, the test
-- factory's `matchesLabel` on the label and the operator's `MatchesLabels` agree on all objects.
pub matches_label-matches_labels :
    {B : Type 0} (e : EngineBackend B) (labels : Option (Dict String))
    → e.sync_label_key ≡ (parse_sync_label e.sync_label).0
    → e.sync_label_val ≡ (parse_sync_label e.sync_label).1
    → (e.sync_label_key == "") ≡ false
    → matches_label labels e.sync_label ≡ matches_labels e labels
matches_label-matches_labels e labels k v h =
    let (full, same) = label_of_key e.sync_label (rw k at h) in
    matches_label-non_empty labels e.sync_label full
    ∙ same labels
    ∙ ap₂ (by_find labels) (sym k) (sym v)
    ∙ sym (matches_labels-find e labels)
