-- ===== src/MultiEngine/Labels.antt =====
-- Sync labels: how one is split, and which objects it selects.
use text.Mathlib.TextLemmas.{nil-append, cons-append}
use bmc_secret_operator.Base.{
  ◌≡◌, ◌↔◌, ◌⊎◌, refl, String, ◌<>◌, true, false, Option, none, some, ◌==◌, eq_iff,
}
use bmc_secret_operator.Base.{inl, inr, Bool-cases, Option-cases, arith}
use bmc_secret_operator.Base.Dict.{Dict, lookup, find}
use bmc_secret_operator.Base.Text.{has_char}
use bmc_secret_operator.Interface.{EngineBackend}
use bmc_secret_operator.MultiEngine.{split_at_equals, parse_sync_label, matches_labels}

split_at_equals-key_value :
    (key value : String)
    → has_char b'=' key ≡ false
    → split_at_equals (key <> ("=" <> value)) ≡ (key, some value)
unfolding split_at_equals has_char
split_at_equals-key_value String.[] value h = rw (nil-append, cons-append, nil-append)
split_at_equals-key_value (String.◌∷◌ c key) value h =
    rw cons-append (ground (arith, split_at_equals-key_value key value))

split_at_equals-key : (key : String) → has_char b'=' key ≡ false → split_at_equals key ≡ (key, none)
unfolding split_at_equals has_char
split_at_equals-key String.[] h = refl
split_at_equals-key (String.◌∷◌ c key) h = ground (arith, split_at_equals-key key)

-- A label printed as key, or as key, equals sign and value, is split into just these: the key has no
-- equals sign, the value may have some.
pub parse_sync_label-print :
    (key value : String)
    → has_char b'=' key ≡ false
    → (parse_sync_label (key <> ("=" <> value)) ≡ (key, value)) × (parse_sync_label key ≡ (key, ""))
unfolding parse_sync_label
parse_sync_label-print key value h = (
  ground (arith, split_at_equals-key_value key value h),
  ground (arith, split_at_equals-key key h),
)

-- The engine matches exactly the objects whose labels are not nil and have its key, with its value
-- unless that is empty.
pub matches_labels_iff :
    {B : Type 0} (e : EngineBackend B) (labels : Option (Dict String))
    → (matches_labels e labels ≡ true) ↔ (
        (value : String) × (find e.sync_label_key labels ≡ some value)
        × ((e.sync_label_val ≡ "") ⊎ (value ≡ e.sync_label_val)))
unfolding matches_labels
matches_labels_iff e none = (λ h. cc, λ (v, h, _). cc)
matches_labels_iff e (some labels) = elim (Option-cases (lookup e.sync_label_key labels)) [
  | inl absent ↦ (λ h. absurd (ground arith), λ (v, h, _). cc)
  | inr (value, found) ↦ (
    λ h. (
      value,
      found,
      elim (Bool-cases (e.sync_label_val == "")) [
        | inl any ↦ inl ((eq_iff _ _).0 any)
        | inr exact ↦ inr (ground (arith, eq_iff value e.sync_label_val))
      ],
    ),
    λ (v, h, d). elim d [
      | inl any ↦ ground (arith, eq_iff e.sync_label_val "")
      | inr exact ↦ ground (arith, eq_iff v e.sync_label_val)
    ],
  )
]
