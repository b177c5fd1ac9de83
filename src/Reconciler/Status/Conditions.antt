-- ===== src/Reconciler/Status/Conditions.antt =====
-- `setCondition`, and the conditions that `updateSyncStatus` writes.
use bmc_secret_operator.Base.{
  ℕ, ◌≡◌, ◌↔◌, ◌<◌, refl, sym, subst, String, Bool, true, false, Option, none, some, List, [], ◌∷◌,
  ◌&&◌,
}
use bmc_secret_operator.Base.{
  arith, ◌==◌, eq_iff, if◌then◌else◌, inl, inr, Bool-cases, Option-cases,
}
use bmc_secret_operator.Api.SyncStatus.{BackendPath, Condition, BmcSecretSyncStatus}
use bmc_secret_operator.Base.{◌≢◌, ◌∙◌, ◌<>◌}
use bmc_secret_operator.Base.Decimal.{decimal}
use bmc_secret_operator.Reconciler.Status.{set_condition, synced_condition, next_status}

-- The first condition of a type.
abbrev pub find_condition : String → List Condition → Option Condition
find_condition t [] = none
find_condition t (c ∷ rest) = if c.type == t then some c else find_condition t rest

-- No two conditions have one type.
abbrev pub HasUniqueTypes : List Condition → Type 0
HasUniqueTypes [] = Unit
HasUniqueTypes (c ∷ rest) = (find_condition c.type rest ≡ none) × HasUniqueTypes rest

-- A condition says the same as another if status and reason agree.
abbrev pub says : Condition → Option Condition → Bool
says new none = false
says new (some old) = (old.status == new.status) && (old.reason == new.reason)

-- After setting a condition the first one of its type is the old one if that says the same, and the
-- new one otherwise, so it has the new status and reason; the first of any other type is as before.
pub find_condition-set_condition :
    (t : String) (cs : List Condition) (new : Condition)
    → find_condition t (set_condition cs new) ≡ (
        if new.type == t
        then if says new (find_condition t cs) then find_condition t cs else some new
        else find_condition t cs)
unfolding set_condition
find_condition-set_condition t [] new = ground arith
find_condition-set_condition t (c ∷ rest) new = ground (
  arith,
  find_condition-set_condition t rest new,
  eq_iff c.type new.type,
  eq_iff c.type t,
  eq_iff new.type t,
)

-- Setting a condition keeps the types unique.
pub set_condition-HasUniqueTypes :
    (cs : List Condition) (new : Condition)
    → HasUniqueTypes cs
    → HasUniqueTypes (set_condition cs new)
unfolding set_condition
set_condition-HasUniqueTypes [] new h = (refl, tt)
set_condition-HasUniqueTypes (c ∷ rest) new (fresh, h) = ground (
  arith,
  set_condition-HasUniqueTypes rest new h,
  find_condition-set_condition c.type rest new,
  eq_iff c.type new.type,
  eq_iff new.type c.type,
)

set_condition-status :
    (cs : List Condition) (new : Condition)
    → (c : Condition) × (find_condition new.type (set_condition cs new) ≡ some c)
      × (c.status ≡ new.status)
set_condition-status cs new = elim (Option-cases (find_condition new.type cs)) [
  | inl e ↦ (
    new,
    ground (arith, find_condition-set_condition new.type cs new, eq_iff new.type new.type),
    refl,
  )
  | inr (old, e) ↦ elim (Bool-cases (says new (some old))) [
    | inl same ↦ (
      old,
      ground (arith, find_condition-set_condition new.type cs new, eq_iff new.type new.type),
      ground (arith, eq_iff old.status new.status),
    )
    | inr differs ↦ (
      new,
      ground (arith, find_condition-set_condition new.type cs new, eq_iff new.type new.type),
      refl,
    )
  ]
]

synced_condition-status :
    (generation now total good bad : ℕ)
    → let c = synced_condition generation now total good bad in
      (c.type ≡ "Synced") × ((c.status ≡ "True") ↔ (bad ≡ 0))
unfolding synced_condition
synced_condition-status generation now total good bad = ground (arith, eq_iff "False" "True")

set_condition_same :
    (cs : List Condition) (new : Condition)
    → says new (find_condition new.type cs) ≡ true
    → set_condition cs new ≡ cs
unfolding set_condition
set_condition_same [] new h = cc
set_condition_same (c ∷ rest) new h = ground (arith, set_condition_same rest new)

-- The condition that tells of a run.
pub next_status-condition :
    (old : BmcSecretSyncStatus) (paths : List BackendPath) (time time' total good bad : ℕ)
    → let new = (next_status old paths time time' total good bad).status in
      (c : Condition) × (find_condition "Synced" new.conditions ≡ some c)
      × ((c.status ≡ "True") ↔ (bad ≡ 0))
unfolding next_status
next_status-condition old paths time time' total good bad =
    let new = synced_condition old.generation time' total good bad in
    let (type, status) = synced_condition-status old.generation time' total good bad in
    let (c, found, same) = set_condition-status old.status.conditions new in
    (
      c,
      subst (λ t. find_condition t (set_condition old.status.conditions new) ≡ some c) type found,
      rw (← same) at status,
    )

set_condition-keeps :
    (t : String) (cs : List Condition) (new : Condition)
    → new.type ≢ t
    → find_condition t (set_condition cs new) ≡ find_condition t cs
set_condition-keeps t cs new h =
    ground (arith, find_condition-set_condition t cs new, eq_iff new.type t)

-- The status that is written has one condition of each type if the one read had, the paths, counts
-- and time of the run, a Synced condition with status True exactly when no path failed, whatever
-- conditions were there before, and of every other type the condition that was read.
pub next_status-synced :
    (old : BmcSecretSyncStatus) (paths : List BackendPath) (time time' total good bad : ℕ)
    → HasUniqueTypes old.status.conditions
    → let new = (next_status old paths time time' total good bad).status in
      HasUniqueTypes new.conditions
      × (new.backend_paths ≡ paths)
      × (new.last_sync_attempt ≡ time)
      × (new.total_paths ≡ total)
      × (new.successful_paths ≡ good)
      × (new.failed_paths ≡ bad)
      × ((c : Condition) × (find_condition "Synced" new.conditions ≡ some c)
          × ((c.status ≡ "True") ↔ (bad ≡ 0)))
      × ((t : String)
          → "Synced" ≢ t
          → find_condition t new.conditions ≡ find_condition t old.status.conditions)
unfolding next_status
next_status-synced old paths time time' total good bad h =
    let condition = next_status-condition old paths time time' total good bad in
    let new = synced_condition old.generation time' total good bad in
    let (type, _) = synced_condition-status old.generation time' total good bad in
    (
      set_condition-HasUniqueTypes _ _ h,
      refl,
      refl,
      refl,
      refl,
      refl,
      condition,
      λ t other. set_condition-keeps t old.status.conditions new (λ e. other (sym type ∙ e)),
    )

-- The condition of a run that synced some paths and failed on others.
abbrev pub partial_condition : ℕ → ℕ → ℕ → ℕ → ℕ → Condition
partial_condition generation now total good bad = record {
  type = "Synced";
  status = "False";
  observed_generation = generation;
  last_transition_time = now;
  reason = "PartialSync";
  message =
      "Synced " <> decimal good <> "/" <> decimal total <> " paths, " <> decimal bad <> " failed";
}

synced_condition_partial :
    (generation now total good bad : ℕ)
    → 0 < good
    → 0 < bad
    → synced_condition generation now total good bad
      ≡ partial_condition generation now total good bad
unfolding synced_condition
synced_condition_partial generation now total good bad g b = ground arith

set_condition_replaced :
    (cs : List Condition) (new : Condition)
    → says new (find_condition new.type cs) ≡ false
    → find_condition new.type (set_condition cs new) ≡ some new
set_condition_replaced cs new h =
    ground (arith, find_condition-set_condition new.type cs new, eq_iff new.type new.type)

says-fresh :
    (new : Condition) (o : Option Condition)
    → ((c : Condition) → o ≡ some c → c.reason ≢ new.reason)
    → says new o ≡ false
says-fresh new none h = refl
says-fresh new (some c) h = elim (Bool-cases (c.reason == new.reason)) [
  | inl same ↦ absurd (h c refl ((eq_iff c.reason new.reason).0 same))
  | inr differs ↦ ground arith
]

-- Two runs, one after the other, that both sync some paths and fail on others, on a status with no
-- condition of a partial run: the status has the second run's counts, and its Synced condition is
-- that of the first run, with the first run's numbers in its message, its time and its generation.
pub next_status-stale :
    (old : BmcSecretSyncStatus) (paths paths' : List BackendPath)
    (time time1 total good bad time' time1' total' good' bad' : ℕ)
    → ((c : Condition)
        → find_condition "Synced" old.status.conditions ≡ some c
        → c.reason ≢ "PartialSync")
    → 0 < good
    → 0 < bad
    → 0 < good'
    → 0 < bad'
    → let first = next_status old paths time time1 total good bad in
      let second = (next_status first paths' time' time1' total' good' bad').status in
      (second.total_paths ≡ total')
      × (second.successful_paths ≡ good')
      × (second.failed_paths ≡ bad')
      × (find_condition "Synced" second.conditions
          ≡ some (partial_condition old.generation time1 total good bad))
unfolding next_status
next_status-stale old paths paths' time time1 total good bad time' time1' total' good' bad' fresh g
      b g' b' =
    let c = partial_condition old.generation time1 total good bad in
    let c' = partial_condition old.generation time1' total' good' bad' in
    let first : find_condition "Synced" (set_condition old.status.conditions c) ≡ some c =
      set_condition_replaced old.status.conditions c (says-fresh c _ fresh) in
    (
      refl,
      refl,
      refl,
      rw
          (
            synced_condition_partial old.generation time1 total good bad g b,
            synced_condition_partial old.generation time1' total' good' bad' g' b',
            set_condition_same (set_condition old.status.conditions c) c' (rw first refl),
          )
          first,
    )
