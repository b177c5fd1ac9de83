-- ===== src/Metrics/Once.antt =====
-- The singleton of internal/metrics/metrics.go: `once.Do` in NewCollector.
use bmc_secret_operator.Base.{
  String, Bool, true, false, ◌≡◌, refl, ◌==◌, eq_refl, Bool-cases, inl, inr, sym, ◌∙◌, Option, none,
  some, ◌||◌, arith, subst,
}
use bmc_secret_operator.Base.{List, [], ◌∷◌, ◌++◌, map, any, if◌then◌else◌}
use mathlib.Core.List.{append_assoc, append-nil}
use bmc_secret_operator.Metrics.{reconcile_duration}
use bmc_secret_operator.Metrics.Collector.{
  Opts, opts, all_vecs, Process, new_collector, register_all,
}

-- No name is taken when its turn comes.
all_new : List String → List String → Bool
all_new taken [] = true
all_new taken (x ∷ xs) =
    let rest = all_new (taken ++ x ∷ []) xs in if any (λ y. y == x) taken then false else rest

any-append_lem :
    (f : String → Bool) (xs ys : List String) → any f (xs ++ ys) ≡ (any f xs || any f ys)
any-append_lem f [] ys = refl
any-append_lem f (x ∷ xs) ys = ground (arith, any-append_lem f xs ys)

or_true : (b : Bool) → (b || true) ≡ true
or_true b = ground arith

-- None of the names is taken.
abbrev pub IsFree : List String → List String → Type 0
IsFree taken [] = Unit
IsFree taken (x ∷ xs) = (any (λ y. y == x) taken ≡ false) × IsFree taken xs

-- Names of which none is taken can be added in the order in which they can be on their own.
all_new-append :
    (taken before xs : List String)
    → IsFree taken xs
    → all_new before xs ≡ true
    → all_new (taken ++ before) xs ≡ true
unfolding all_new
all_new-append taken before [] free h = refl
all_new-append taken before (x ∷ xs) (new, free) h = elim (Bool-cases (any (λ y. y == x) before)) [
  | inl old ↦ cc (rw (old, all_new) at h)
  | inr fresh ↦
      rw (any-append_lem (λ y. y == x) taken before, new, fresh, append_assoc taken before (x ∷ []))
        (all_new-append taken (before ++ x ∷ []) xs free (rw (fresh, all_new) at h))
]

module _ {ℓ} {R : Type ℓ} (register : Opts → R → Option R) (names : R → List String) where
  -- A registry accepts exactly the names that it does not have yet.
  pub record IsRegisterer : Type ℓ where
    pub accepts :
        (o : Opts) (r : R)
        → any (λ y. y == o.name) (names r) ≡ false
        → (r' : R) × (register o r ≡ some r') × (names r' ≡ names r ++ o.name ∷ [])
    pub refuses : (o : Opts) (r : R) → any (λ y. y == o.name) (names r) ≡ true → register o r ≡ none

  register_all_lem :
      IsRegisterer
      → (os : List Opts) (r : R) → all_new (names r) (map (λ o. o.name) os) ≡ true
      → (r' : R) × (register_all register os r ≡ some r')
        × (names r' ≡ names r ++ map (λ o. o.name) os)
  unfolding register_all all_new
  register_all_lem reg [] r h = (r, refl, sym (append-nil _))
  register_all_lem reg (o ∷ os) r h = elim (Bool-cases (any (λ y. y == o.name) (names r))) [
    | inl taken ↦ cc (rw (taken, all_new) at h)
    | inr new ↦
        (let (r', e, n) = reg.accepts o r new in
          let (r'', e', n') = register_all_lem reg os r' (rw n (rw (new, all_new) at h)) in
          (
            r'',
            rw (e, register_all) e',
            n' ∙ rw n (append_assoc (names r) (o.name ∷ []) (map (λ o. o.name) os)),
          ))
  ]

  all_vecs-new : all_new [] (map (λ o. o.name) (map opts all_vecs)) ≡ true
  unfolding all_new opts
  all_vecs-new = refl

  -- The process when the literal has run.
  abbrev initialised : R → Process R
  initialised r = record { once = true; instance_ = some (map opts all_vecs); registry = r }

  new_collector-first :
      (p : Process R) (r : R)
      → p.once ≡ false
      → register_all register (map opts all_vecs) p.registry ≡ some r
      → new_collector register p ≡ some (some (map opts all_vecs), initialised r)
  unfolding new_collector
  new_collector-first p r e h = simp (e, h)

  -- The names of the literal's vectors.
  abbrev pub own_names : List String
  own_names = map (λ o. o.name) (map opts all_vecs)

  register_all-refused :
      IsRegisterer
      → (r : R) (taken : List String) → names r ≡ taken ++ own_names
      → register_all register (map opts all_vecs) r ≡ none
  unfolding register_all opts
  register_all-refused reg r taken e =
      rw
        (
          reg.refuses (opts reconcile_duration) r (
              rw
                (
                  e,
                  any-append_lem (λ y. y == (opts reconcile_duration).name) taken own_names,
                  any,
                  opts,
                  eq_refl "bmcsecret_reconcile_duration_seconds",
                )
                (or_true (any (λ y. y == (opts reconcile_duration).name) taken))),
          register_all,
        )
        refl

  -- `NewCollector` on a registry that has other names, but none of the collector's, does not panic,
  -- and registers each of them once, behind those. A later call returns the same collector and
  -- registers nothing; without the `once` it would panic.
  pub new_collector-again :
      IsRegisterer
      → (p : Process R) → p.once ≡ false
      → IsFree (names p.registry) own_names
      → (c : List Opts) × (p' : Process R) × (new_collector register p ≡ some (some c, p'))
        × (names p'.registry ≡ names p.registry ++ map (λ o. o.name) c)
        × (new_collector register p' ≡ some (some c, p'))
        × (register_all register c p'.registry ≡ none)
  unfolding new_collector
  new_collector-again reg p e free =
      let (r, registered, all) = register_all_lem reg (map opts all_vecs) p.registry (
        subst (λ l. all_new l own_names ≡ true) (append-nil (names p.registry))
          (all_new-append (names p.registry) [] own_names free all_vecs-new)) in
      (
        map opts all_vecs,
        initialised r,
        new_collector-first p r e registered,
        all,
        refl,
        register_all-refused reg r (names p.registry) all,
      )
