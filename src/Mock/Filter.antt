-- ===== src/Mock/Filter.antt =====
-- `GetEngineBackends` of the test factory beside the operator's filter of its engines.
use bmc_secret_operator.Base.{
  ◌≡◌, ◌∙◌, ap, refl, sym, subst, String, false, Option, none, some, List, [], ◌∷◌, ◌==◌,
}
use bmc_secret_operator.Base.{All, ok, inl, inr, Option-cases, arith}
use bmc_secret_operator.Base.Dict.{Dict, lookup}
use bmc_secret_operator.Api.Config.{SecretEngineConfig}
use bmc_secret_operator.Interface.{EngineBackend}
use bmc_secret_operator.MultiEngine.{parse_sync_label, matches_labels, filter_engines_by_labels}
use bmc_secret_operator.Mock.Engines.{matches_label}
use bmc_secret_operator.Mock.Agreement.{matches_label-matches_labels}
use bmc_secret_operator.Mock.Multi.{
  MultiEngineBackendFactory, engine_backend, engine_backends, get_engine_backends,
}

-- The label begins with a key.
abbrev pub HasKey : SecretEngineConfig → Type 0
HasKey engine = ((parse_sync_label engine.sync_label).0 == "") ≡ false

module _ {B : Type 0} (f : MultiEngineBackendFactory B) where
  -- All engines that are in both of the factory's maps, whatever their labels.
  pub all_backends : List SecretEngineConfig → List (EngineBackend B)
  all_backends [] = []
  all_backends (engine ∷ rest) = elim (engine_backend f engine) [
    | none ↦ all_backends rest
    | some eb ↦ eb ∷ all_backends rest
  ]

  engine_backend-labels :
      (engine : SecretEngineConfig) (eb : EngineBackend B)
      → engine_backend f engine ≡ some eb
      → (eb.sync_label ≡ engine.sync_label)
        × (eb.sync_label_key ≡ (parse_sync_label engine.sync_label).0)
        × (eb.sync_label_val ≡ (parse_sync_label engine.sync_label).1)
  unfolding engine_backend
  engine_backend-labels engine eb h = elim (Option-cases (lookup engine.name f.backends)) [
    | inl e ↦ cc (rw (e, engine_backend) at h)
    | inr (b, e) ↦ elim (Option-cases (lookup engine.name f.path_builders)) [
      | inl x ↦ cc (rw (e, x, engine_backend) at h)
      | inr (pb, x) ↦ let made = rw (e, x, engine_backend) at h in ground arith
    ]
  ]

  engine_backends-filter :
      (labels : Option (Dict String)) (engines : List SecretEngineConfig)
      → All HasKey engines
      → engine_backends f labels engines ≡ filter_engines_by_labels (all_backends engines) labels
  unfolding engine_backends filter_engines_by_labels all_backends
  engine_backends-filter labels [] h = refl
  engine_backends-filter labels (engine ∷ rest) h = elim (Option-cases (engine_backend f engine)) [
    | inl e ↦ ground (arith, engine_backends-filter labels rest h.1)
    | inr (eb, e) ↦
        let (label, key, val) = engine_backend-labels engine eb e in
        let same : matches_label labels engine.sync_label ≡ matches_labels eb labels =
          subst (λ l. matches_label labels l ≡ matches_labels eb labels) label
            (matches_label-matches_labels eb labels
              (key ∙ ap (λ l. (parse_sync_label l).0) (sym label))
              (val ∙ ap (λ l. (parse_sync_label l).1) (sym label))
              (subst (λ k. (k == "") ≡ false) (sym key) h.0)) in
        ground (arith, engine_backends-filter labels rest h.1)
  ]

  -- A test factory that is not told to fail, whose engines' labels all have a key, answers
  -- GetEngineBackends as the operator's factory would: its engines filtered by MatchesLabels.
  pub get_engine_backends-filter :
      (labels : Option (Dict String))
      → f.get_engine_err ≡ none
      → All HasKey f.engines
      → get_engine_backends f labels ≡ ok (filter_engines_by_labels (all_backends f.engines) labels)
  unfolding get_engine_backends
  get_engine_backends-filter labels e h =
      simp (e, get_engine_backends) (ap ok (engine_backends-filter labels f.engines h))
