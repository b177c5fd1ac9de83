-- ===== src/Factory/Interleaving.antt =====
-- Calls of the factory's methods by several workers. A getter first looks under the read lock; if
-- nothing is cached it lets that lock go and waits for the write lock, and other calls may come in
-- between. What runs under one lock is one step.
use bmc_secret_operator.Base.{
  ◌≡◌, sym, ◌∙◌, refl, String, Bool, true, false, Option, none, some, List, [], ◌∷◌, ◌++◌,
}
use bmc_secret_operator.Base.{All, All-map, Result, ok, err, inl, inr, Result-cases, Option-cases}
use bmc_secret_operator.Base.Dict.{Dict}
use bmc_secret_operator.Interface.Store.{is_some}
use bmc_secret_operator.Backend.{Backend}
use bmc_secret_operator.Factory.{Factory, World, Deps, new_backend_factory, ensure_config}
use bmc_secret_operator.Factory.Caching.{get_backend_locked-some, get_backend_locked-backend}
use bmc_secret_operator.Factory.Getters.{get_backend_locked, get_path_builder_locked}
use bmc_secret_operator.Factory.Engines.{get_engine_backends}
use bmc_secret_operator.Factory.Release.{close, invalidate_cache}
use bmc_secret_operator.Factory.Invalidation.{close-backend, invalidate_cache_lem}
use bmc_secret_operator.Factory.Growth.{IsConfigured, Grows, Grows-IsConfigured}
use bmc_secret_operator.Factory.Growth.Getters.{
  ensure_config-Grows, get_path_builder_locked-Grows, get_engine_backends-Grows,
  get_backend_locked-IsConfigured,
}

-- The methods that look first. GetRegionLabelKey and GetSyncLabel both look for the configuration.
pub data Getter : Type 0 where
  backend path_builder label_key : Getter
  engine_backends : Option (Dict String) → Getter

-- The factory, the getters that wait for the write lock, and what GetBackend has returned since the
-- last Close or InvalidateCache, newest first.
pub record System (E C : Type 0) : Type 0 where
  pub world : World E C
  pub waiting : List Getter
  pub answers : List (Backend C)

module _ {C : Type 0} where
  -- The look under the read lock.
  abbrev pub is_cached : Getter → Factory C → Bool
  is_cached backend f = is_some f.backend
  is_cached path_builder f = is_some f.path_builder
  is_cached label_key f = is_some f.config
  is_cached (engine_backends labels) f = is_some f.engine_backends

  abbrev add_answer : Result (Backend C) → List (Backend C) → List (Backend C)
  add_answer (ok b) answers = b ∷ answers
  add_answer (err e) answers = answers

module _ {E C : Type 0} (d : Deps E C) where
  -- The rest of a getter, under the write lock.
  unfoldable pub locked : Getter → System E C → System E C
  locked backend sys =
      let (answer, world) = get_backend_locked d sys.world in
      record sys { world = world; answers = add_answer answer sys.answers }
  locked path_builder sys = record sys { world = (get_path_builder_locked d sys.world).1 }
  locked label_key sys = record sys { world = (ensure_config d sys.world).1 }
  locked (engine_backends labels) sys = record sys {
    world = (get_engine_backends d labels sys.world).1;
  }

  pub data Step : System E C → System E C → Type 0 where
    -- A look that finds: only GetBackend's answer is kept here.
    found :
        (sys : System E C) (b : Backend C)
        → sys.world.factory.backend ≡ some b
        → Step sys (record sys { answers = b ∷ sys.answers })
    missed :
        (sys : System E C) (g : Getter)
        → is_cached g sys.world.factory ≡ false
        → Step sys (record sys { waiting = g ∷ sys.waiting })
    entered :
        (sys : System E C) (before : List Getter) (g : Getter) (behind : List Getter)
        → sys.waiting ≡ before ++ g ∷ behind
        → Step sys (locked g (record sys { waiting = before ++ behind }))
    invalidated :
        (sys : System E C)
        → Step sys (record sys { world = (invalidate_cache d sys.world).1; answers = [] })
    closed :
        (sys : System E C) → Step sys (record sys { world = (close d sys.world).1; answers = [] })
    -- Something happens outside, to the cluster or to Vault.
    outside_changed :
        (sys : System E C) (e : E)
        → Step sys (record sys { world = record sys.world { outside = e } })

  pub data Reach (start : System E C) : System E C → Type 0 where
    here : Reach start start
    next : {sys sys' : System E C} → Reach start sys → Step sys sys' → Reach start sys'

  -- All answers are the backend that is cached, and nothing is cached without the configuration.
  pub record IsSound (sys : System E C) : Type 0 where
    pub one_backend : All (λ b. sys.world.factory.backend ≡ some b) sys.answers
    pub configured : IsConfigured sys.world.factory

  -- A getter that leaves the backend keeps what has been answered true.
  grown-IsSound :
      {sys : System E C} (w : World E C)
      → Grows sys.world.factory w.factory
      → IsSound sys
      → IsSound (record sys { world = w })
  grown-IsSound {sys} w g h = record {
    one_backend =
        All-map (λ b. sys.world.factory.backend ≡ some b) _ (λ b e. g.backend_same ∙ e) sys.answers
          h.one_backend;
    configured = Grows-IsConfigured g h.configured;
  }

  none≢some : (b : Backend C) → ¬ (none ≡ some b)
  none≢some b = λ e. cc

  false≢true : ¬ (false ≡ true)
  false≢true = λ e. cc

  no_answers :
      (o : Option (Backend C)) (answers : List (Backend C))
      → o ≡ none
      → All (λ b. o ≡ some b) answers
      → answers ≡ []
  no_answers o [] e h = refl
  no_answers o (b ∷ rest) e h = absurd (none≢some b (sym e ∙ h.0))

  locked_backend-IsSound : {sys : System E C} → IsSound sys → IsSound (locked backend sys)
  unfolding locked
  locked_backend-IsSound {sys} h = elim (Option-cases sys.world.factory.backend) [
    | inr (b, e) ↦
        rw (get_backend_locked-some d sys.world b e)
          (record { one_backend = (e, h.one_backend); configured = h.configured })
    | inl e ↦
        let first = no_answers _ sys.answers e h.one_backend in
        let configured = get_backend_locked-IsConfigured d sys.world h.configured in
        elim (Result-cases (get_backend_locked d sys.world).0) [
          | inl (b, x) ↦ record {
            one_backend = rw (x, first) (get_backend_locked-backend d sys.world b e x, tt);
            configured = configured;
          }
          | inr (failed, x) ↦ record { one_backend = rw (x, first) tt; configured = configured }
        ]
  ]

  locked-IsSound : (g : Getter) {sys : System E C} → IsSound sys → IsSound (locked g sys)
  unfolding locked
  locked-IsSound backend {sys} h = locked_backend-IsSound {sys = sys} h
  locked-IsSound path_builder {sys} h =
      grown-IsSound _ (get_path_builder_locked-Grows d sys.world) h
  locked-IsSound label_key {sys} h = grown-IsSound _ (ensure_config-Grows d sys.world) h
  locked-IsSound (engine_backends labels) {sys} h =
      grown-IsSound _ (get_engine_backends-Grows d labels sys.world) h

  Step-IsSound : {sys sys' : System E C} → Step sys sys' → IsSound sys → IsSound sys'
  Step-IsSound (found sys b e) h = record {
    one_backend = (e, h.one_backend);
    configured = h.configured;
  }
  Step-IsSound (missed sys g e) h = record {
    one_backend = h.one_backend;
    configured = h.configured;
  }
  Step-IsSound (entered sys before g behind e) h =
      locked-IsSound g (record { one_backend = h.one_backend; configured = h.configured })
  Step-IsSound (invalidated sys) h = record {
    one_backend = tt;
    configured =
        rw (invalidate_cache_lem d sys.world)
          (record { by_backend = λ e. e; by_path_builder = λ e. e; by_engines = λ e. e });
  }
  Step-IsSound (closed sys) h = record {
    one_backend = tt;
    configured = rw (close-backend d sys.world) (record {
      by_backend = λ e. absurd (false≢true e);
      by_path_builder = h.configured.by_path_builder;
      by_engines = h.configured.by_engines;
    });
  }
  Step-IsSound (outside_changed sys e) h = record {
    one_backend = h.one_backend;
    configured = h.configured;
  }

  -- The program's start.
  abbrev pub start : E → System E C
  start e = record {
    world = record { factory = new_backend_factory; outside = e };
    waiting = [];
    answers = [];
  }

  -- However the calls of several workers interleave, all calls of GetBackend that return between two
  -- calls of Close or InvalidateCache give one and the same backend, the one that is cached; and
  -- whenever a backend, a path builder or engines are cached, the configuration is cached too.
  pub Reach-IsSound : {e : E} {sys : System E C} → Reach (start e) sys → IsSound sys
  Reach-IsSound here = record {
    one_backend = tt;
    configured = record { by_backend = λ e. e; by_path_builder = λ e. e; by_engines = λ e. e };
  }
  Reach-IsSound (next r st) = Step-IsSound st (Reach-IsSound r)
