-- ===== src/Tests/Isolation.antt =====
-- A place that is no path of a BMC.
use text.Mathlib.TextLemmas.{cons-append}
use mathlib.Core.Bool.{false≢true}
use bmc_secret_operator.Base.{
  ◌≡◌, ap, sym, subst, ◌∙◌, Bool, String, ◌<>◌, true, false, List, [], ◌∷◌, some, Result, ok, All,
}
use bmc_secret_operator.PathBuilder.{
  PathBuilder, PathVariables, build, execute, render_node, render_field,
}
use bmc_secret_operator.Interface.{str, EngineBackend}
use bmc_secret_operator.Base.Dict.{lookup}
use bmc_secret_operator.Reconciler.Sync.Writes.{Fills}
use bmc_secret_operator.Reconciler.Reconcile.{reconcile}
use bmc_secret_operator.Reconciler.Reconcile.Writes.{reconcile-keeps}
use bmc_secret_operator.Tests.World.{
  secret, path_builder, engine, reconciler, contents, place, store, around,
}

abbrev has_first : String → Bool
has_first String.[] = false
has_first (String.◌∷◌ c s) = true

built-has_first :
    (vars : PathVariables) (path : String)
    → build path_builder vars ≡ ok path
    → has_first path ≡ true
unfolding build execute render_node render_field
built-has_first vars path h =
    let rest = vars.region <> ("/" <> (vars.hostname <> ("/" <> (vars.username <> "")))) in
    let same : ok ("bmc/" <> rest) ≡ ok path = h in
    let it : "bmc/" <> rest ≡ path = cc same in
    sym (ap has_first it) ∙ ap has_first (cons-append "b" "mc/" rest)

not_built :
    (b : Bool) (vars : PathVariables) (path : String)
    → build path_builder vars ≡ ok path
    → ¬ Path (Bool × String) (true, "") (b, path)
not_built b vars path h e =
    false≢true (ap (λ (l : Bool × String). has_first l.1) e ∙ built-has_first vars path h)

returned :
    (b : Bool) (path_builder' : PathBuilder)
    → Path (Result PathBuilder) (ok path_builder) (ok path_builder')
    → path_builder ≡ path_builder'
returned b path_builder' e = cc e

engines_are :
    (engines : List (EngineBackend Bool))
    → Path (Result (List (EngineBackend Bool))) (ok (engine ∷ [])) (ok engines)
    → engine ∷ [] ≡ engines
engines_are engines e = cc e

reconcile-keeps_example :
    contents
      (reconcile (reconciler secret true) "bmc-1" ((("", ("key", str "value") ∷ []) ∷ []), [])).1
      (true, "")
    ≡ some (("key", str "value") ∷ [])
unfolding lookup
reconcile-keeps_example =
    reconcile-keeps (reconciler secret true) store (around secret true) (true, "")
      (λ b w got path_builder' w' got' vars path h e.
        not_built b vars path
          (subst (λ (pb : PathBuilder). build pb vars ≡ ok path)
            (sym (returned b path_builder' got')) h)
          e)
      (λ labels w engines got.
        subst
          (λ (es : List (EngineBackend Bool)).
            All (λ engine. Fills place (true, "") engine.backend engine.path_builder ⊥) es)
          (engines_are engines got) (λ vars path h e. not_built false vars path h e, tt))
      "bmc-1" ((("", ("key", str "value") ∷ []) ∷ []), [])
