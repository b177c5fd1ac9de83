-- ===== src/Tests/Race.antt =====
-- Two workers that call GetBackend at once on the factory of `Server`.
use bmc_secret_operator.Base.{String, refl, [], ◌∷◌}
use bmc_secret_operator.Factory.Interleaving.{
  System, backend, locked, missed, entered, Reach, here, next, IsSound, start, Reach-IsSound,
}
use bmc_secret_operator.Tests.Server.{Contents, deps}

-- Both have looked before one of them gets the write lock.
abbrev looked : System Contents String
looked = record (start deps []) { waiting = backend ∷ backend ∷ [] }

abbrev first : System Contents String
first = locked deps backend (record looked { waiting = backend ∷ [] })

abbrev second : System Contents String
second = locked deps backend (record first { waiting = [] })

race : Reach deps (start deps []) second
unfolding locked
race =
    next
      (next (next (next here (missed _ backend refl)) (missed _ backend refl))
        (entered looked [] backend (backend ∷ []) refl))
      (entered first [] backend [] refl)

Reach-IsSound_example : IsSound deps second
Reach-IsSound_example = Reach-IsSound deps race
