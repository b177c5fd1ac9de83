-- ===== src/Base/Dict.antt =====
-- Go's maps with string keys as association lists: the first entry of a key is its value.
-- The program never ranges over one of these maps, so the order of entries shows nowhere.
use Prim.Native.String.{String}
use mathlib.Core.Path.{◌≡◌, refl}
use mathlib.Core.Option.{Option, none, some}
use mathlib.Core.List.{List, [], ◌∷◌}
use native.Mathlib.Omega.{arith}
use text.Mathlib.Text.{◌==◌}
use text.Mathlib.TextEquality.{eq_iff}
use bmc_secret_operator.Base.Core.{if◌then◌else◌}

abbrev pub Dict {ℓ} : Type ℓ → Type ℓ
Dict V = List (String × V)

module _ {ℓ} {V : Type ℓ} where
  -- v, ok := m[key]
  unfoldable pub lookup : String → Dict V → Option V
  lookup key [] = none
  lookup key ((name, value) ∷ rest) = if name == key then some value else lookup key rest

  -- m[key] = new: the entry of the key is replaced where it stands.
  unfoldable pub insert : String → V → Dict V → Dict V
  insert key new [] = (key, new) ∷ []
  insert key new ((name, value) ∷ rest) =
      if name == key then (name, new) ∷ rest else (name, value) ∷ insert key new rest

  -- delete(m, key)
  unfoldable pub erase : String → Dict V → Dict V
  erase key [] = []
  erase key ((name, value) ∷ rest) =
      let others = erase key rest in if name == key then others else (name, value) ∷ others

  -- A map that may be nil; looking up a nil map finds nothing.
  abbrev pub find : String → Option (Dict V) → Option V
  find k none = none
  find k (some m) = lookup k m

  pub lookup-insert :
      (key other : String) (new : V) (dict : Dict V)
      → lookup other (insert key new dict) ≡ (if key == other then some new else lookup other dict)
  unfolding lookup insert
  lookup-insert key other new [] = refl
  lookup-insert key other new ((name, value) ∷ rest) = ground (
    arith,
    lookup-insert key other new rest,
    eq_iff name other,
    eq_iff key other,
    eq_iff name key,
  )

  pub lookup-erase :
      (key other : String) (dict : Dict V)
      → lookup other (erase key dict) ≡ (if key == other then none else lookup other dict)
  unfolding lookup erase
  lookup-erase key other [] = ground arith
  lookup-erase key other ((name, value) ∷ rest) =
      ground
        (arith, lookup-erase key other rest, eq_iff name other, eq_iff key other, eq_iff name key)
