-- ===== src/Shared/Assoc.antt =====
-- A JavaScript object or `Map` keyed by strings, as an association list: a write replaces the
-- value of a key that is there and appends a key that is not.
use Prim.Native.String.{String}
use mathlib.Core.Path.{◌≡◌, refl}
use mathlib.Core.Option.{Option, none, some}
use mathlib.Core.List.{List, [], ◌∷◌}
use native.Mathlib.Omega.{arith}
use text.Mathlib.TextEquality.{eq_iff}
use digital_thread.Shared.Tests.{◌==◌, if◌then◌else◌}

module _ {ℓ} {V : Type ℓ} where
  abbrev pub keys : List (String × V) → List String
  keys [] = []
  keys (e ∷ object) = e.0 ∷ keys object

  abbrev pub values : List (String × V) → List V
  values [] = []
  values (e ∷ object) = e.1 ∷ values object

  -- `object[key]`
  unfoldable pub lookup : String → List (String × V) → Option V
  lookup key [] = none
  lookup key (e ∷ object) = if e.0 == key then some e.1 else lookup key object

  -- `object[key] = value`
  unfoldable pub insert : String → V → List (String × V) → List (String × V)
  insert key value [] = (key, value) ∷ []
  insert key value (e ∷ object) =
      if e.0 == key then (e.0, value) ∷ object else e ∷ insert key value object

  -- `{ ...a, ...b }`
  unfoldable pub merge : List (String × V) → List (String × V) → List (String × V)
  merge a [] = a
  merge a (e ∷ b) = merge (insert e.0 e.1 a) b

  -- Reading after a write.
  pub lookup-insert :
      (written read : String) (value : V) (object : List (String × V))
      → lookup read (insert written value object)
        ≡ (if written == read then some value else lookup read object)
  unfolding insert lookup
  lookup-insert written read value [] = refl
  lookup-insert written read value ((key, old) ∷ object) = ground (
    arith,
    lookup-insert written read value object,
    eq_iff key written,
    eq_iff written read,
    eq_iff key read,
  )
