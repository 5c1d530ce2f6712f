-- ===== src/Prelude/Dict.antt =====
-- A `Map` with string keys: its entries in insertion order. `set` on a present key keeps the place.
use mathlib.Core.Path.{◌≡◌, refl}
use mathlib.Core.Bool.{Bool}
use mathlib.Core.Option.{Option, none, some}
use mathlib.Core.List.{List, [], ◌∷◌, map}
use native.Mathlib.Omega.{arith}
use supabash_fs.Prelude.Tests.{if◌then◌else◌, is_some}
use supabash_fs.Prelude.Strings.{===_iff, Text, ◌===◌}

abbrev pub Dict {ℓ} : Type ℓ → Type ℓ
Dict V = List (Text × V)

module _ {ℓ} {V : Type ℓ} where
  unfoldable pub get : Dict V → Text → Option V
  get [] k = none
  get ((j, v) ∷ m) k = if j === k then some v else get m k

  abbrev pub has : Dict V → Text → Bool
  has m k = is_some (get m k)

  unfoldable pub set : Dict V → Text → V → Dict V
  set [] k v = (k, v) ∷ []
  set ((j, w) ∷ m) k v = if j === k then (j, v) ∷ m else (j, w) ∷ set m k v

  unfoldable pub delete : Dict V → Text → Dict V
  delete [] k = []
  delete ((j, w) ∷ m) k = let rest = delete m k in if j === k then rest else (j, w) ∷ rest

  abbrev pub keys : Dict V → List Text
  keys m = map (λ e. e.0) m

  abbrev pub values : Dict V → List V
  values m = map (λ e. e.1) m

  -- `new Map(entries)`: a later entry replaces the value of an earlier one.
  unfoldable pub of_entries : Dict V → List (Text × V) → Dict V
  of_entries m [] = m
  of_entries m ((k, v) ∷ es) = of_entries (set m k v) es

  pub get-set :
      (m : Dict V) (k j : Text) (v : V) → get (set m k v) j ≡ (if k === j then some v else get m j)
  unfolding get set
  get-set [] k j v = refl
  get-set ((i, w) ∷ m) k j v =
      ground (arith, ===_iff i k, ===_iff i j, ===_iff k j, get-set m k j v)

  pub get-delete :
      (m : Dict V) (k j : Text) → get (delete m k) j ≡ (if k === j then none else get m j)
  unfolding get delete
  get-delete [] k j = ground arith
  get-delete ((i, w) ∷ m) k j =
      ground (arith, ===_iff i k, ===_iff i j, ===_iff k j, get-delete m k j)
