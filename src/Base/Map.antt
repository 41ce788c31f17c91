-- ===== src/Base/Map.antt =====
-- Go's `map` over keys that can be compared, as an association list. The order of the entries is
-- the order in which a loop over the map meets them; Go leaves that order open.
use mathlib.Core.Path.{◌≡◌, refl}
use mathlib.Core.List.{List, [], ◌∷◌}
use mathlib.Core.Option.{Option, none, some}
use native.Mathlib.Omega.{arith}
use dendrite.Base.Tests.{if◌then◌else◌}
use dendrite.Base.Keys.{Eq, ◌==◌}

abbrev pub Map {ℓ} : Type ℓ → Type ℓ → Type ℓ
Map K V = List (K × V)

module _ {ℓ} {K V : Type ℓ} ⦃e : Eq K⦄ where
  -- m[k]
  unfoldable pub lookup : K → Map K V → Option V
  lookup key [] = none
  lookup key ((j, v) ∷ rest) = if j == key then some v else lookup key rest

  -- m[k] = v
  unfoldable pub insert : K → V → Map K V → Map K V
  insert key new [] = (key, new) ∷ []
  insert key new ((j, old) ∷ rest) =
      let others = insert key new rest in if j == key then (key, new) ∷ rest else (j, old) ∷ others

  -- delete(m, k)
  unfoldable pub delete : K → Map K V → Map K V
  delete key [] = []
  delete key ((j, v) ∷ rest) = if j == key then delete key rest else (j, v) ∷ delete key rest

  pub lookup-insert :
      (key other : K) (new : V) (m : Map K V)
      → lookup other (insert key new m) ≡ (if key == other then some new else lookup other m)
  unfolding lookup insert
  lookup-insert key other new [] = refl
  lookup-insert key other new ((i, w) ∷ rest) = ground (
    arith,
    lookup-insert key other new rest,
    e.beq_iff key other,
    e.beq_iff i key,
    e.beq_iff i other,
  )

  pub lookup-delete :
      (key other : K) (m : Map K V)
      → lookup other (delete key m) ≡ (if key == other then none else lookup other m)
  unfolding lookup delete
  lookup-delete key other [] = ground arith
  lookup-delete key other ((i, w) ∷ rest) =
      ground (
        arith,
        lookup-delete key other rest,
        e.beq_iff key other,
        e.beq_iff i key,
        e.beq_iff i other,
      )
