-- ===== src/Base/Sort.antt =====
-- Go's package sort over a `Less` function: `Stable`, and what the program expects of a sorted
-- slice.
use mathlib.Core.Path.{◌≡◌}
use mathlib.Core.Bool.{Bool, true, false}
use mathlib.Core.Logic.{inl, inr}
use mathlib.Core.List.{List, [], ◌∷◌}
use dendrite.Base.Tests.{if◌then◌else◌, Bool-cases}
use dendrite.Base.Lists.{All}

module _ {ℓ} {A : Type ℓ} (less : A → A → Bool) where
  -- Before the first element that is not less than it, so before those that are equal to it.
  unfoldable pub sort_insert : A → List A → List A
  sort_insert x [] = x ∷ []
  sort_insert x (y ∷ ys) = if less y x then y ∷ sort_insert x ys else x ∷ y ∷ ys

  -- sort.Stable
  unfoldable pub stable_sort : List A → List A
  stable_sort [] = []
  stable_sort (x ∷ xs) = sort_insert x (stable_sort xs)

  -- No later element is less than an earlier one.
  abbrev pub IsSorted : List A → Type ℓ
  IsSorted [] = Unit
  IsSorted (x ∷ xs) = All (λ y. less y x ≡ false) xs × IsSorted xs

module _ {ℓ κ} {A : Type ℓ} (less : A → A → Bool) (P : A → Type κ) where
  pub All-sort_insert : (x : A) (l : List A) → P x → All P l → All P (sort_insert less x l)
  unfolding sort_insert
  All-sort_insert x [] h k = (h, tt)
  All-sort_insert x (y ∷ ys) h k = elim (Bool-cases (less y x)) [
    | inl e ↦ rw e (k.0, All-sort_insert x ys h k.1)
    | inr e ↦ rw e (h, k)
  ]

  pub All-stable_sort : (l : List A) → All P l → All P (stable_sort less l)
  unfolding stable_sort
  All-stable_sort [] h = tt
  All-stable_sort (x ∷ xs) h = All-sort_insert x (stable_sort less xs) h.0 (All-stable_sort xs h.1)

pub All-imp {ℓ κ} :
    {A : Type ℓ} {P Q : A → Type κ} (f : (a : A) → P a → Q a) (xs : List A) → All P xs → All Q xs
All-imp f [] h = tt
All-imp f (x ∷ xs) h = (f x h.0, All-imp f xs h.1)

module _ {ℓ} {A : Type ℓ} (less : A → A → Bool)
    (trans : (x y z : A) → less y x ≡ false → less z y ≡ false → less z x ≡ false)
    (asym : (x y : A) → less x y ≡ true → less y x ≡ false) where
  pub sort_insert-IsSorted :
      (x : A) (l : List A) → IsSorted less l → IsSorted less (sort_insert less x l)
  unfolding sort_insert
  sort_insert-IsSorted x [] h = (tt, tt)
  sort_insert-IsSorted x (y ∷ ys) h = elim (Bool-cases (less y x)) [
    | inl e ↦ rw e (
      All-sort_insert less (λ z. less z y ≡ false) x ys (asym y x e) h.0,
      sort_insert-IsSorted x ys h.1,
    )
    | inr e ↦ rw e ((e, All-imp (λ z k. trans x y z e k) ys h.0), h)
  ]

  -- A stable sort by an order sorts.
  pub stable_sort-IsSorted : (l : List A) → IsSorted less (stable_sort less l)
  unfolding stable_sort
  stable_sort-IsSorted [] = tt
  stable_sort-IsSorted (x ∷ xs) =
      sort_insert-IsSorted x (stable_sort less xs) (stable_sort-IsSorted xs)
