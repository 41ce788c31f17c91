-- ===== src/Base/Search.antt =====
-- Go's `sort.Search`: the binary search for the least index at which a test holds, and a lookup
-- that reads the element there.
use Prim.Native.Nat.{ℕ, zero, suc, ◌+◌, ◌-◌, ◌/◌, ◌≤◌, ◌<◌}
use mathlib.Core.Path.{◌≡◌, refl, sym, ap}
use mathlib.Core.Bool.{Bool, true, false, not}
use mathlib.Core.List.{List, [], ◌∷◌}
use mathlib.Core.Logic.{inl, inr}
use mathlib.Core.Option.{Option, none, some}
use native.Mathlib.Omega.{arith}
use dendrite.Base.Tests.{ltb, if◌then◌else◌, Bool-cases}
use dendrite.Base.Lists.{All, length, get_elem?}

-- The loop, between the bounds i and j.
unfoldable pub search_from : ℕ → (ℕ → Bool) → ℕ → ℕ → ℕ
search_from zero test i j = i
search_from (suc fuel) test i j =
    let h = (i + j) / 2 in
    let lower = search_from fuel test i h in
    let upper = search_from fuel test (suc h) j in
    if ltb i j then (if test h then lower else upper) else i

-- sort.Search; the interval shrinks in each round, so that n rounds are enough.
unfoldable pub sort_search : ℕ → (ℕ → Bool) → ℕ
sort_search n test = search_from n test 0 n

module _ (n : ℕ) (test : ℕ → Bool) where
  -- Where the test holds it holds at all greater indices below n.
  abbrev pub IsMonotone : Type 0
  IsMonotone = (k l : ℕ) → k ≤ l → l < n → test k ≡ true → test l ≡ true

  -- The test holds below n from r on, and not before.
  abbrev pub IsLeast : ℕ → Type 0
  IsLeast r =
      (r ≤ n) × ((k : ℕ) → k < r → test k ≡ false) × ((k : ℕ) → r ≤ k → k < n → test k ≡ true)

  not_before : (k h : ℕ) → IsMonotone → k ≤ h → h < n → test h ≡ false → test k ≡ false
  not_before k h m l b e = elim (Bool-cases (test k)) [
    | inl t ↦ ground (arith, m k h l b t, e)
    | inr t ↦ t
  ]

  search_from-IsLeast :
      (fuel i j : ℕ)
      → IsMonotone
      → i ≤ j
      → j ≤ n
      → j - i ≤ fuel
      → ((k : ℕ) → k < i → test k ≡ false)
      → ((k : ℕ) → j ≤ k → k < n → test k ≡ true)
      → IsLeast (search_from fuel test i j)
  unfolding search_from
  search_from-IsLeast zero i j m l b f below above =
      (omega (arith, l, b), below, λ k h. above k (omega (arith, h, f, l)))
  search_from-IsLeast (suc fuel) i j m l b f below above = elim (Bool-cases (ltb i j)) [
    | inl e ↦
        let lt : i < j = ground (arith, e) in
        elim (Bool-cases (test ((i + j) / 2))) [
          | inl t ↦
              rw (e, t)
                (search_from-IsLeast fuel i ((i + j) / 2) m (omega (arith, lt))
                  (omega (arith, lt, b)) (omega (arith, lt, f)) below
                  (λ k h c. m ((i + j) / 2) k h c t))
          | inr t ↦
              rw (e, t)
                (search_from-IsLeast fuel (suc ((i + j) / 2)) j m (omega (arith, lt)) b
                  (omega (arith, lt, f))
                  (λ k h. not_before k ((i + j) / 2) m (omega (arith, h)) (omega (arith, lt, b)) t)
                  above)
        ]
    | inr ge ↦ rw ge (omega (arith, l, b), below, λ k h. above k (ground (arith, ge, h)))
  ]

  -- The least index is found, where the test is monotone.
  pub sort_search-IsLeast : IsMonotone → IsLeast (sort_search n test)
  unfolding sort_search
  sort_search-IsLeast m =
      search_from-IsLeast n 0 n m (omega arith) (omega arith) (omega arith)
        (λ k h. ground (arith, h)) (λ k h c. ground (arith, h, c))

-- What the lookups in the program do with the index: they read the element at it, if there is
-- one, and test it. An index is `below` when the search goes on after its element.
module _ {ℓ} {A : Type ℓ} (below hit : A → Bool) where
  abbrev pub reached : Option A → Bool
  reached none = true
  reached (some a) = not (below a)

  abbrev pub if_hit : Option A → Option A
  if_hit none = none
  if_hit (some a) = if hit a then some a else none

  unfoldable pub search_lookup : List A → Option A
  search_lookup l = if_hit (get_elem? l (sort_search (length l) (λ i. reached (get_elem? l i))))

  -- The first element that is hit, from the front.
  abbrev pub first_hit : List A → Option A
  first_hit [] = none
  first_hit (a ∷ l) = if hit a then some a else first_hit l

  -- The elements below come first, and the hits directly after them.
  abbrev pub IsSearchable : List A → Type ℓ
  IsSearchable [] = Unit
  IsSearchable (a ∷ l) =
      (below a ≡ true → hit a ≡ false)
      × (below a ≡ false → All (λ x. below x ≡ false) l)
      × (below a ≡ false → hit a ≡ false → All (λ x. hit x ≡ false) l)
      × IsSearchable l

  no_hit : (l : List A) → All (λ x. hit x ≡ false) l → first_hit l ≡ none
  no_hit [] h = refl
  no_hit (a ∷ l) h = rw (h.0, no_hit l h.1)

  read_least :
      (r : ℕ) (l : List A)
      → IsSearchable l
      → IsLeast (length l) (λ i. reached (get_elem? l i)) r
      → if_hit (get_elem? l r) ≡ first_hit l
  read_least r [] s h = refl
  read_least zero (a ∷ l) s h =
      let above : below a ≡ false = ground (arith, h.2 0 (omega arith) (omega arith)) in
      elim (Bool-cases (hit a)) [ inl e ↦ rw e refl | inr e ↦ rw e (sym (no_hit l (s.2 above e))) ]
  read_least (suc r) (a ∷ l) s h =
      let under : below a ≡ true = ground (arith, h.1 0 (omega arith)) in
      rw (s.0 under) (
        read_least r l s.3 (
          omega (arith, h.0),
          λ k q. h.1 (suc k) (omega (arith, q)),
          λ k q c. h.2 (suc k) (omega (arith, q)) (omega (arith, c)),
        ))

  reached_above :
      (l : List A) (m : ℕ) → All (λ x. below x ≡ false) l → reached (get_elem? l m) ≡ true
  reached_above [] m h = refl
  reached_above (a ∷ l) zero h = ap not h.0
  reached_above (a ∷ l) (suc m) h = reached_above l m h.1

  reached-IsMonotone :
      (l : List A) → IsSearchable l → IsMonotone (length l) (λ i. reached (get_elem? l i))
  reached-IsMonotone [] s k m le lt h = refl
  reached-IsMonotone (a ∷ l) s zero zero le lt h = h
  reached-IsMonotone (a ∷ l) s zero (suc m) le lt h = reached_above l m (s.1 (ground (arith, h)))
  reached-IsMonotone (a ∷ l) s (suc k) zero le lt h = ground (arith, le)
  reached-IsMonotone (a ∷ l) s (suc k) (suc m) le lt h =
      reached-IsMonotone l s.3 k m (omega (arith, le)) (omega (arith, lt)) h

  -- A binary search finds what a search from the front finds.
  pub search_lookup-first_hit : (l : List A) → IsSearchable l → search_lookup l ≡ first_hit l
  unfolding search_lookup
  search_lookup-first_hit l s =
      read_least (sort_search (length l) (λ i. reached (get_elem? l i))) l s
        (sort_search-IsLeast (length l) (λ i. reached (get_elem? l i)) (reached-IsMonotone l s))
