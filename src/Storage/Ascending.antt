-- ===== src/Storage/Ascending.antt =====
-- Lists whose numeric IDs ascend, and what package sort and `util.SortAndUnique` make of them.
use dendrite.Base.{
  ℕ, ◌<◌, ◌≡◌, refl, ap, ◌∙◌, Bool, true, false, List, [], ◌∷◌, ◌++◌, map, arith, ltb, nat_eq,
  if◌then◌else◌, keep, All, inl, inr, Bool-cases,
}
use dendrite.Base.Sort.{IsSorted, sort_insert, stable_sort, stable_sort-IsSorted, All-imp}
use dendrite.Storage.Tables.{among}

-- `util.Unique` keeps the last of the elements of a sorted list that are equal.
module _ {ℓ} {A : Type ℓ} (less : A → A → Bool) where
  unfoldable pub distinct : List A → List A
  distinct [] = []
  distinct (x ∷ []) = x ∷ []
  distinct (x ∷ y ∷ l) = let rest = distinct (y ∷ l) in if less x y then x ∷ rest else rest

  pub All-distinct {κ} : (P : A → Type κ) (l : List A) → All P l → All P (distinct l)
  unfolding distinct
  All-distinct P [] h = tt
  All-distinct P (x ∷ []) h = h
  All-distinct P (x ∷ y ∷ l) h = elim (Bool-cases (less x y)) [
    | inl e ↦ rw e (h.0, All-distinct P (y ∷ l) h.1)
    | inr e ↦ rw e (All-distinct P (y ∷ l) h.1)
  ]

module _ {ℓ} {A : Type ℓ} (id : A → ℕ) where
  -- Each ID is less than all the later ones.
  abbrev pub Ascends : List A → Type ℓ
  Ascends [] = Unit
  Ascends (x ∷ l) = All (λ y. id x < id y) l × Ascends l

  abbrev pub by_id : A → A → Bool
  by_id a b = ltb (id a) (id b)

  pub Ascends-keep : (p : A → Bool) (l : List A) → Ascends l → Ascends (keep p l)
  Ascends-keep p [] h = tt
  Ascends-keep p (x ∷ l) h = elim (Bool-cases (p x)) [
    | inl e ↦ rw e (All-keep p (λ y. id x < id y) l h.0, Ascends-keep p l h.1)
    | inr e ↦ rw e (Ascends-keep p l h.1)
  ]
    where
      All-keep : (p : A → Bool) (P : A → Type 0) (l : List A) → All P l → All P (keep p l)
      All-keep p P [] h = tt
      All-keep p P (x ∷ l) h = elim (Bool-cases (p x)) [
        | inl e ↦ rw e (h.0, All-keep p P l h.1)
        | inr e ↦ rw e (All-keep p P l h.1)
      ]

  pub Ascends-snoc :
      (l : List A) (x : A) → Ascends l → All (λ y. id y < id x) l → Ascends (l ++ (x ∷ []))
  Ascends-snoc [] x h b = (tt, tt)
  Ascends-snoc (y ∷ l) x h b = (All-snoc l h.0 b.0, Ascends-snoc l x h.1 b.1)
    where
      All-snoc :
          (l : List A)
          → All (λ z. id y < id z) l
          → id y < id x
          → All (λ z. id y < id z) (l ++ (x ∷ []))
      All-snoc [] h k = (k, tt)
      All-snoc (z ∷ l) h k = (h.0, All-snoc l h.1 k)

  pub stable_sort-Ascends : (l : List A) → Ascends l → stable_sort by_id l ≡ l
  unfolding stable_sort sort_insert
  stable_sort-Ascends [] h = refl
  stable_sort-Ascends (x ∷ l) h = ap (sort_insert by_id x) (stable_sort-Ascends l h.1) ∙ first l h.0
    where
      first : (l : List A) → All (λ y. id x < id y) l → sort_insert by_id x l ≡ x ∷ l
      first [] h = refl
      first (y ∷ l) h = ground (arith, h.0)

  pub distinct-Ascends : (l : List A) → Ascends l → distinct by_id l ≡ l
  unfolding distinct
  distinct-Ascends [] h = refl
  distinct-Ascends (x ∷ []) h = refl
  distinct-Ascends (x ∷ y ∷ l) h =
      let less : ltb (id x) (id y) ≡ true = ground (arith, h.0.0) in
      rw less (ap (◌∷◌ x) (distinct-Ascends (y ∷ l) h.1))

  less_than_rest :
      (x y : A) (l : List A)
      → id x < id y
      → All (λ z. by_id z y ≡ false) l
      → All (λ z. id x < id z) l
  less_than_rest x y l h s = All-imp (λ z q. ground (arith, q, h)) l s

  pub distinct-sorted_Ascends : (l : List A) → IsSorted by_id l → Ascends (distinct by_id l)
  unfolding distinct
  distinct-sorted_Ascends [] s = tt
  distinct-sorted_Ascends (x ∷ []) s = (tt, tt)
  distinct-sorted_Ascends (x ∷ y ∷ l) s = elim (Bool-cases (by_id x y)) [
    | inl e ↦
        let less : id x < id y = ground (arith, e) in
        rw e (
          All-distinct by_id (λ z. id x < id z) (y ∷ l) (less, less_than_rest x y l less s.1.0),
          distinct-sorted_Ascends (y ∷ l) s.1,
        )
    | inr e ↦ rw e (distinct-sorted_Ascends (y ∷ l) s.1)
  ]

  pub stable_sort-by_id-IsSorted : (l : List A) → IsSorted by_id (stable_sort by_id l)
  stable_sort-by_id-IsSorted l =
      stable_sort-IsSorted by_id (λ x y z h k. ground (arith, h, k)) (λ x y h. ground (arith, h)) l

pub not_among : (k : ℕ) (ns : List ℕ) → All (λ n. k < n) ns → among ns k ≡ false
not_among k [] h = refl
not_among k (n ∷ ns) h = ground (arith, h.0, not_among k ns h.1)

module _ {ℓ} {A : Type ℓ} (id : A → ℕ) where
  among_above : (k n : ℕ) (l : List A) → All (λ a. k < id a) l → among (map id l) n ≡ true → k < n
  among_above k n [] h m = ground (arith, m)
  among_above k n (a ∷ l) h m = elim (Bool-cases (nat_eq n (id a))) [
    | inl e ↦ ground (arith, e, h.0)
    | inr e ↦ among_above k n l h.1 (ground (arith, e, m))
  ]

  keep-among_skip :
      (n : ℕ) (ns : List ℕ) (l : List A)
      → All (λ a. n < id a) l
      → keep (λ a. among (n ∷ ns) (id a)) l ≡ keep (λ a. among ns (id a)) l
  keep-among_skip n ns [] h = refl
  keep-among_skip n ns (a ∷ l) h =
      let other : nat_eq (id a) n ≡ false = ground (arith, h.0) in
      rw other (ap (λ r. if among ns (id a) then a ∷ r else r) (keep-among_skip n ns l h.1))

  among_behind :
      (a : A) (l : List A) (n : ℕ)
      → id a < n
      → among (map id (a ∷ l)) n ≡ true
      → among (map id l) n ≡ true
  among_behind a l n h m = ground (arith, h, m)

  All-among_behind :
      (a : A) (l : List A) (ns : List ℕ)
      → All (λ n. id a < n) ns
      → All (λ n. among (map id (a ∷ l)) n ≡ true) ns
      → All (λ n. among (map id l) n ≡ true) ns
  All-among_behind a l [] h m = tt
  All-among_behind a l (n ∷ ns) h m = (among_behind a l n h.0 m.0, All-among_behind a l ns h.1 m.1)

  among_one_behind :
      (a : A) (l : List A) (n : ℕ)
      → nat_eq (id a) n ≡ false
      → among (map id (a ∷ l)) n ≡ true
      → among (map id l) n ≡ true
  among_one_behind a l n e m = ground (arith, e, m)

  -- Asked for ascending IDs that are all there, an ascending list gives the elements with them.
  pub map-keep-among :
      (ns : List ℕ) (l : List A)
      → Ascends id l
      → Ascends (λ n. n) ns
      → All (λ n. among (map id l) n ≡ true) ns
      → map id (keep (λ a. among ns (id a)) l) ≡ ns
  map-keep-among [] [] h s m = refl
  map-keep-among [] (a ∷ l) h s m = map-keep-among [] l h.1 tt tt
  map-keep-among (n ∷ ns) [] h s m = ground (arith, m.0)
  map-keep-among (n ∷ ns) (a ∷ l) h s m = elim (Bool-cases (nat_eq (id a) n)) [
    | inl e ↦
        let same : id a ≡ n = ground (arith, e) in
        let above = All-imp (λ x q. omega (arith, q, same)) l h.0 in
        let later = All-imp (λ x q. omega (arith, q, same)) ns s.0 in
        rw
          (
            e,
            keep-among_skip n ns l above,
            map-keep-among ns l h.1 s.1 (All-among_behind a l ns later m.1),
            same,
          )
          refl
    | inr e ↦
        let there = among_one_behind a l n e m.0 in
        let first = among_above (id a) n l h.0 there in
        let later = All-imp (λ x q. omega (arith, q, first)) ns s.0 in
        rw (not_among (id a) (n ∷ ns) (first, later))
          (map-keep-among (n ∷ ns) l h.1 s (there, All-among_behind a l ns later m.1))
  ]
