-- ===== src/RoomState/Dedupe.antt =====
-- `DeduplicateStateEntries` (roomserver/types/types.go).
use dendrite.Base.{
  ℕ, ◌≤◌, ◌≡◌, refl, ◌∙◌, true, false, List, [], ◌∷◌, Option, none, some, arith, ltb, if◌then◌else◌,
  All, length, inl, inr, Bool-cases,
}
use dendrite.Base.Sort.{IsSorted, sort_insert, stable_sort, stable_sort-IsSorted, All-imp}
use dendrite.RoomState.Entries.{
  StateKeyTuple, StateEntry, key_eq, key_less, entry_less, entry_less_trans, entry_less_asym, find,
  HasUniqueKeys,
}

-- The loop: an entry with the key of the next one is cut out.
unfoldable pub drop_repeated : List StateEntry → List StateEntry
drop_repeated [] = []
drop_repeated (x ∷ []) = x ∷ []
drop_repeated (x ∷ y ∷ l) =
    let rest = drop_repeated (y ∷ l) in if key_eq x.key y.key then rest else x ∷ rest

unfoldable pub deduplicate_state_entries : List StateEntry → List StateEntry
deduplicate_state_entries a =
    if ltb (length a) 2 then a else drop_repeated (stable_sort entry_less a)

-- The highest event for a key.
abbrev pub higher : ℕ → Option ℕ → Option ℕ
higher n none = some n
higher n (some m) = if ltb n m then some m else some n

pub highest : StateKeyTuple → List StateEntry → Option ℕ
highest k [] = none
highest k (e ∷ es) = if key_eq e.key k then higher e.event_nid (highest k es) else highest k es

highest-sort_insert :
    (k : StateKeyTuple) (x : StateEntry) (l : List StateEntry)
    → highest k (sort_insert entry_less x l) ≡ highest k (x ∷ l)
unfolding highest sort_insert
highest-sort_insert k x [] = refl
highest-sort_insert k x (y ∷ l) = ground (arith, highest-sort_insert k x l)

highest-cons :
    (k : StateKeyTuple) (x : StateEntry) (l m : List StateEntry)
    → highest k l ≡ highest k m
    → highest k (x ∷ l) ≡ highest k (x ∷ m)
unfolding highest
highest-cons k x l m e = rw e

highest-stable_sort :
    (k : StateKeyTuple) (l : List StateEntry) → highest k (stable_sort entry_less l) ≡ highest k l
unfolding stable_sort
highest-stable_sort k [] = refl
highest-stable_sort k (x ∷ l) =
    highest-sort_insert k x (stable_sort entry_less l)
    ∙ highest-cons k x _ l (highest-stable_sort k l)

highest-none :
    (k : StateKeyTuple) (l : List StateEntry)
    → All (λ x. key_less k x.key ≡ true) l
    → highest k l ≡ none
unfolding highest
highest-none k [] h = refl
highest-none k (x ∷ l) h = ground (arith, highest-none k l h.1, h.0)

later_key :
    (x y z : StateEntry)
    → entry_less y x ≡ false
    → key_eq x.key y.key ≡ false
    → entry_less z y ≡ false
    → key_less x.key z.key ≡ true
later_key x y z h e k = ground arith

later_keys :
    (x y : StateEntry) (l : List StateEntry)
    → IsSorted entry_less (x ∷ y ∷ l)
    → key_eq x.key y.key ≡ false
    → All (λ z. key_less x.key z.key ≡ true) (y ∷ l)
later_keys x y l h e =
    (later_key x y y h.0.0 e (ground arith), All-imp (λ z. later_key x y z h.0.0 e) l h.1.0)

key_less-not_eq :
    (a b k : StateKeyTuple) → key_eq a k ≡ true → key_less a b ≡ true → key_less k b ≡ true
key_less-not_eq a b k e h = ground arith

pub All-drop_repeated {ℓ} :
    (P : StateEntry → Type ℓ) (l : List StateEntry) → All P l → All P (drop_repeated l)
unfolding drop_repeated
All-drop_repeated P [] h = tt
All-drop_repeated P (x ∷ []) h = h
All-drop_repeated P (x ∷ y ∷ l) h = elim (Bool-cases (key_eq x.key y.key)) [
  | inl e ↦ rw e (All-drop_repeated P (y ∷ l) h.1)
  | inr e ↦ rw e (h.0, All-drop_repeated P (y ∷ l) h.1)
]

find-drop_repeated :
    (k : StateKeyTuple) (l : List StateEntry)
    → IsSorted entry_less l
    → find k (drop_repeated l) ≡ highest k l
unfolding find highest drop_repeated
find-drop_repeated k [] h = refl
find-drop_repeated k (x ∷ []) h = refl
find-drop_repeated k (x ∷ y ∷ l) h = elim (Bool-cases (key_eq x.key y.key)) [
  | inl e ↦ rw e (find-drop_repeated k (y ∷ l) h.1 ∙ ground (arith, h.0.0))
  | inr e ↦ rw e (elim (Bool-cases (key_eq x.key k)) [
    | inl q ↦ ground (
      arith,
      highest-none k (y ∷ l)
          (All-imp (λ z. key_less-not_eq x.key z.key k q) (y ∷ l) (later_keys x y l h e)),
    )
    | inr q ↦ ground (arith, find-drop_repeated k (y ∷ l) h.1)
  ])
]

drop_repeated-HasUniqueKeys :
    (l : List StateEntry) → IsSorted entry_less l → HasUniqueKeys (drop_repeated l)
unfolding drop_repeated
drop_repeated-HasUniqueKeys [] h = tt
drop_repeated-HasUniqueKeys (x ∷ []) h = (tt, tt)
drop_repeated-HasUniqueKeys (x ∷ y ∷ l) h = elim (Bool-cases (key_eq x.key y.key)) [
  | inl e ↦ rw e (drop_repeated-HasUniqueKeys (y ∷ l) h.1)
  | inr e ↦ rw e (
    All-drop_repeated (λ z. key_less x.key z.key ≡ true) (y ∷ l) (later_keys x y l h e),
    drop_repeated-HasUniqueKeys (y ∷ l) h.1,
  )
]

deduplicate_long :
    (a : List StateEntry)
    → 2 ≤ length a
    → deduplicate_state_entries a ≡ drop_repeated (stable_sort entry_less a)
unfolding deduplicate_state_entries
deduplicate_long a h = ground arith

-- After `DeduplicateStateEntries` the keys ascend strictly, so that none stands twice, and the
-- entry of each key names the highest event that the input has for it, if it has any.
pub deduplicate_state_entries-keeps_highest :
    (a : List StateEntry)
    → HasUniqueKeys (deduplicate_state_entries a)
      × ((k : StateKeyTuple) → find k (deduplicate_state_entries a) ≡ highest k a)
unfolding deduplicate_state_entries
deduplicate_state_entries-keeps_highest [] = (tt, λ k. unfold find highest in refl)
deduplicate_state_entries-keeps_highest (x ∷ []) = ((tt, tt), λ k. unfold find highest in refl)
deduplicate_state_entries-keeps_highest (x ∷ y ∷ l) =
    rw (deduplicate_long (x ∷ y ∷ l) (omega arith)) (
      drop_repeated-HasUniqueKeys _ (sorted (x ∷ y ∷ l)),
      λ k.
          find-drop_repeated k (stable_sort entry_less (x ∷ y ∷ l)) (sorted (x ∷ y ∷ l))
          ∙ highest-stable_sort k (x ∷ y ∷ l),
    )
  where
    sorted : (a : List StateEntry) → IsSorted entry_less (stable_sort entry_less a)
    sorted = stable_sort-IsSorted entry_less entry_less_trans entry_less_asym
