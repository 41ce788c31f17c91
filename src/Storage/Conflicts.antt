-- ===== src/Storage/Conflicts.antt =====
-- `calculateStateAfterManyEvents` (roomserver/state/state.go): what it hands to state resolution.
use dendrite.Base.{
  ◌≡◌, refl, sym, ap, ◌∙◌, subst, Bool, true, false, not, List, [], ◌∷◌, arith, ltb, if◌then◌else◌,
  any, All, inl, inr, Bool-cases, Result, ok, ◌>>=◌, keep,
}
use dendrite.Base.Sort.{IsSorted, stable_sort, stable_sort-IsSorted, All-imp}
use dendrite.RoomState.Entries.{
  StateKeyTuple, StateEntry, StateAtEvent, key_eq, key_eq_iff, entry_less, entry_less_trans,
  entry_less_asym, by_key, find,
}
use dendrite.RoomState.Lookup.{state_entry_lookup, state_entry_lookup-find}
use dendrite.RoomState.Duplicates.{count, is_repeated, find_duplicate_state_keys-keep, keep_same}
use dendrite.Storage.Tables.{Tables, Failure, Outside}
use dendrite.Storage.Calculate.{
  load_combined_state_after_events, is_found, not_conflicted, resolved_state,
  calculate_state_after_many_events,
}
use dendrite.Storage.Ascending.{distinct, All-distinct}

-- What `util.SortAndUnique` is documented to do with entries in their order.
abbrev pub SortsEntries : Outside → Type 0
SortsEntries o =
    (l : List StateEntry)
    → o.sort_and_unique_entries l ≡ distinct entry_less (stable_sort entry_less l)

distinct-IsSorted :
    (l : List StateEntry) → IsSorted entry_less l → IsSorted entry_less (distinct entry_less l)
unfolding distinct
distinct-IsSorted [] s = tt
distinct-IsSorted (x ∷ []) s = s
distinct-IsSorted (x ∷ y ∷ l) s = elim (Bool-cases (entry_less x y)) [
  | inl e ↦ rw e (
    All-distinct entry_less (λ z. entry_less z x ≡ false) (y ∷ l) s.0,
    distinct-IsSorted (y ∷ l) s.1,
  )
  | inr e ↦ rw e (distinct-IsSorted (y ∷ l) s.1)
]

by_key-IsSorted : (l : List StateEntry) → IsSorted entry_less l → IsSorted by_key l
by_key-IsSorted [] s = tt
by_key-IsSorted (x ∷ l) s = (All-imp (λ y q. ground (arith, q)) l s.0, by_key-IsSorted l s.1)

keep-IsSorted :
    (p : StateEntry → Bool) (l : List StateEntry) → IsSorted by_key l → IsSorted by_key (keep p l)
keep-IsSorted p [] s = tt
keep-IsSorted p (x ∷ l) s = elim (Bool-cases (p x)) [
  | inl e ↦ rw e (kept l s.0, keep-IsSorted p l s.1)
  | inr e ↦ rw e (keep-IsSorted p l s.1)
]
  where
    kept :
        (l : List StateEntry)
        → All (λ y. by_key y x ≡ false) l
        → All (λ y. by_key y x ≡ false) (keep p l)
    kept [] h = tt
    kept (y ∷ l) h = elim (Bool-cases (p y)) [
      | inl e ↦ rw e (h.0, kept l h.1)
      | inr e ↦ rw e (kept l h.1)
    ]

-- A test that looks at the key only.
abbrev IsOfKey : (StateEntry → Bool) → Type 0
IsOfKey p = (a b : StateEntry) → key_eq a.key b.key ≡ true → p a ≡ p b

is_repeated-IsOfKey : (l : List StateEntry) → IsOfKey (is_repeated l)
is_repeated-IsOfKey l a b e = ap (λ k. ltb 1 (count k l)) ((key_eq_iff a.key b.key).0 e)

is_found-keep :
    (p : StateEntry → Bool) (e : StateEntry) (l : List StateEntry)
    → IsOfKey p
    → p e ≡ false
    → is_found (find e.key (keep p l)) ≡ false
unfolding find
is_found-keep p e [] o h = refl
is_found-keep p e (x ∷ l) o h = elim (Bool-cases (p x)) [
  | inl t ↦ rw t (elim (Bool-cases (key_eq x.key e.key)) [
    | inl q ↦ ground (arith, o x e q, t, h)
    | inr q ↦ rw q (is_found-keep p e l o h)
  ])
  | inr t ↦ rw t (is_found-keep p e l o h)
]

is_found_first :
    (p : StateEntry → Bool) (e : StateEntry) (l : List StateEntry)
    → p e ≡ true
    → is_found (find e.key (keep p (e ∷ l))) ≡ true
unfolding find
is_found_first p e l h = rw h (ground arith)

is_found_later :
    (p : StateEntry → Bool) (k : StateKeyTuple) (x : StateEntry) (l : List StateEntry)
    → is_found (find k (keep p l)) ≡ true
    → is_found (find k (keep p (x ∷ l))) ≡ true
unfolding find
is_found_later p k x l h = elim (Bool-cases (p x)) [
  | inl t ↦ rw t (elim (Bool-cases (key_eq x.key k)) [ inl q ↦ rw q refl | inr q ↦ rw q h ])
  | inr t ↦ rw t h
]

-- In a part of the list, an entry is found among those that pass exactly if it passes.
found_iff :
    (p : StateEntry → Bool) (l : List StateEntry)
    → IsOfKey p
    → All (λ e. is_found (find e.key (keep p l)) ≡ p e) l
found_iff p [] o = tt
found_iff p (x ∷ l) o = (head, tail l (found_iff p l o))
  where
    head : is_found (find x.key (keep p (x ∷ l))) ≡ p x
    head = elim (Bool-cases (p x)) [
      | inl t ↦ is_found_first p x l t ∙ sym t
      | inr t ↦ is_found-keep p x (x ∷ l) o t ∙ sym t
    ]

    one :
        (e : StateEntry)
        → is_found (find e.key (keep p l)) ≡ p e
        → is_found (find e.key (keep p (x ∷ l))) ≡ p e
    one e h = elim (Bool-cases (p e)) [
      | inl t ↦ is_found_later p e.key x l (h ∙ t) ∙ sym t
      | inr t ↦ is_found-keep p e (x ∷ l) o t ∙ sym t
    ]

    tail :
        (m : List StateEntry)
        → All (λ e. is_found (find e.key (keep p l)) ≡ p e) m
        → All (λ e. is_found (find e.key (keep p (x ∷ l))) ≡ p e) m
    tail m h = All-imp one m h

module _ (o : Outside) (sorts : SortsEntries o)
    (resolve : List StateEntry → List StateEntry → Result Failure (List StateEntry)) where
  combined-IsSorted : (l : List StateEntry) → IsSorted by_key (o.sort_and_unique_entries l)
  combined-IsSorted l = subst (IsSorted by_key) (sym (sorts l)) (
      by_key-IsSorted (distinct entry_less (stable_sort entry_less l)) (
        distinct-IsSorted (stable_sort entry_less l)
          (stable_sort-IsSorted entry_less entry_less_trans entry_less_asym l)))

  not_conflicted-keep :
      (combined : List StateEntry)
      → IsSorted by_key combined
      → not_conflicted (keep (is_repeated combined) combined) combined
        ≡ keep (λ e. not (is_repeated combined e)) combined
  not_conflicted-keep combined s =
      let p = is_repeated combined in
      keep_same (λ e. not (is_found (state_entry_lookup e.key (keep p combined)))) (λ e. not (p e))
        combined
        (All-imp
          (λ e q.
            ap (λ f. not (is_found f))
              (state_entry_lookup-find e.key (keep p combined) (keep-IsSorted p combined s))
            ∙ ap not q)
          combined (found_iff p combined (is_repeated-IsOfKey combined)))

  resolved_state-cases :
      (combined conflicts : List StateEntry)
      → resolved_state o resolve combined conflicts ≡ (
          if any (λ c. true) conflicts
          then (resolve (not_conflicted conflicts combined) conflicts >>= λ l.
              ok (o.sort_and_unique_entries l))
          else ok combined)
  unfolding resolved_state
  resolved_state-cases combined [] = refl
  resolved_state-cases combined (c ∷ conflicts) = refl

  any-keep : (p : StateEntry → Bool) (l : List StateEntry) → any (λ c. true) (keep p l) ≡ any p l
  any-keep p [] = refl
  any-keep p (e ∷ l) = elim (Bool-cases (p e)) [ inl t ↦ rw t refl | inr t ↦ rw t (any-keep p l) ]

  -- Of the combined states after the previous events, sorted and without duplicates,
  -- `calculateStateAfterManyEvents` returns all entries if no key has two, and otherwise hands the
  -- entries whose key has one entry and those whose key has more to state resolution, in this
  -- order, and returns what that makes of them, sorted and without duplicates, or its error.
  pub calculate_state_after_many_events-resolve :
      (t : Tables) (prevs : List StateAtEvent) (loaded : List StateEntry)
      → load_combined_state_after_events o t prevs ≡ ok loaded
      → calculate_state_after_many_events o resolve t prevs ≡ (
          let combined = o.sort_and_unique_entries loaded in
          if any (is_repeated combined) combined
          then (resolve
                (keep (λ e. not (is_repeated combined e)) combined)
                (keep (is_repeated combined) combined)
              >>= λ l. ok (o.sort_and_unique_entries l))
          else ok combined)
  unfolding calculate_state_after_many_events
  calculate_state_after_many_events-resolve t prevs loaded h =
      let combined = o.sort_and_unique_entries loaded in
      let s = combined-IsSorted loaded in
      rw
        (
          h,
          find_duplicate_state_keys-keep combined s,
          resolved_state-cases combined (keep (is_repeated combined) combined),
          any-keep (is_repeated combined) combined,
          not_conflicted-keep combined s,
        )
        refl
