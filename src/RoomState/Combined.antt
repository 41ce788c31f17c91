-- ===== src/RoomState/Combined.antt =====
-- What the combined entries of state blocks say of a key (roomserver/state/state.go).
use dendrite.Base.{
  ℕ, ◌≡◌, refl, ap, ◌∙◌, Bool, true, false, not, ◌&&◌, List, [], ◌∷◌, ◌++◌, Option, none, some,
  arith, if◌then◌else◌, All, inl, inr, Bool-cases,
}
use dendrite.Base.Sort.{IsSorted, sort_insert, stable_sort, stable_sort-IsSorted, All-imp}
use dendrite.RoomState.Entries.{
  StateKeyTuple, StateEntry, StateAtEvent, key_eq, key_less, by_key, by_key_trans, by_key_asym,
  find, HasUniqueKeys,
}
use dendrite.RoomState.Dedupe.{drop_repeated, All-drop_repeated}
use dendrite.RoomState.Lookup.{StateBlockNidList, StateEntryList, state_block_nids_lookup}
use dendrite.RoomState.Load.{
  gather, clobber, load_state_at_snapshot, state_after, with_event, is_state_event,
}

abbrev or_else : Option ℕ → Option ℕ → Option ℕ
or_else none o = o
or_else (some n) o = some n

-- The event of the last entry for a key.
abbrev pub last_event : StateKeyTuple → List StateEntry → Option ℕ
last_event k [] = none
last_event k (e ∷ l) = or_else (last_event k l) (if key_eq e.key k then some e.event_nid else none)

-- What `util.Unique` is documented to do with a sorted list: it keeps the last of the entries that
-- compare equal.
abbrev pub IsUnique : (List StateEntry → List StateEntry) → Type 0
IsUnique unique = (l : List StateEntry) → IsSorted by_key l → unique l ≡ drop_repeated l

last_event-sort_insert :
    (k : StateKeyTuple) (e : StateEntry) (l : List StateEntry)
    → last_event k (sort_insert by_key e l) ≡ last_event k (e ∷ l)
unfolding sort_insert
last_event-sort_insert k e [] = refl
last_event-sort_insert k e (y ∷ l) = ground (arith, last_event-sort_insert k e l)

last_event-stable_sort :
    (k : StateKeyTuple) (l : List StateEntry) → last_event k (stable_sort by_key l) ≡ last_event k l
unfolding stable_sort
last_event-stable_sort k [] = refl
last_event-stable_sort k (e ∷ l) =
    last_event-sort_insert k e (stable_sort by_key l)
    ∙ ap (λ o. or_else o (if key_eq e.key k then some e.event_nid else none))
        (last_event-stable_sort k l)

last_event-none :
    (k : StateKeyTuple) (l : List StateEntry)
    → All (λ e. key_less k e.key ≡ true) l
    → last_event k l ≡ none
last_event-none k [] h = refl
last_event-none k (e ∷ l) h = ground (arith, h.0, last_event-none k l h.1)

-- After an entry with another key, a sorted list has greater keys.
greater_keys :
    (x y : StateEntry) (l : List StateEntry)
    → IsSorted by_key (x ∷ y ∷ l)
    → key_eq x.key y.key ≡ false
    → All (λ e. key_less x.key e.key ≡ true) (y ∷ l)
greater_keys x y l s e =
    (ground (arith, s.0.0, e), All-imp (λ z q. ground (arith, s.0.0, e, q)) l s.1.0)

less_eq : (a b k : StateKeyTuple) → key_eq a k ≡ true → key_less a b ≡ true → key_less k b ≡ true
less_eq a b k e h = ground arith

find-drop_repeated_last :
    (k : StateKeyTuple) (l : List StateEntry)
    → IsSorted by_key l
    → find k (drop_repeated l) ≡ last_event k l
unfolding find drop_repeated
find-drop_repeated_last k [] s = refl
find-drop_repeated_last k (x ∷ []) s = refl
find-drop_repeated_last k (x ∷ y ∷ l) s = elim (Bool-cases (key_eq x.key y.key)) [
  | inl e ↦ rw e (find-drop_repeated_last k (y ∷ l) s.1 ∙ ground (arith, e))
  | inr e ↦ rw e (elim (Bool-cases (key_eq x.key k)) [
    | inl q ↦ ground (
      arith,
      q,
      last_event-none k (y ∷ l)
          (All-imp (λ z. less_eq x.key z.key k q) (y ∷ l) (greater_keys x y l s e)),
    )
    | inr q ↦ ground (arith, q, find-drop_repeated_last k (y ∷ l) s.1)
  ])
]

drop_repeated-HasUniqueKeys_last :
    (l : List StateEntry) → IsSorted by_key l → HasUniqueKeys (drop_repeated l)
unfolding drop_repeated
drop_repeated-HasUniqueKeys_last [] s = tt
drop_repeated-HasUniqueKeys_last (x ∷ []) s = (tt, tt)
drop_repeated-HasUniqueKeys_last (x ∷ y ∷ l) s = elim (Bool-cases (key_eq x.key y.key)) [
  | inl e ↦ rw e (drop_repeated-HasUniqueKeys_last (y ∷ l) s.1)
  | inr e ↦ rw e (
    All-drop_repeated (λ z. key_less x.key z.key ≡ true) (y ∷ l) (greater_keys x y l s e),
    drop_repeated-HasUniqueKeys_last (y ∷ l) s.1,
  )
]

pub last_event-snoc :
    (k : StateKeyTuple) (e : StateEntry) (l : List StateEntry)
    → last_event k (l ++ (e ∷ [])) ≡ (if key_eq e.key k then some e.event_nid else last_event k l)
last_event-snoc k e [] = ground arith
last_event-snoc k e (x ∷ l) = ground (arith, last_event-snoc k e l)

-- Whether an event's own entry belongs to the state after it.
abbrev pub counts_for : StateKeyTuple → StateAtEvent → Bool
counts_for k p = is_state_event p && (not p.is_rejected && key_eq p.state_entry.key k)

last_event-with_event :
    (k : StateKeyTuple) (p : StateAtEvent) (l : List StateEntry)
    → last_event k (with_event p l)
      ≡ (if counts_for k p then some p.state_entry.event_nid else last_event k l)
last_event-with_event k p l = ground (arith, last_event-snoc k p.state_entry l)

module _ (unique : List StateEntry → List StateEntry) (documented : IsUnique unique) where
  pub clobber-last_event :
      (l : List StateEntry)
      → HasUniqueKeys (clobber unique l)
        × ((k : StateKeyTuple) → find k (clobber unique l) ≡ last_event k l)
  unfolding clobber
  clobber-last_event l =
      let sorted = stable_sort-IsSorted by_key by_key_trans by_key_asym l in
      rw (documented (stable_sort by_key l) sorted) (
        drop_repeated-HasUniqueKeys_last (stable_sort by_key l) sorted,
        λ k. find-drop_repeated_last k (stable_sort by_key l) sorted ∙ last_event-stable_sort k l,
      )

  -- When the entries of all blocks of a snapshot are there, `LoadStateAtSnapshot` returns a list of
  -- strictly ascending keys, in which the event for a key is that of the last entry for it: the
  -- later block clobbers the earlier ones.
  pub load_state_at_snapshot-last_event :
      (lists : List StateEntryList) (nids : List ℕ) (full : List StateEntry)
      → gather lists nids ≡ some full
      → (state : List StateEntry) × (load_state_at_snapshot unique lists nids ≡ some state)
        × HasUniqueKeys state
        × ((k : StateKeyTuple) → find k state ≡ last_event k full)
  unfolding load_state_at_snapshot
  load_state_at_snapshot-last_event lists nids full h =
      let c = clobber-last_event full in (clobber unique full, rw h, c.0, c.1)

  -- When a snapshot and the entries of its blocks are there, the state after an event has strictly
  -- ascending keys. The event for a key is the event itself, if it is a state event for the key
  -- that is not rejected, and otherwise that of the last entry for the key in the blocks.
  pub state_after-last_event :
      (snapshots : List StateBlockNidList) (lists : List StateEntryList) (p : StateAtEvent)
      (nids : List ℕ) (full : List StateEntry)
      → state_block_nids_lookup p.before_state_snapshot_nid snapshots ≡ some nids
      → gather lists nids ≡ some full
      → (state : List StateEntry) × (state_after unique snapshots lists p ≡ some state)
        × HasUniqueKeys state
        × ((k : StateKeyTuple)
            → find k state
              ≡ (if counts_for k p then some p.state_entry.event_nid else last_event k full))
  unfolding state_after
  state_after-last_event snapshots lists p nids full h g =
      let c = clobber-last_event (with_event p full) in
      (
        clobber unique (with_event p full),
        rw (h, g),
        c.0,
        λ k. c.1 k ∙ last_event-with_event k p full,
      )
