-- ===== src/RoomState/Lookup.antt =====
-- The lookups by binary search in roomserver/state/state.go: `stateEntryMap`,
-- `stateBlockNIDListMap`, `stateEntryListMap` and `eventMap`. An event that gomatrixserverlib has
-- parsed is of a type `V` that nothing here looks into.
use dendrite.Base.{
  ℕ, ◌≡◌, refl, ap, ◌∙◌, List, [], ◌∷◌, Option, none, some, arith, ltb, nat_eq, if◌then◌else◌,
}
use dendrite.Base.Sort.{IsSorted, All-imp}
use dendrite.Base.Search.{search_lookup, first_hit, IsSearchable, search_lookup-first_hit}
use dendrite.RoomState.Entries.{StateKeyTuple, StateEntry, key_eq, key_less, by_key, find}

pub record StateBlockNidList : Type 0 where
  pub state_snapshot_nid : ℕ
  pub state_block_nids : List ℕ

pub record StateEntryList : Type 0 where
  pub state_block_nid : ℕ
  pub state_entries : List StateEntry

pub record Event (V : Type 0) : Type 0 where
  pub event_nid : ℕ
  pub event : V

abbrev pub field {ℓ} : {A B : Type ℓ} → (A → B) → Option A → Option B
field f none = none
field f (some a) = some (f a)

-- `lookup` of a `stateEntryMap`
unfoldable pub state_entry_lookup : StateKeyTuple → List StateEntry → Option ℕ
state_entry_lookup k l =
    field (λ e. e.event_nid) (search_lookup (λ e. key_less e.key k) (λ e. key_eq e.key k) l)

-- The search that the three other lookups share, on lists sorted by a numeric ID.
abbrev pub nid_search {ℓ} : {A : Type ℓ} → (A → ℕ) → ℕ → List A → Option A
nid_search id nid l = search_lookup (λ a. ltb (id a) nid) (λ a. nat_eq (id a) nid) l

unfoldable pub state_block_nids_lookup : ℕ → List StateBlockNidList → Option (List ℕ)
state_block_nids_lookup nid l =
    field (λ a. a.state_block_nids) (nid_search (λ a. a.state_snapshot_nid) nid l)

unfoldable pub state_entries_lookup : ℕ → List StateEntryList → Option (List StateEntry)
state_entries_lookup nid l =
    field (λ a. a.state_entries) (nid_search (λ a. a.state_block_nid) nid l)

unfoldable pub event_lookup : {V : Type 0} → ℕ → List (Event V) → Option (Event V)
event_lookup nid l = nid_search (λ a. a.event_nid) nid l

sorted-IsSearchable :
    (k : StateKeyTuple) (l : List StateEntry)
    → IsSorted by_key l
    → IsSearchable (λ e. key_less e.key k) (λ e. key_eq e.key k) l
sorted-IsSearchable k [] h = tt
sorted-IsSearchable k (a ∷ l) h = (
  λ b. ground (arith, b),
  λ b. All-imp (λ x q. ground (arith, b, q)) l h.0,
  λ b c. All-imp (λ x q. ground (arith, b, c, q)) l h.0,
  sorted-IsSearchable k l h.1,
)

first_hit-find :
    (k : StateKeyTuple) (l : List StateEntry)
    → field (λ e. e.event_nid) (first_hit (λ e. key_less e.key k) (λ e. key_eq e.key k) l)
      ≡ find k l
unfolding find
first_hit-find k [] = refl
first_hit-find k (a ∷ l) = ground (arith, first_hit-find k l)

-- On a list sorted by the keys, the binary search of a `stateEntryMap` finds the event of the
-- first entry for the key, and finds none exactly when there is no entry for it.
pub state_entry_lookup-find :
    (k : StateKeyTuple) (l : List StateEntry)
    → IsSorted by_key l
    → state_entry_lookup k l ≡ find k l
unfolding state_entry_lookup
state_entry_lookup-find k l h =
    ap (field (λ e. e.event_nid)) (
      search_lookup-first_hit (λ e. key_less e.key k) (λ e. key_eq e.key k) l
        (sorted-IsSearchable k l h))
    ∙ first_hit-find k l

module _ {ℓ} {A : Type ℓ} (id : A → ℕ) where
  -- The first element with an ID.
  abbrev pub first_with : ℕ → List A → Option A
  first_with nid [] = none
  first_with nid (a ∷ l) = if nat_eq (id a) nid then some a else first_with nid l

  nid_sorted-IsSearchable :
      (nid : ℕ) (l : List A)
      → IsSorted (λ a b. ltb (id a) (id b)) l
      → IsSearchable (λ a. ltb (id a) nid) (λ a. nat_eq (id a) nid) l
  nid_sorted-IsSearchable nid [] h = tt
  nid_sorted-IsSearchable nid (a ∷ l) h = (
    λ b. ground (arith, b),
    λ b. All-imp (λ x q. ground (arith, b, q)) l h.0,
    λ b c. All-imp (λ x q. ground (arith, b, c, q)) l h.0,
    nid_sorted-IsSearchable nid l h.1,
  )

  first_hit-first_with :
      (nid : ℕ) (l : List A)
      → first_hit (λ a. ltb (id a) nid) (λ a. nat_eq (id a) nid) l ≡ first_with nid l
  first_hit-first_with nid [] = refl
  first_hit-first_with nid (a ∷ l) =
      ap (λ o. if nat_eq (id a) nid then some a else o) (first_hit-first_with nid l)

  nid_search-first_with :
      (nid : ℕ) (l : List A)
      → IsSorted (λ a b. ltb (id a) (id b)) l
      → nid_search id nid l ≡ first_with nid l
  nid_search-first_with nid l h =
      search_lookup-first_hit (λ a. ltb (id a) nid) (λ a. nat_eq (id a) nid) l
        (nid_sorted-IsSearchable nid l h)
      ∙ first_hit-first_with nid l

-- On lists sorted by their IDs, the binary searches of a `stateBlockNIDListMap`, of a
-- `stateEntryListMap` and of an `eventMap` find what belongs to the first element with the ID, and
-- find none exactly when there is no such element.
pub lookups-first_with :
    {V : Type 0} (nid : ℕ) (blocks : List StateBlockNidList) (entries : List StateEntryList)
    (events : List (Event V))
    → IsSorted (λ a b. ltb a.state_snapshot_nid b.state_snapshot_nid) blocks
    → IsSorted (λ a b. ltb a.state_block_nid b.state_block_nid) entries
    → IsSorted (λ a b. ltb a.event_nid b.event_nid) events
    → (state_block_nids_lookup nid blocks
        ≡ field (λ a. a.state_block_nids) (first_with (λ a. a.state_snapshot_nid) nid blocks))
      × (state_entries_lookup nid entries
          ≡ field (λ a. a.state_entries) (first_with (λ a. a.state_block_nid) nid entries))
      × (event_lookup nid events ≡ first_with (λ a. a.event_nid) nid events)
unfolding state_block_nids_lookup state_entries_lookup event_lookup
lookups-first_with nid blocks entries events b e v = (
  ap (field (λ a. a.state_block_nids))
      (nid_search-first_with (λ a. a.state_snapshot_nid) nid blocks b),
  ap (field (λ a. a.state_entries)) (nid_search-first_with (λ a. a.state_block_nid) nid entries e),
  nid_search-first_with (λ a. a.event_nid) nid events v,
)
