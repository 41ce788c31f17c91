-- ===== src/RoomState/Tests.antt =====
-- The theorems about state entries at small lists.
use dendrite.Base.{ℕ, ◌≡◌, refl, false, List, [], ◌∷◌, ◌++◌, some, keep, if◌then◌else◌}
use dendrite.Base.Search.{search_lookup, sort_search, search_from}
use dendrite.RoomState.Lookup.{
  StateBlockNidList, StateEntryList, Event, field, state_entry_lookup, state_block_nids_lookup,
  state_entries_lookup, event_lookup, state_entry_lookup-find, first_with, lookups-first_with,
}
use dendrite.RoomState.Duplicates.{
  blocks, find_duplicate_state_keys, is_repeated, find_duplicate_state_keys-keep,
}
use dendrite.RoomState.Load.{gather, load_state_at_snapshot, state_after}
use dendrite.RoomState.Combined.{
  IsUnique, last_event, counts_for, load_state_at_snapshot-last_event, state_after-last_event,
}
use dendrite.Base.Sort.{IsSorted, stable_sort, sort_insert}
use dendrite.RoomState.Entries.{
  StateEntry, StateAtEvent, StateKeyTuple, by_key, find, HasUniqueKeys,
}
use dendrite.RoomState.Dedupe.{
  deduplicate_state_entries, drop_repeated, highest, deduplicate_state_entries-keeps_highest,
}
use dendrite.RoomState.Difference.{merge, missing, merge-missing}

abbrev entry : ℕ → ℕ → ℕ → StateEntry
entry t k n = record { key = record { event_type_nid = t; event_state_key_nid = k }; event_nid = n }

abbrev mixed : List StateEntry
mixed = entry 5 7 20 ∷ entry 1 1 3 ∷ entry 5 7 31 ∷ []

mixed_lem : deduplicate_state_entries mixed ≡ entry 1 1 3 ∷ entry 5 7 31 ∷ []
unfolding deduplicate_state_entries drop_repeated stable_sort sort_insert
mixed_lem = refl

deduplicate_state_entries-keeps_highest_example :
    HasUniqueKeys (deduplicate_state_entries mixed)
    × ((k : StateKeyTuple) → find k (deduplicate_state_entries mixed) ≡ highest k mixed)
deduplicate_state_entries-keeps_highest_example = deduplicate_state_entries-keeps_highest mixed

abbrev before : List StateEntry
before = entry 1 1 3 ∷ entry 5 7 20 ∷ []

abbrev now : List StateEntry
now = entry 1 1 3 ∷ entry 5 7 31 ∷ entry 6 1 40 ∷ []

merged : merge before now ≡ record { removed = missing before now; added = missing now before }
merged =
    merge-missing before now ((refl, tt), (tt, tt)) ((refl, (refl, tt)), ((refl, tt), (tt, tt)))

abbrev sorted_pair : List StateEntry
sorted_pair = entry 1 1 3 ∷ entry 5 7 20 ∷ entry 5 7 31 ∷ []

sorted_pair-IsSorted : IsSorted by_key sorted_pair
sorted_pair-IsSorted = ((refl, (refl, tt)), ((refl, tt), (tt, tt)))

looked_up : state_entry_lookup (entry 5 7 0).key sorted_pair ≡ find (entry 5 7 0).key sorted_pair
looked_up = state_entry_lookup-find (entry 5 7 0).key sorted_pair sorted_pair-IsSorted

found : state_entry_lookup (entry 5 7 0).key sorted_pair ≡ some 20
unfolding state_entry_lookup search_lookup sort_search search_from
found = refl

repeated : find_duplicate_state_keys sorted_pair ≡ keep (is_repeated sorted_pair) sorted_pair
repeated = find_duplicate_state_keys-keep sorted_pair sorted_pair-IsSorted

duplicates : find_duplicate_state_keys sorted_pair ≡ entry 5 7 20 ∷ entry 5 7 31 ∷ []
unfolding find_duplicate_state_keys blocks
duplicates = refl

-- Two blocks, the second of which replaces an entry of the first.
abbrev lists : List StateEntryList
lists =
    record { state_block_nid = 1; state_entries = before }
    ∷ record { state_block_nid = 2; state_entries = entry 5 7 31 ∷ [] }
    ∷ []

abbrev snapshots : List StateBlockNidList
snapshots = record { state_snapshot_nid = 9; state_block_nids = 1 ∷ 2 ∷ [] } ∷ []

abbrev events : List (Event ℕ)
events = record { event_nid = 3; event = 0 } ∷ record { event_nid = 31; event = 1 } ∷ []

lookups_small :
    (state_block_nids_lookup 3 snapshots
      ≡ field (λ a. a.state_block_nids) (first_with (λ a. a.state_snapshot_nid) 3 snapshots))
    × (state_entries_lookup 3 lists
        ≡ field (λ a. a.state_entries) (first_with (λ a. a.state_block_nid) 3 lists))
    × (event_lookup 3 events ≡ first_with (λ a. a.event_nid) 3 events)
lookups_small =
    lookups-first_with 3 snapshots lists events (tt, tt) ((refl, tt), (tt, tt))
      ((refl, tt), (tt, tt))

gathered : gather lists (1 ∷ 2 ∷ []) ≡ some (before ++ (entry 5 7 31 ∷ []))
unfolding gather state_entries_lookup search_lookup sort_search search_from
gathered = refl

drop_repeated-IsUnique : IsUnique drop_repeated
drop_repeated-IsUnique l s = refl

loaded_small :
    (state : List StateEntry) × (load_state_at_snapshot drop_repeated lists (1 ∷ 2 ∷ [])
      ≡ some state)
    × HasUniqueKeys state
    × ((k : StateKeyTuple) → find k state ≡ last_event k (before ++ (entry 5 7 31 ∷ [])))
loaded_small =
    load_state_at_snapshot-last_event drop_repeated drop_repeated-IsUnique lists (1 ∷ 2 ∷ [])
      (before ++ (entry 5 7 31 ∷ [])) gathered

abbrev renamed : StateAtEvent
renamed = record {
  overwrite = false;
  before_state_snapshot_nid = 9;
  is_rejected = false;
  state_entry = entry 6 1 40;
}

snapshot_found : state_block_nids_lookup 9 snapshots ≡ some (1 ∷ 2 ∷ [])
unfolding state_block_nids_lookup search_lookup sort_search search_from
snapshot_found = refl

state_after-last_event_example :
    (state : List StateEntry) × (state_after drop_repeated snapshots lists renamed ≡ some state)
    × HasUniqueKeys state
    × ((k : StateKeyTuple)
        → find k state ≡ (
            if counts_for k renamed then some 40 else last_event k (before ++ (entry 5 7 31 ∷ []))))
state_after-last_event_example =
    state_after-last_event drop_repeated drop_repeated-IsUnique snapshots lists renamed (1 ∷ 2 ∷ [])
      (before ++ (entry 5 7 31 ∷ [])) snapshot_found gathered
