-- ===== src/Storage/Tests.antt =====
-- The theorems about the storage of state at a room with a topic that changes.
use dendrite.Base.{
  ℕ, ◌≡◌, refl, not, List, [], ◌∷◌, ◌++◌, arith, if◌then◌else◌, any, Result, err, ok, ◌>>=◌, keep,
}
use dendrite.Base.Sort.{stable_sort, sort_insert}
use dendrite.Base.Search.{search_lookup, sort_search, search_from}
use dendrite.RoomState.Entries.{StateKeyTuple, StateEntry, StateAtEvent, find, HasUniqueKeys}
use dendrite.RoomState.Dedupe.{drop_repeated}
use dendrite.RoomState.Duplicates.{is_repeated}
use dendrite.RoomState.Lookup.{state_block_nids_lookup, state_entries_lookup}
use dendrite.RoomState.Load.{
  gather, clobber, load_state_at_snapshot, state_after, combined_state_after,
}
use dendrite.RoomState.Combined.{last_event}
use dendrite.Storage.Tables.{
  Tables, Failure, conflicting_block, conflicting_snapshot, bulk_insert_state_data, insert_state,
  bulk_select_state_block_entries, bulk_select_state_block_nids, bulk_select_state_event_by_nid,
}
use dendrite.Storage.Add.{
  without_events, without_blocks, without_known, add_block_and_snapshot, new_state, add_state,
  entry_lists, state_entries,
}
use dendrite.Storage.Calculate.{
  load_snapshot, load_combined_state_after_events, calculate_state_after_many_events,
  calculate_and_store_state_after_events,
}
use dendrite.Storage.Sample.{outside, create, member, topic, new_topic, block, snapshot, tables, at}
use dendrite.Storage.Ascending.{distinct}
use dendrite.Storage.Known.{new_ones, without_known-new_ones}
use dendrite.Storage.Emptied.{without_known-one}
use dendrite.Storage.Sound.{IsSound}
use dendrite.Storage.Preserved.{Stores}
use dendrite.Storage.Unchanged.{Leaves, calculate_and_store_state_after_events-Leaves}
use dendrite.Storage.Loaded.{entries_of, blocks_with}
use dendrite.Storage.Snapshot.{load_snapshot-last_event}
use dendrite.Storage.Delta.{new_block}
use dendrite.Storage.Overwrites.{IsNewTo, calculate_and_store_state_after_events-find}
use dendrite.Storage.Conflicts.{calculate_state_after_many_events-resolve}

tables-IsSound : IsSound tables
tables-IsSound = ground arith

without_known-new_ones_example :
    without_known 3 ((1 ∷ 2 ∷ []) ∷ (3 ∷ []) ∷ []) (member ∷ topic ∷ new_topic ∷ [])
    ≡ ok (new_ones ((1 ∷ 2 ∷ []) ∷ (3 ∷ []) ∷ []) (member ∷ topic ∷ new_topic ∷ []))
without_known-new_ones_example =
    without_known-new_ones ((1 ∷ 2 ∷ []) ∷ (3 ∷ []) ∷ []) (member ∷ topic ∷ []) new_topic refl

without_known-one_example :
    without_known 1 ((1 ∷ 2 ∷ []) ∷ (3 ∷ []) ∷ []) (member ∷ []) ≡ err Failure.panicked
without_known-one_example = without_known-one ((1 ∷ 2 ∷ []) ∷ (3 ∷ []) ∷ []) member

load_snapshot-last_event_example :
    (state : List StateEntry) × (load_snapshot outside tables 2 ≡ ok state)
    × HasUniqueKeys state
    × ((k : StateKeyTuple)
        → find k state
          ≡ last_event k (entries_of tables (outside.returned (blocks_with tables (1 ∷ 2 ∷ [])))))
load_snapshot-last_event_example =
    load_snapshot-last_event outside (λ rows. refl) (λ l h. refl) tables 2 (snapshot 2 (1 ∷ 2 ∷ []))
      tables-IsSound refl

new_topic-IsNewTo : IsNewTo outside tables (1 ∷ 2 ∷ []) new_topic
unfolding conflicting_block conflicting_snapshot
new_topic-IsNewTo = (refl, refl, refl)

-- No conflict is resolved here.
abbrev no_resolution : List StateEntry → List StateEntry → Result Failure (List StateEntry)
no_resolution not_conflicted conflicted = err Failure.failed

topic_stored :
    (r : Tables × ℕ) × (calculate_and_store_state_after_events outside no_resolution tables 7
        (at 2 new_topic ∷ [])
      ≡ ok r)
    × (state : List StateEntry) × (load_snapshot outside r.0 r.1 ≡ ok state)
    × HasUniqueKeys state
    × ((k : StateKeyTuple)
        → find k state
          ≡ last_event k (
              entries_of tables (
                outside.returned
                  (blocks_with tables (1 ∷ 2 ∷ []) ++ (new_block outside tables new_topic ∷ [])))))
topic_stored =
    calculate_and_store_state_after_events-find outside (λ rows. refl) (λ l. refl) (λ l. refl)
      (λ l h. refl) no_resolution tables 7 (at 2 new_topic) (snapshot 2 (1 ∷ 2 ∷ [])) tables-IsSound
      refl (omega arith) refl new_topic-IsNewTo

calculate_and_store_state_after_events-find_example :
    (r : Tables × ℕ) × (calculate_and_store_state_after_events outside no_resolution tables 7
        (at 2 new_topic ∷ [])
      ≡ ok r)
    × (state : List StateEntry) × (load_snapshot outside r.0 r.1 ≡ ok state)
    × HasUniqueKeys state
    × ((k : StateKeyTuple)
        → find k state
          ≡ last_event k (
              entries_of tables (
                outside.returned
                  (blocks_with tables (1 ∷ 2 ∷ []) ++ (new_block outside tables new_topic ∷ [])))))
calculate_and_store_state_after_events-find_example =
    calculate_and_store_state_after_events-find outside (λ rows. refl) (λ l. refl) (λ l. refl)
      (λ l h. refl) no_resolution tables 7 (at 2 new_topic) (snapshot 2 (1 ∷ 2 ∷ [])) tables-IsSound
      refl (omega arith) refl new_topic-IsNewTo

calculate_and_store_state_after_events-Leaves_example :
    Stores tables topic_stored.0 × Leaves outside tables topic_stored.0.0
calculate_and_store_state_after_events-Leaves_example =
    calculate_and_store_state_after_events-Leaves outside no_resolution tables 7
      (at 2 new_topic ∷ []) topic_stored.0 (λ l. refl) tables-IsSound (refl, (refl, tt)) (refl, tt)
      topic_stored.1

-- Two previous events: one that leaves the first topic, and one that sets the second.
abbrev prevs : List StateAtEvent
prevs = at 1 topic ∷ at 1 new_topic ∷ []

combined_lem :
    load_combined_state_after_events outside tables prevs
    ≡ ok (create ∷ member ∷ topic ∷ create ∷ member ∷ new_topic ∷ [])
unfolding load_combined_state_after_events bulk_select_state_block_nids state_entries
    bulk_select_state_block_entries entry_lists bulk_select_state_event_by_nid distinct stable_sort
    sort_insert gather clobber state_after combined_state_after drop_repeated
    state_block_nids_lookup state_entries_lookup search_lookup sort_search search_from
combined_lem = refl

-- A resolution that takes the first of the entries in conflict.
abbrev first_conflicted : List StateEntry → List StateEntry → Result Failure (List StateEntry)
first_conflicted not_conflicted [] = ok not_conflicted
first_conflicted not_conflicted (e ∷ conflicted) = ok (e ∷ not_conflicted)

abbrev with_both : List StateEntry
with_both = create ∷ member ∷ topic ∷ create ∷ member ∷ new_topic ∷ []

calculate_state_after_many_events-resolve_example :
    calculate_state_after_many_events outside first_conflicted tables prevs ≡ (
      let combined = outside.sort_and_unique_entries with_both in
      if any (is_repeated combined) combined
      then (first_conflicted
            (keep (λ e. not (is_repeated combined e)) combined)
            (keep (is_repeated combined) combined)
          >>= λ l. ok (outside.sort_and_unique_entries l))
      else ok combined)
calculate_state_after_many_events-resolve_example =
    calculate_state_after_many_events-resolve outside (λ l. refl) first_conflicted tables prevs
      with_both combined_lem

resolved_lem :
    calculate_state_after_many_events outside first_conflicted tables prevs
    ≡ ok (create ∷ member ∷ topic ∷ [])
unfolding distinct stable_sort sort_insert
resolved_lem =
    calculate_state_after_many_events-resolve outside (λ l. refl) first_conflicted tables prevs
      with_both combined_lem

-- The block of the first topic alone is older than that of the second one. The state after the
-- first topic, on top of a snapshot with the second, has the second.
abbrev stale : Tables
stale = record {
  blocks = block 1 (3 ∷ []) ∷ block 2 (4 ∷ []) ∷ [];
  next_block_nid = 3;
  snapshots = snapshot 1 (2 ∷ []) ∷ [];
  next_snapshot_nid = 2;
  events = topic ∷ new_topic ∷ [];
}

stale_order :
    (calculate_and_store_state_after_events outside no_resolution stale 7 (at 1 topic ∷ []) >>= λ r.
    load_snapshot outside r.0 r.1)
    ≡ ok (new_topic ∷ [])
unfolding calculate_and_store_state_after_events add_state new_state add_block_and_snapshot
    without_known without_blocks without_events bulk_insert_state_data insert_state
    conflicting_block conflicting_snapshot load_snapshot bulk_select_state_block_nids state_entries
    bulk_select_state_block_entries entry_lists bulk_select_state_event_by_nid distinct stable_sort
    sort_insert load_state_at_snapshot gather clobber drop_repeated state_entries_lookup
    search_lookup sort_search search_from
stale_order = refl
