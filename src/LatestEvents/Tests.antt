-- ===== src/LatestEvents/Tests.antt =====
-- The theorems about the update of a room at an event that changes its topic, twice.
use dendrite.Base.{
  ℕ, ◌≡◌, refl, Bool, true, false, List, [], ◌∷◌, none, some, String, Result, ok, err, ◌>>=◌,
  nat_eq, if◌then◌else◌, String_eq, Pair_eq,
}
use dendrite.Base.Map.{lookup, insert, delete}
use dendrite.Base.Search.{search_lookup, sort_search, search_from}
use dendrite.Base.Sort.{stable_sort, sort_insert}
use dendrite.RoomState.Entries.{StateEntry}
use dendrite.RoomState.Dedupe.{drop_repeated}
use dendrite.RoomState.Difference.{merge}
use dendrite.RoomState.Lookup.{state_entries_lookup}
use dendrite.RoomState.Load.{gather, clobber, load_state_at_snapshot}
use dendrite.Membership.Tables.{Tables as MembershipTables}
use dendrite.Membership.Changes.{
  membership_changes, pair_up_changes, paired, pair_added, pair_removed, StateKeyTuple_eq,
}
use dendrite.Extremities.Latest.{
  EventReference, calculate_latest, existing_refs, existing_prevs, delete_all, values,
  is_referenced, store_previous_events, insert_previous_event,
}
use dendrite.Storage.Tables.{
  Failure, bulk_insert_state_data, insert_state, conflicting_block, conflicting_snapshot,
  bulk_select_state_block_entries, bulk_select_state_block_nids, bulk_select_state_event_by_nid,
}
use dendrite.Storage.Add.{
  without_events, without_blocks, without_known, add_block_and_snapshot, new_state, add_state,
  entry_lists, state_entries,
}
use dendrite.Storage.Calculate.{
  load_snapshot, calculate_and_store_state_after_events, difference_between_state_snapshots,
}
use dendrite.Storage.Ascending.{distinct}
use dendrite.Storage.Delta.{with_delta}
use dendrite.Storage.Sample.{outside, tables, topic, new_topic, at}
use dendrite.LatestEvents.Memberships.{update_each, update_memberships}
use dendrite.LatestEvents.State.{NewEvent, latest_state, calculated_state}
use dendrite.LatestEvents.Update.{
  Reads, NewRoomEvent, Database, Batch, Ends, extra_events_for_ids, make_output_new_room_event,
  do_update_latest_events,
}
use dendrite.LatestEvents.Once.{do_update_latest_events-once, do_update_latest_events-twice}
use dendrite.LatestEvents.Effect.{IsUpdated, do_update_latest_events-IsUpdated}

abbrev reference : String → EventReference
reference id = record { event_id = id; event_sha256 = id }

abbrev reads : Reads
reads = record {
  latest_events =
      λ nids. record { state_at_event = at 1 topic; event_reference = reference "$topic" } ∷ [];
  event_id_of = λ nid. if nat_eq nid 3 then "$topic" else "$new";
  member_event = λ nid. none;
  extra_events = λ ids. some ids;
}

abbrev no_members : MembershipTables
no_members = record { memberships = []; invites = []; event_nids = [] }

abbrev before : Database
before = record {
  latest_event_nids = 3 ∷ [];
  last_event_sent_nid = 3;
  state_snapshot_nid = 2;
  sent_to_output = 3 ∷ [];
  state = tables;
  memberships = no_members;
}

abbrev event : NewEvent
event = record {
  reference = reference "$new";
  prev_event_ids = "$topic" ∷ [];
  has_state_key = true;
  state_at_event = at 2 new_topic;
  room_nid = 7;
  send_as_server = "here";
  rewrites_state = false;
}

abbrev output : NewRoomEvent
output = record {
  event_id = "$new";
  rewrites_state = false;
  last_sent_event_id = "$topic";
  latest_event_ids = "$new" ∷ [];
  adds_state_event_ids = "$new" ∷ [];
  removes_state_event_ids = "$topic" ∷ [];
  state_before_removes_event_ids = "$new" ∷ [];
  state_before_adds_event_ids = "$topic" ∷ [];
  send_as_server = "here";
  add_state_events = [];
}

abbrev after : Database
after = record {
  latest_event_nids = 4 ∷ [];
  last_event_sent_nid = 4;
  state_snapshot_nid = 3;
  sent_to_output = 4 ∷ 3 ∷ [];
  state = with_delta outside tables 7 (1 ∷ 2 ∷ []) new_topic;
  memberships = no_members;
}

abbrev batch : Batch
batch = record { invites = []; event = output }

-- The last steps succeed.
abbrev succeeds : Ends
succeeds = record { log_is_written = true; is_committed = true }

abbrev local : String → Bool
local user = true

abbrev no_resolution : List StateEntry → List StateEntry → Result Failure (List StateEntry)
no_resolution not_conflicted conflicted = err Failure.failed

updated :
    do_update_latest_events reads outside local no_resolution [] before event succeeds []
    ≡ (batch ∷ [], ok after)
unfolding do_update_latest_events calculate_latest existing_refs existing_prevs delete_all values
    is_referenced lookup insert delete latest_state calculated_state
    calculate_and_store_state_after_events add_state new_state add_block_and_snapshot without_known
    without_blocks without_events bulk_insert_state_data insert_state conflicting_block
    conflicting_snapshot difference_between_state_snapshots load_snapshot
    bulk_select_state_block_nids state_entries bulk_select_state_block_entries entry_lists
    bulk_select_state_event_by_nid distinct stable_sort sort_insert load_state_at_snapshot gather
    clobber drop_repeated state_entries_lookup search_lookup sort_search search_from merge
    update_memberships update_each membership_changes pair_up_changes paired pair_added pair_removed
    make_output_new_room_event extra_events_for_ids
updated = refl

do_update_latest_events-once_example :
    do_update_latest_events reads outside local no_resolution [] after event succeeds (batch ∷ [])
    ≡ (batch ∷ [], ok after)
do_update_latest_events-once_example =
    do_update_latest_events-once reads outside local no_resolution [] [] before after event succeeds
      succeeds [] (batch ∷ []) (batch ∷ []) updated

do_update_latest_events-twice_example :
    (b : Batch) × (do_update_latest_events reads outside local no_resolution [] before event
        (record { log_is_written = true; is_committed = false })
        []
      ≡ (b ∷ [], err Failure.failed))
    × (do_update_latest_events reads outside local no_resolution [] before event
          (record { log_is_written = true; is_committed = true })
          (b ∷ [])
        ≡ (b ∷ b ∷ [], ok after))
do_update_latest_events-twice_example =
    do_update_latest_events-twice reads outside local no_resolution [] before after event []
      (batch ∷ []) refl updated

do_update_latest_events-IsUpdated_example :
    IsUpdated reads outside (λ l h. refl) local no_resolution [] before event [] after (batch ∷ [])
do_update_latest_events-IsUpdated_example =
    do_update_latest_events-IsUpdated reads outside (λ l h. refl) local no_resolution [] before
      after event succeeds [] (batch ∷ []) refl updated

-- An event that rewrites the state and that another event references already: the room is left
-- without latest events, and with an empty state.
abbrev rewriting : NewEvent
rewriting = record event { rewrites_state = true }

abbrev left_of : Database → Result Failure (List ℕ × List StateEntry)
left_of db = load_snapshot outside db.state db.state_snapshot_nid >>= λ state.
    ok (db.latest_event_nids, state)

emptied :
    ((do_update_latest_events reads outside local no_resolution
        (store_previous_events 9 (reference "$new" ∷ []) [])
        before
        rewriting
        succeeds
        []).1
      >>= left_of)
    ≡ ok ([], [])
unfolding do_update_latest_events calculate_latest existing_refs existing_prevs delete_all values
    is_referenced store_previous_events insert_previous_event lookup insert delete latest_state
    calculated_state calculate_and_store_state_after_events add_state new_state
    add_block_and_snapshot insert_state conflicting_snapshot difference_between_state_snapshots
    load_snapshot bulk_select_state_block_nids state_entries bulk_select_state_block_entries
    entry_lists bulk_select_state_event_by_nid distinct stable_sort sort_insert
    load_state_at_snapshot gather clobber drop_repeated state_entries_lookup search_lookup
    sort_search search_from merge update_memberships update_each membership_changes pair_up_changes
    paired pair_added pair_removed make_output_new_room_event extra_events_for_ids
emptied = refl
