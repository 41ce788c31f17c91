-- ===== src/LatestEvents/State.antt =====
-- `latestState` of roomserver/internal/input/input_latest_events.go.
use dendrite.Base.{
  ℕ, Bool, not, ◌&&◌, List, [], map, String, ℕ_eq, List_eq, ◌==◌, Result, ok, ◌>>=◌, if◌then◌else◌,
}
use dendrite.RoomState.Entries.{StateEntry, StateAtEvent}
use dendrite.RoomState.Difference.{Changes}
use dendrite.Extremities.Latest.{EventReference, StateAtEventAndReference}
use dendrite.Storage.Tables.{Tables, Failure, Outside}
use dendrite.Storage.Calculate.{
  calculate_and_store_state_after_events, difference_between_state_snapshots,
}

-- What `latestEventsUpdater` is given of the event. `has_state_key` says whether the event has a
-- state key.
pub record NewEvent : Type 0 where
  pub reference : EventReference
  pub prev_event_ids : List String
  pub has_state_key : Bool
  pub state_at_event : StateAtEvent
  pub room_nid : ℕ
  pub send_as_server : String
  pub rewrites_state : Bool

-- The variables of the updater that `latestState` sets, and the tables of state.
pub record LatestState : Type 0 where
  pub new_state_nid : ℕ
  pub changes : Changes
  pub before_changes : Changes
  pub send_as_server : String
  pub tables : Tables

abbrev pub no_changes : Changes
no_changes = record { removed = []; added = [] }

abbrev pub nobody : String
nobody = ""

abbrev pub before_nids : List StateAtEventAndReference → List ℕ
before_nids l = map (λ x. x.state_at_event.before_state_snapshot_nid) l

-- No state is calculated: the snapshot stays.
abbrev pub kept_state : Tables → NewEvent → ℕ → LatestState
kept_state t e state_nid = record {
  new_state_nid = state_nid;
  changes = no_changes;
  before_changes = no_changes;
  send_as_server = e.send_as_server;
  tables = t;
}

module _ (o : Outside)
    (resolve : List StateEntry → List StateEntry → Result Failure (List StateEntry)) where
  -- The loop that compares the two lists of snapshots.
  abbrev pub state_changed : List StateAtEventAndReference → List StateAtEventAndReference → Bool
  state_changed old_latest latest = not (
      o.sort_and_unique_nids (before_nids old_latest)
      == o.sort_and_unique_nids (before_nids latest))

  -- From the calculation of the new state on.
  unfoldable pub calculated_state :
      Tables → NewEvent → ℕ → List StateAtEventAndReference → Result Failure LatestState
  calculated_state t e old_state_nid latest =
      calculate_and_store_state_after_events o resolve t e.room_nid
        (map (λ x. x.state_at_event) latest)
      >>= λ stored.
          difference_between_state_snapshots o stored.0 old_state_nid stored.1 >>= λ changes.
          difference_between_state_snapshots o stored.0 stored.1
            e.state_at_event.before_state_snapshot_nid
          >>= λ before_changes. ok (record {
            new_state_nid = stored.1;
            changes = changes;
            before_changes = before_changes;
            send_as_server = if e.state_at_event.overwrite then nobody else e.send_as_server;
            tables = stored.0;
          })

  unfoldable pub latest_state :
      Tables
      → NewEvent
      → ℕ
      → List StateAtEventAndReference
      → List StateAtEventAndReference
      → Result Failure LatestState
  latest_state t e old_state_nid old_latest latest =
      if not e.has_state_key && not (state_changed old_latest latest)
      then ok (kept_state t e old_state_nid)
      else calculated_state t e old_state_nid latest
