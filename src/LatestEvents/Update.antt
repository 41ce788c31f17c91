-- ===== src/LatestEvents/Update.antt =====
-- `doUpdateLatestEvents` and `makeOutputNewRoomEvent` of
-- roomserver/internal/input/input_latest_events.go, with the room's row that
-- roomserver/storage/shared/latest_events_updater.go reads and writes.
use dendrite.Base.{
  ℕ, Bool, not, ◌||◌, List, [], ◌∷◌, ◌++◌, Option, none, some, map, String, String_eq, ◌==◌, Result,
  err, ok, ◌>>=◌, nat_eq, if◌then◌else◌, keep,
}
use dendrite.RoomState.Entries.{StateEntry}
use dendrite.Membership.Tables.{Tables as MembershipTables}
use dendrite.Membership.Update.{MemberEvent, OutputEvent, bad_membership, panic, Outcome}
use dendrite.Extremities.Latest.{PreviousEvents, StateAtEventAndReference, calculate_latest}
use dendrite.Storage.Tables.{Tables, Failure, failed, panicked, Outside, among}
use dendrite.LatestEvents.Memberships.{update_memberships}
use dendrite.LatestEvents.State.{NewEvent, LatestState, kept_state, nobody, latest_state}

-- What the database answers: the latest events of a room with the state before them, the ID of an
-- event, the member event under a NID, and the bodies of events, `none` for an error.
pub record Reads : Type 0 where
  pub latest_events : List ℕ → List StateAtEventAndReference
  pub event_id_of : ℕ → String
  pub member_event : ℕ → Option MemberEvent
  pub extra_events : List String → Option (List String)

-- The message for an event.
pub record NewRoomEvent : Type 0 where
  pub event_id : String
  pub rewrites_state : Bool
  pub last_sent_event_id : String
  pub latest_event_ids : List String
  pub adds_state_event_ids : List String
  pub removes_state_event_ids : List String
  pub state_before_removes_event_ids : List String
  pub state_before_adds_event_ids : List String
  pub send_as_server : String
  pub add_state_events : List String

-- What a call of `WriteOutputEvents` writes: the invites and the event, in this order.
pub record Batch : Type 0 where
  pub invites : List OutputEvent
  pub event : NewRoomEvent

-- The row of the room, and what else the update writes to the database.
pub record Database : Type 0 where
  pub latest_event_nids : List ℕ
  pub last_event_sent_nid : ℕ
  pub state_snapshot_nid : ℕ
  pub sent_to_output : List ℕ
  pub state : Tables
  pub memberships : MembershipTables

-- How the last steps of an attempt end: `WriteOutputEvents`, and what follows it in the transaction,
-- its commit included.
pub record Ends : Type 0 where
  pub log_is_written : Bool
  pub is_committed : Bool

abbrev pub event_nid_of : StateAtEventAndReference → ℕ
event_nid_of x = x.state_at_event.state_entry.event_nid

abbrev pub update_failed : Outcome → Result Failure (MembershipTables × List OutputEvent)
update_failed (ok p) = ok p
update_failed (err bad_membership) = err failed
update_failed (err panic) = err panicked

abbrev pub written :
    Database → NewEvent → List StateAtEventAndReference → LatestState → MembershipTables → Database
written db e latest s memberships = record {
  latest_event_nids = map event_nid_of latest;
  last_event_sent_nid = e.state_at_event.state_entry.event_nid;
  state_snapshot_nid = s.new_state_nid;
  sent_to_output = e.state_at_event.state_entry.event_nid ∷ db.sent_to_output;
  state = s.tables;
  memberships = memberships;
}

abbrev pub or_rolled_back : Bool → Database → Result Failure Database
or_rolled_back is_committed db = if is_committed then ok db else err failed

-- The batch goes to the output log before the transaction ends.
abbrev pub sent :
    Bool
    → Bool
    → List Batch
    → Result Failure (Batch × Database)
    → List Batch × Result Failure Database
sent log_is_written is_committed log (err f) = (log, err f)
sent log_is_written is_committed log (ok (batch, db)) =
    if log_is_written
    then (log ++ (batch ∷ []), or_rolled_back is_committed db)
    else (log, err failed)

module _ (reads : Reads) where
  abbrev pub ids_of : List StateEntry → List String
  ids_of entries = map (λ s. reads.event_id_of s.event_nid) entries

  abbrev pub or_failed : Option (List String) → Result Failure (List String)
  or_failed none = err failed
  or_failed (some bodies) = ok bodies

  -- `extraEventsForIDs`, which is called if there are any.
  abbrev pub loaded_if_any : List String → Result Failure (List String)
  loaded_if_any [] = ok []
  loaded_if_any (id ∷ ids) = or_failed (reads.extra_events (id ∷ ids))

  unfoldable pub extra_events_for_ids : String → List String → Result Failure (List String)
  extra_events_for_ids event_id ids = loaded_if_any (keep (λ id. not (id == event_id)) ids)

  abbrev pub last_event_id_sent : ℕ → String
  last_event_id_sent nid = if nat_eq nid 0 then nobody else reads.event_id_of nid

  unfoldable pub make_output_new_room_event :
      NewEvent → ℕ → List StateAtEventAndReference → LatestState → Result Failure NewRoomEvent
  make_output_new_room_event e last_sent_nid latest s =
      extra_events_for_ids e.reference.event_id (ids_of s.changes.added) >>= λ bodies. ok (record {
        event_id = e.reference.event_id;
        rewrites_state = e.rewrites_state;
        last_sent_event_id = last_event_id_sent last_sent_nid;
        latest_event_ids = map (λ x. x.event_reference.event_id) latest;
        adds_state_event_ids = ids_of s.changes.added;
        removes_state_event_ids = ids_of s.changes.removed;
        state_before_removes_event_ids = ids_of s.before_changes.removed;
        state_before_adds_event_ids = ids_of s.before_changes.added;
        send_as_server = s.send_as_server;
        add_state_events = bodies;
      })

  abbrev pub old_latest_of : Database → NewEvent → List StateAtEventAndReference
  old_latest_of db e = if e.rewrites_state then [] else reads.latest_events db.latest_event_nids

  abbrev pub old_state_nid_of : Database → NewEvent → ℕ
  old_state_nid_of db e = if e.rewrites_state then 0 else db.state_snapshot_nid

  abbrev pub new_latest_of :
      PreviousEvents → Database → NewEvent → List StateAtEventAndReference × Bool
  new_latest_of previous db e =
      calculate_latest previous (old_latest_of db e) e.reference e.prev_event_ids
        (record { state_at_event = e.state_at_event; event_reference = e.reference })

  module _ (o : Outside) (is_local_user : String → Bool)
      (resolve : List StateEntry → List StateEntry → Result Failure (List StateEntry)) where
    -- The state and the memberships, if the latest events have changed.
    abbrev pub changed_state :
        Database
        → NewEvent
        → List StateAtEventAndReference × Bool
        → Result Failure (LatestState × (MembershipTables × List OutputEvent))
    changed_state db e latest =
        if latest.1 || e.rewrites_state
        then (latest_state o resolve db.state e (old_state_nid_of db e) (old_latest_of db e)
              latest.0
            >>= λ s.
                update_failed (
                  update_memberships is_local_user reads.member_event e.room_nid s.changes.removed
                    s.changes.added db.memberships)
                >>= λ m. ok (s, m))
        else ok (kept_state db.state e (old_state_nid_of db e), (db.memberships, []))

    -- The update up to the write to the output log.
    abbrev pub prepared : PreviousEvents → Database → NewEvent → Result Failure (Batch × Database)
    prepared previous db e =
        let latest = new_latest_of previous db e in
        changed_state db e latest >>= λ p.
        make_output_new_room_event e db.last_event_sent_nid latest.0 p.0 >>= λ output.
        ok (record { invites = p.1.1; event = output }, written db e latest.0 p.0 p.1.0)

    -- One attempt, with the output log: what is written to the log stays there, and an error stands
    -- for the transaction that is rolled back.
    unfoldable pub do_update_latest_events :
        PreviousEvents
        → Database
        → NewEvent
        → Ends
        → List Batch
        → List Batch × Result Failure Database
    do_update_latest_events previous db e ends log =
        if among db.sent_to_output e.state_at_event.state_entry.event_nid
        then (log, or_rolled_back ends.is_committed db)
        else sent ends.log_is_written ends.is_committed log (prepared previous db e)
