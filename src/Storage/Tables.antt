-- ===== src/Storage/Tables.antt =====
-- The tables of state blocks and of state snapshots with their statements
-- (roomserver/storage/postgres/state_block_table.go and state_snapshot_table.go), and the one
-- statement on the table of events that reads state entries (events_table.go). Rows stand in the
-- order of their insertion.
use dendrite.Base.{
  ℕ, suc, Bool, List, [], ◌∷◌, ◌++◌, Option, none, some, map, Result, err, ok, ltb, nat_eq,
  if◌then◌else◌, any, keep, length,
}
use dendrite.Base.Sort.{stable_sort}
use dendrite.RoomState.Entries.{StateEntry, by_key}
use dendrite.RoomState.Lookup.{StateBlockNidList}

pub record BlockRow : Type 0 where
  pub state_block_nid : ℕ
  pub state_block_hash : ℕ
  pub event_nids : List ℕ

pub record SnapshotRow : Type 0 where
  pub state_snapshot_nid : ℕ
  pub state_snapshot_hash : ℕ
  pub room_nid : ℕ
  pub state_block_nids : List ℕ

-- The tables, with the next value of each sequence. A row of the events table is read for the
-- event's type, state key and NID only.
pub record Tables : Type 0 where
  pub blocks : List BlockRow
  pub next_block_nid : ℕ
  pub snapshots : List SnapshotRow
  pub next_snapshot_nid : ℕ
  pub events : List StateEntry

-- An error of the code's own, or a panic of the Go runtime.
pub data Failure : Type 0 where
  failed : Failure
  panicked : Failure

-- What the code relies on: `Hash` (the JSON of the numbers, then BLAKE2b-256, as a number),
-- `util.SortAndUnique` on numeric IDs, on entries by their events and on entries by their order,
-- `util.Unique` on entries by their keys, and the order in which PostgreSQL returns rows that a
-- statement leaves unordered.
pub record Outside : Type 0 where
  pub hash : List ℕ → ℕ
  pub sort_and_unique_nids : List ℕ → List ℕ
  pub sort_and_unique_events : List StateEntry → List StateEntry
  pub sort_and_unique_entries : List StateEntry → List StateEntry
  pub unique_by_key : List StateEntry → List StateEntry
  pub returned : List BlockRow → List BlockRow

abbrev pub among : List ℕ → ℕ → Bool
among nids n = any (nat_eq n) nids

-- What a unique column says of a value.
unfoldable pub conflicting_block : ℕ → List BlockRow → Option ℕ
conflicting_block h [] = none
conflicting_block h (r ∷ rs) =
    if nat_eq r.state_block_hash h then some r.state_block_nid else conflicting_block h rs

unfoldable pub conflicting_snapshot : ℕ → List SnapshotRow → Option ℕ
conflicting_snapshot h [] = none
conflicting_snapshot h (r ∷ rs) =
    if nat_eq r.state_snapshot_hash h then some r.state_snapshot_nid else conflicting_snapshot h rs

abbrev pub with_event_nids : ℕ → List ℕ → BlockRow → BlockRow
with_event_nids h nids r = if nat_eq r.state_block_hash h then record r { event_nids = nids } else r

abbrev pub with_room_nid : ℕ → ℕ → SnapshotRow → SnapshotRow
with_room_nid h room r = if nat_eq r.state_snapshot_hash h then record r { room_nid = room } else r

-- The insertion takes a value of the sequence, also when it turns into an update.
abbrev pub upsert_block : Tables → ℕ → List ℕ → Option ℕ → Tables × ℕ
upsert_block t h nids none = (
  record t {
    blocks =
        t.blocks
        ++ (record { state_block_nid = t.next_block_nid; state_block_hash = h; event_nids = nids }
            ∷ []);
    next_block_nid = suc t.next_block_nid;
  },
  t.next_block_nid,
)
upsert_block t h nids (some nid) = (
  record t {
    blocks = map (with_event_nids h nids) t.blocks;
    next_block_nid = suc t.next_block_nid;
  },
  nid,
)

abbrev pub upsert_snapshot : Tables → ℕ → ℕ → List ℕ → Option ℕ → Tables × ℕ
upsert_snapshot t h room nids none = (
  record t {
    snapshots =
        t.snapshots
        ++ (record {
          state_snapshot_nid = t.next_snapshot_nid;
          state_snapshot_hash = h;
          room_nid = room;
          state_block_nids = nids;
        }
            ∷ []);
    next_snapshot_nid = suc t.next_snapshot_nid;
  },
  t.next_snapshot_nid,
)
upsert_snapshot t h room nids (some nid) = (
  record t {
    snapshots = map (with_room_nid h room) t.snapshots;
    next_snapshot_nid = suc t.next_snapshot_nid;
  },
  nid,
)

module _ (o : Outside) where
  unfoldable pub bulk_insert_state_data : Tables → List StateEntry → Tables × ℕ
  bulk_insert_state_data t entries =
      let nids = map (λ e. e.event_nid) (o.sort_and_unique_events entries) in
      upsert_block t (o.hash nids) nids (conflicting_block (o.hash nids) t.blocks)

  unfoldable pub insert_state : Tables → ℕ → List ℕ → Tables × ℕ
  insert_state t room_nid state_block_nids =
      let nids = o.sort_and_unique_nids state_block_nids in
      upsert_snapshot t (o.hash nids) room_nid nids (conflicting_snapshot (o.hash nids) t.snapshots)

  -- The event NIDs of the rows, when there is a row for each NID that was asked for.
  unfoldable pub bulk_select_state_block_entries : Tables → List ℕ → Result Failure (List (List ℕ))
  bulk_select_state_block_entries t nids =
      let rows = o.returned (keep (λ r. among nids r.state_block_nid) t.blocks) in
      if ltb (length nids) (length rows)
      then err panicked
      else (if nat_eq (length rows) (length nids)
          then ok (map (λ r. r.event_nids) rows)
          else err failed)

abbrev pub nid_list : SnapshotRow → StateBlockNidList
nid_list r = record {
  state_snapshot_nid = r.state_snapshot_nid;
  state_block_nids = r.state_block_nids;
}

abbrev pub by_snapshot_nid : SnapshotRow → SnapshotRow → Bool
by_snapshot_nid a b = ltb a.state_snapshot_nid b.state_snapshot_nid

unfoldable pub bulk_select_state_block_nids :
    Tables → List ℕ → Result Failure (List StateBlockNidList)
bulk_select_state_block_nids t nids =
    let rows =
      stable_sort by_snapshot_nid (keep (λ r. among nids r.state_snapshot_nid) t.snapshots) in
    if ltb (length nids) (length rows)
    then err panicked
    else (if nat_eq (length rows) (length nids) then ok (map nid_list rows) else err failed)

-- Without tuples to filter by.
unfoldable pub bulk_select_state_event_by_nid : Tables → List ℕ → List StateEntry
bulk_select_state_event_by_nid t nids =
    stable_sort by_key (keep (λ e. among nids e.event_nid) t.events)
