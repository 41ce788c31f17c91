-- ===== src/Storage/Sample.antt =====
-- A room with a topic that changes, in the tables of state blocks and snapshots
-- (roomserver/storage/postgres), for the tests.
use dendrite.Base.{ℕ, suc, ◌+◌, ◌*◌, false, List, [], ◌∷◌}
use dendrite.Base.Sort.{stable_sort}
use dendrite.RoomState.Entries.{StateEntry, StateAtEvent, entry_less}
use dendrite.RoomState.Dedupe.{drop_repeated}
use dendrite.Storage.Tables.{BlockRow, SnapshotRow, Tables, Outside}
use dendrite.Storage.Ascending.{distinct, by_id}

abbrev pub digest : List ℕ → ℕ
digest [] = 1
digest (n ∷ nids) = suc n + 100 * digest nids

abbrev pub outside : Outside
outside = record {
  hash = digest;
  sort_and_unique_nids = λ l. distinct (by_id (λ n. n)) (stable_sort (by_id (λ n. n)) l);
  sort_and_unique_events =
      λ l. distinct (by_id (λ e. e.event_nid)) (stable_sort (by_id (λ e. e.event_nid)) l);
  sort_and_unique_entries = λ l. distinct entry_less (stable_sort entry_less l);
  unique_by_key = drop_repeated;
  returned = λ rows. rows;
}

abbrev pub entry : ℕ → ℕ → ℕ → StateEntry
entry t k n = record { key = record { event_type_nid = t; event_state_key_nid = k }; event_nid = n }

abbrev pub create : StateEntry
create = entry 1 1 1

abbrev pub member : StateEntry
member = entry 2 2 2

abbrev pub topic : StateEntry
topic = entry 3 1 3

abbrev pub new_topic : StateEntry
new_topic = entry 3 1 4

abbrev pub block : ℕ → List ℕ → BlockRow
block n nids = record { state_block_nid = n; state_block_hash = digest nids; event_nids = nids }

abbrev pub snapshot : ℕ → List ℕ → SnapshotRow
snapshot n nids = record {
  state_snapshot_nid = n;
  state_snapshot_hash = digest nids;
  room_nid = 7;
  state_block_nids = nids;
}

abbrev pub tables : Tables
tables = record {
  blocks = block 1 (1 ∷ 2 ∷ []) ∷ block 2 (3 ∷ []) ∷ [];
  next_block_nid = 3;
  snapshots = snapshot 1 (1 ∷ []) ∷ snapshot 2 (1 ∷ 2 ∷ []) ∷ [];
  next_snapshot_nid = 3;
  events = create ∷ member ∷ topic ∷ new_topic ∷ [];
}

abbrev pub at : ℕ → StateEntry → StateAtEvent
at n e = record {
  overwrite = false;
  before_state_snapshot_nid = n;
  is_rejected = false;
  state_entry = e;
}
