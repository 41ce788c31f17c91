-- ===== src/Storage/Delta.antt =====
-- The tables after `AddState` (roomserver/storage/shared/storage.go) has put a block of one new
-- event on top of a snapshot.
use dendrite.Base.{
  ℕ, suc, ◌<◌, ◌≡◌, refl, ap, true, ◌||◌, List, [], ◌∷◌, ◌++◌, some, map, arith, nat_eq, inl, inr,
  Bool-cases, All, keep,
}
use dendrite.Base.Sort.{stable_sort, All-imp}
use dendrite.RoomState.Entries.{StateEntry}
use dendrite.RoomState.Lookup.{first_with}
use dendrite.Storage.Tables.{
  BlockRow, SnapshotRow, Tables, Outside, among, bulk_select_state_event_by_nid,
}
use dendrite.Storage.Ascending.{distinct, by_id}
use dendrite.Storage.Sound.{block_nids, IsSound}
use dendrite.Storage.Loaded.{entries_of}

-- What `util.SortAndUnique` is documented to do with entries compared by their events.
abbrev pub SortsEvents : Outside → Type 0
SortsEvents o =
    (l : List StateEntry)
    → o.sort_and_unique_events l
      ≡ distinct (by_id (λ e. e.event_nid)) (stable_sort (by_id (λ e. e.event_nid)) l)

abbrev pub new_block : Outside → Tables → StateEntry → BlockRow
new_block o t e = record {
  state_block_nid = t.next_block_nid;
  state_block_hash = o.hash (e.event_nid ∷ []);
  event_nids = e.event_nid ∷ [];
}

abbrev pub with_new : Tables → List ℕ → List ℕ
with_new t nids = nids ++ (t.next_block_nid ∷ [])

abbrev pub new_snapshot : Outside → Tables → ℕ → List ℕ → SnapshotRow
new_snapshot o t room_nid nids = record {
  state_snapshot_nid = t.next_snapshot_nid;
  state_snapshot_hash = o.hash (with_new t nids);
  room_nid = room_nid;
  state_block_nids = with_new t nids;
}

abbrev pub with_delta : Outside → Tables → ℕ → List ℕ → StateEntry → Tables
with_delta o t room_nid nids e = record t {
  blocks = t.blocks ++ (new_block o t e ∷ []);
  next_block_nid = suc t.next_block_nid;
  snapshots = t.snapshots ++ (new_snapshot o t room_nid nids ∷ []);
  next_snapshot_nid = suc t.next_snapshot_nid;
}

among_bounded :
    (l : List BlockRow) (k n : ℕ)
    → All (λ r. r.state_block_nid < k) l
    → among (map (λ r. r.state_block_nid) l) n ≡ true
    → n < k
among_bounded [] k n h m = ground (arith, m)
among_bounded (r ∷ l) k n h m = elim (Bool-cases (nat_eq n r.state_block_nid)) [
  | inl e ↦ ground (arith, e, h.0)
  | inr e ↦ among_bounded l k n h.1 (ground (arith, e, m))
]

pub All-bounded :
    (t : Tables) (nids : List ℕ)
    → IsSound t
    → All (λ n. among (block_nids t) n ≡ true) nids
    → All (λ n. n < t.next_block_nid) nids
All-bounded t nids s h = All-imp (λ n m. among_bounded t.blocks t.next_block_nid n s.0.1 m) nids h

pub first_with-last :
    (n : ℕ) (l : List SnapshotRow) (r : SnapshotRow)
    → All (λ x. x.state_snapshot_nid < n) l
    → r.state_snapshot_nid ≡ n
    → first_with (λ x. x.state_snapshot_nid) n (l ++ (r ∷ [])) ≡ some r
first_with-last n [] r h e = ground (arith, e)
first_with-last n (x ∷ l) r h e = ground (arith, h.0, first_with-last n l r h.1 e)

among-append : (a b : List ℕ) (n : ℕ) → among (a ++ b) n ≡ (among a n || among b n)
among-append [] b n = refl
among-append (x ∷ a) b n = ground (arith, among-append a b n)

-- The rows of the blocks and, at the end, the row of the new block.
pub keep_with_new :
    (nids : List ℕ) (l : List BlockRow) (new : BlockRow)
    → All (λ r. r.state_block_nid < new.state_block_nid) l
    → keep (λ r. among (nids ++ (new.state_block_nid ∷ [])) r.state_block_nid) (l ++ (new ∷ []))
      ≡ keep (λ r. among nids r.state_block_nid) l ++ (new ∷ [])
keep_with_new nids [] new h =
    let there : among (nids ++ (new.state_block_nid ∷ [])) new.state_block_nid ≡ true =
      ground (arith, among-append nids (new.state_block_nid ∷ []) new.state_block_nid) in
    rw there refl
keep_with_new nids (r ∷ l) new h =
    let same : among (nids ++ (new.state_block_nid ∷ [])) r.state_block_nid
        ≡ among nids r.state_block_nid =
      ground (arith, h.0, among-append nids (new.state_block_nid ∷ []) r.state_block_nid) in
    elim (Bool-cases (among nids r.state_block_nid)) [
      | inl e ↦ rw (same, e) (ap (◌∷◌ r) (keep_with_new nids l new h.1))
      | inr e ↦ rw (same, e) (keep_with_new nids l new h.1)
    ]

pub entries_of-with_delta :
    (o : Outside) (t : Tables) (room_nid : ℕ) (nids : List ℕ) (e : StateEntry)
    (rows : List BlockRow)
    → entries_of (with_delta o t room_nid nids e) rows ≡ entries_of t rows
unfolding bulk_select_state_event_by_nid
entries_of-with_delta o t room_nid nids e [] = refl
entries_of-with_delta o t room_nid nids e (r ∷ rows) =
    ap (◌++◌ (bulk_select_state_event_by_nid t r.event_nids))
      (entries_of-with_delta o t room_nid nids e rows)
