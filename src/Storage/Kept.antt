-- ===== src/Storage/Kept.antt =====
-- The insertions into the tables of state blocks and snapshots, and `AddState` on top of them
-- (roomserver/storage/shared/storage.go), keep the tables sound.
use dendrite.Base.{
  ℕ, suc, ◌<◌, ◌≡◌, refl, sym, subst, true, List, [], ◌∷◌, ◌++◌, Option, none, some, map, arith,
  All,
}
use dendrite.Base.Sort.{stable_sort, All-imp, All-stable_sort}
use dendrite.RoomState.Entries.{StateEntry}
use dendrite.Storage.Tables.{
  BlockRow, SnapshotRow, Tables, Outside, among, conflicting_block, conflicting_snapshot,
  with_event_nids, with_room_nid, upsert_block, upsert_snapshot, bulk_insert_state_data,
  insert_state,
}
use dendrite.Storage.Ascending.{
  All-distinct, by_id, Ascends-snoc, distinct-sorted_Ascends, stable_sort-by_id-IsSorted,
}
use dendrite.Storage.Sound.{
  block_nids, IsStored, IsSound, SortsNids, All-map, All-append_one, map-same, Ascends-map,
  among-map_append, with_event_nids_nid, with_room_nid_nid, with_room_nid_nids,
  conflicting_block-among, conflicting_snapshot-among,
}

abbrev pub snapshot_nids : Tables → List ℕ
snapshot_nids t = map (λ r. r.state_snapshot_nid) t.snapshots

among_more :
    (l : List BlockRow) (r : BlockRow) (n : ℕ)
    → among (map (λ b. b.state_block_nid) l) n ≡ true
    → among (map (λ b. b.state_block_nid) (l ++ (r ∷ []))) n ≡ true
among_more l r n h = rw (among-map_append (λ b. b.state_block_nid) l (r ∷ []) n, h) refl

among_last :
    (l : List BlockRow) (r : BlockRow)
    → among (map (λ b. b.state_block_nid) (l ++ (r ∷ []))) r.state_block_nid ≡ true
among_last l r =
    ground (arith, among-map_append (λ b. b.state_block_nid) l (r ∷ []) r.state_block_nid)

-- What a step leaves: sound tables, with all the blocks that were there.
abbrev pub Keeps : Tables → Tables → Type 0
Keeps t t' = IsSound t' × ((n : ℕ) → among (block_nids t) n ≡ true → among (block_nids t') n ≡ true)

snapshots_kept :
    (t t' : Tables) (rows : List SnapshotRow)
    → ((n : ℕ) → among (block_nids t) n ≡ true → among (block_nids t') n ≡ true)
    → All (λ r. IsStored t r.state_block_nids) rows
    → All (λ r. IsStored t' r.state_block_nids) rows
snapshots_kept t t' rows more h = All-imp (λ r s. (s.0, All-imp more r.state_block_nids s.1)) rows h

upsert_block-Keeps :
    (t : Tables) (h : ℕ) (nids : List ℕ) (found : Option ℕ)
    → conflicting_block h t.blocks ≡ found
    → IsSound t
    → Keeps t (upsert_block t h nids found).0
      × (among (block_nids (upsert_block t h nids found).0) (upsert_block t h nids found).1 ≡ true)
upsert_block-Keeps t h nids none e s =
    let row : BlockRow = record {
      state_block_nid = t.next_block_nid;
      state_block_hash = h;
      event_nids = nids;
    } in
    let t' : Tables = (upsert_block t h nids none).0 in
    let more : (n : ℕ) → among (block_nids t) n ≡ true → among (block_nids t') n ≡ true =
      among_more t.blocks row in
    (
      (
        (
          (
            Ascends-snoc (λ r. r.state_block_nid) t.blocks row s.0.0 s.0.1,
            All-append_one (λ r. r.state_block_nid < suc t.next_block_nid) t.blocks row
                (All-imp (λ r q. omega (arith, q)) t.blocks s.0.1) (omega arith),
          ),
          s.1,
          snapshots_kept t t' t.snapshots more s.2,
        ),
        more,
      ),
      among_last t.blocks row,
    )
upsert_block-Keeps t h nids (some nid) e s =
    let change = with_event_nids h nids in
    let t' : Tables = (upsert_block t h nids (some nid)).0 in
    let same : block_nids t' ≡ block_nids t =
      map-same (λ r. r.state_block_nid) change t.blocks (with_event_nids_nid h nids) in
    let more : (n : ℕ) → among (block_nids t) n ≡ true → among (block_nids t') n ≡ true =
      λ n m. subst (λ l. among l n ≡ true) (sym same) m in
    (
      (
        (
          (
            Ascends-map (λ r. r.state_block_nid) change t.blocks (with_event_nids_nid h nids) s.0.0,
            All-map (λ r. r.state_block_nid < suc t.next_block_nid) change t.blocks
                (λ r q. omega (arith, q, with_event_nids_nid h nids r))
                (All-imp (λ r q. omega (arith, q)) t.blocks s.0.1),
          ),
          s.1,
          snapshots_kept t t' t.snapshots more s.2,
        ),
        more,
      ),
      more nid (conflicting_block-among h t.blocks nid e),
    )

snapshots_last :
    (l : List SnapshotRow) (r : SnapshotRow)
    → among (map (λ b. b.state_snapshot_nid) (l ++ (r ∷ []))) r.state_snapshot_nid ≡ true
snapshots_last l r =
    ground (arith, among-map_append (λ b. b.state_snapshot_nid) l (r ∷ []) r.state_snapshot_nid)

upsert_snapshot-Keeps :
    (t : Tables) (h room : ℕ) (nids : List ℕ) (found : Option ℕ)
    → conflicting_snapshot h t.snapshots ≡ found
    → IsSound t
    → IsStored t nids
    → Keeps t (upsert_snapshot t h room nids found).0
      × (among
            (snapshot_nids (upsert_snapshot t h room nids found).0)
            (upsert_snapshot t h room nids found).1
          ≡ true)
upsert_snapshot-Keeps t h room nids none e s k =
    let row : SnapshotRow = record {
      state_snapshot_nid = t.next_snapshot_nid;
      state_snapshot_hash = h;
      room_nid = room;
      state_block_nids = nids;
    } in
    (
      (
        (
          s.0,
          (
            Ascends-snoc (λ r. r.state_snapshot_nid) t.snapshots row s.1.0 s.1.1,
            All-append_one (λ r. r.state_snapshot_nid < suc t.next_snapshot_nid) t.snapshots row
                (All-imp (λ r q. omega (arith, q)) t.snapshots s.1.1) (omega arith),
          ),
          All-append_one (λ r. IsStored t r.state_block_nids) t.snapshots row s.2 k,
        ),
        λ n m. m,
      ),
      snapshots_last t.snapshots row,
    )
upsert_snapshot-Keeps t h room nids (some nid) e s k =
    let change = with_room_nid h room in
    let same = map-same (λ r. r.state_snapshot_nid) change t.snapshots (with_room_nid_nid h room) in
    (
      (
        (
          s.0,
          (
            Ascends-map (λ r. r.state_snapshot_nid) change t.snapshots (with_room_nid_nid h room)
                s.1.0,
            All-map (λ r. r.state_snapshot_nid < suc t.next_snapshot_nid) change t.snapshots
                (λ r q. omega (arith, q, with_room_nid_nid h room r))
                (All-imp (λ r q. omega (arith, q)) t.snapshots s.1.1),
          ),
          All-map (λ r. IsStored t r.state_block_nids) change t.snapshots
              (λ r q. subst (IsStored t) (sym (with_room_nid_nids h room r)) q) s.2,
        ),
        λ n m. m,
      ),
      subst (λ l. among l nid ≡ true) (sym same) (conflicting_snapshot-among h t.snapshots nid e),
    )

pub bulk_insert_state_data-Keeps :
    (o : Outside) (t : Tables) (entries : List StateEntry)
    → IsSound t
    → Keeps t (bulk_insert_state_data o t entries).0
      × (among
            (block_nids (bulk_insert_state_data o t entries).0)
            (bulk_insert_state_data o t entries).1
          ≡ true)
unfolding bulk_insert_state_data
bulk_insert_state_data-Keeps o t entries s =
    upsert_block-Keeps t _ _ (conflicting_block _ t.blocks) refl s

module _ (o : Outside) (sorts : SortsNids o) where
  pub sorted-IsStored :
      (t : Tables) (nids : List ℕ)
      → All (λ n. among (block_nids t) n ≡ true) nids
      → IsStored t (o.sort_and_unique_nids nids)
  sorted-IsStored t nids h =
      let there : ℕ → Type 0 = λ n. among (block_nids t) n ≡ true in
      subst (IsStored t) (sym (sorts nids)) (
        distinct-sorted_Ascends (λ n. n) (stable_sort (by_id (λ n. n)) nids)
            (stable_sort-by_id-IsSorted (λ n. n) nids),
        All-distinct (by_id (λ n. n)) there (stable_sort (by_id (λ n. n)) nids)
            (All-stable_sort (by_id (λ n. n)) there nids h),
      )

  pub insert_state-Keeps :
      (t : Tables) (room_nid : ℕ) (nids : List ℕ)
      → IsSound t
      → All (λ n. among (block_nids t) n ≡ true) nids
      → Keeps t (insert_state o t room_nid nids).0
        × (among
              (snapshot_nids (insert_state o t room_nid nids).0)
              (insert_state o t room_nid nids).1
            ≡ true)
  unfolding insert_state
  insert_state-Keeps t room_nid nids s h =
      upsert_snapshot-Keeps t _ room_nid _ (conflicting_snapshot _ t.snapshots) refl s
        (sorted-IsStored t nids h)
