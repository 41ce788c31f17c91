-- ===== src/Storage/Snapshot.antt =====
-- `LoadStateAtSnapshot` (roomserver/state/state.go) on sound tables.
use dendrite.Base.{
  ℕ, ◌≡◌, refl, sym, ap, ◌∙◌, subst, List, [], ◌∷◌, some, map, arith, nat_eq, inl, inr, Bool-cases,
  All, ok, length,
}
use dendrite.Base.Sort.{stable_sort, sort_insert}
use dendrite.RoomState.Entries.{StateKeyTuple, StateEntry, find, HasUniqueKeys}
use dendrite.RoomState.Lookup.{first_with}
use dendrite.RoomState.Load.{gather}
use dendrite.RoomState.Combined.{IsUnique, last_event, load_state_at_snapshot-last_event}
use dendrite.Storage.Tables.{
  BlockRow, SnapshotRow, Tables, Outside, nid_list, bulk_select_state_block_entries,
  bulk_select_state_block_nids,
}
use dendrite.Storage.Add.{entry_lists, state_entries}
use dendrite.Storage.Calculate.{load_snapshot}
use dendrite.Storage.Ascending.{map-keep-among}
use dendrite.Storage.Sound.{IsStored, IsSound}
use dendrite.Storage.Loaded.{
  ReturnsAll, labelled, labelled-nids, labelled-event_nids, labelled-Ascends, entries_of-labelled,
  keep-first_with, length-map, entry_list, entries_of, blocks_with, entry_lists-map,
  entry_lists_ascend, entries_found, gather-map,
}

pub All-first_with :
    {A : Type 0} (P : A → Type 0) (id : A → ℕ) (n : ℕ) (l : List A) (a : A)
    → All P l
    → first_with id n l ≡ some a
    → P a
All-first_with P id n [] a h e = ground (arith, e)
All-first_with P id n (x ∷ l) a h e = elim (Bool-cases (nat_eq (id x) n)) [
  | inl t ↦ subst P (ground (arith, t, e)) h.0
  | inr t ↦ All-first_with P id n l a h.1 (ground (arith, t, e))
]

pub bulk_select_state_block_nids-one :
    (t : Tables) (nid : ℕ) (row : SnapshotRow)
    → IsSound t
    → first_with (λ r. r.state_snapshot_nid) nid t.snapshots ≡ some row
    → bulk_select_state_block_nids t (nid ∷ []) ≡ ok (nid_list row ∷ [])
unfolding bulk_select_state_block_nids stable_sort sort_insert
bulk_select_state_block_nids-one t nid row s e =
    rw (keep-first_with (λ r. r.state_snapshot_nid) nid t.snapshots row s.1.0 e) refl

module _ (o : Outside) (all : ReturnsAll o) where
  -- The rows of blocks that are there, as PostgreSQL returns them.
  abbrev pub returned_with : Tables → List ℕ → List BlockRow
  returned_with t nids = o.returned (blocks_with t nids)

  length-returned_with :
      (t : Tables) (nids : List ℕ)
      → IsSound t
      → IsStored t nids
      → length (returned_with t nids) ≡ length nids
  length-returned_with t nids s k =
      let rows : List BlockRow = blocks_with t nids in
      let same = map-keep-among (λ r. r.state_block_nid) nids t.blocks s.0.0 k.0 k.1 in
      all rows ∙ sym (length-map (λ r. r.state_block_nid) rows) ∙ ap length same

  pub bulk_select_state_block_entries-stored :
      (t : Tables) (nids : List ℕ)
      → IsSound t
      → IsStored t nids
      → bulk_select_state_block_entries o t nids
        ≡ ok (map (λ r. r.event_nids) (returned_with t nids))
  unfolding bulk_select_state_block_entries
  bulk_select_state_block_entries-stored t nids s k =
      let size : length (returned_with t nids) ≡ length nids = length-returned_with t nids s k in
      rw size (ground arith)

  pub state_entries-stored :
      (t : Tables) (nids : List ℕ)
      → IsSound t
      → IsStored t nids
      → state_entries o t nids ≡ ok (map (entry_list t) (labelled nids (returned_with t nids)))
  unfolding state_entries
  state_entries-stored t nids s k =
      let rows : List BlockRow = returned_with t nids in
      let size = length-returned_with t nids s k in
      rw (bulk_select_state_block_entries-stored t nids s k) (
        subst (λ l. entry_lists t nids l ≡ ok (map (entry_list t) (labelled nids rows)))
          (labelled-event_nids nids rows size)
          (subst
            (λ l.
              entry_lists t l (map (λ r. r.event_nids) (labelled nids rows))
              ≡ ok (map (entry_list t) (labelled nids rows)))
            (labelled-nids nids rows size) (entry_lists-map t (labelled nids rows))))

  pub gather-stored :
      (t : Tables) (nids : List ℕ)
      → IsSound t
      → IsStored t nids
      → gather (map (entry_list t) (labelled nids (returned_with t nids))) nids
        ≡ some (entries_of t (returned_with t nids))
  gather-stored t nids s k =
      let size = length-returned_with t nids s k in
      let rows : List BlockRow = labelled nids (returned_with t nids) in
      let up = labelled-Ascends nids (returned_with t nids) size k.0 in
      subst (λ l. gather (map (entry_list t) rows) l ≡ some (entries_of t (returned_with t nids)))
        (labelled-nids nids (returned_with t nids) size)
        (gather-map t (map (entry_list t) rows) rows (entry_lists_ascend t rows up)
            (entries_found t rows up)
          ∙ ap (λ l. some l) (entries_of-labelled t nids (returned_with t nids) size))

  module _ (documented : IsUnique o.unique_by_key) where
    -- On sound tables, `LoadStateAtSnapshot` of a snapshot that is there returns no error and does
    -- not panic. The keys of the state ascend strictly, and the event for a key is that of the last
    -- entry for it in the snapshot's blocks, taken in the order in which PostgreSQL returns their
    -- rows, whatever that is, as long as it returns each of them once.
    pub load_snapshot-last_event :
        (t : Tables) (nid : ℕ) (row : SnapshotRow)
        → IsSound t
        → first_with (λ r. r.state_snapshot_nid) nid t.snapshots ≡ some row
        → (state : List StateEntry) × (load_snapshot o t nid ≡ ok state)
          × HasUniqueKeys state
          × ((k : StateKeyTuple)
              → find k state
                ≡ last_event k (entries_of t (o.returned (blocks_with t row.state_block_nids))))
    unfolding load_snapshot
    load_snapshot-last_event t nid row s e =
        let k : IsStored t row.state_block_nids =
          All-first_with (λ r. IsStored t r.state_block_nids) (λ r. r.state_snapshot_nid) nid
            t.snapshots row s.2 e in
        let nids : List ℕ = row.state_block_nids in
        let rows : List BlockRow = labelled nids (returned_with t nids) in
        let loaded =
          load_state_at_snapshot-last_event o.unique_by_key documented (map (entry_list t) rows)
            nids (entries_of t (returned_with t nids)) (gather-stored t nids s k) in
        (
          loaded.0,
          rw
              (
                bulk_select_state_block_nids-one t nid row s e,
                state_entries-stored t nids s k,
                loaded.1,
              )
              refl,
          loaded.2,
          loaded.3,
        )
