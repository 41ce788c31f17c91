-- ===== src/Storage/Overwrites.antt =====
-- The quick path of `CalculateAndStoreStateAfterEvents` (roomserver/state/state.go): one state event
-- on top of a short list of blocks.
use dendrite.Base.{
  ℕ, ◌<◌, ◌≡◌, refl, ap, ◌∙◌, true, false, ◌||◌, List, [], ◌∷◌, ◌++◌, none, some, map, arith, ltb,
  nat_eq, Result, ok, length,
}
use dendrite.Base.Sort.{stable_sort, sort_insert}
use dendrite.RoomState.Entries.{StateKeyTuple, StateEntry, StateAtEvent, find, HasUniqueKeys}
use dendrite.RoomState.Lookup.{first_with}
use dendrite.RoomState.Combined.{IsUnique, last_event}
use dendrite.Storage.Tables.{
  SnapshotRow, Tables, Failure, Outside, conflicting_block, conflicting_snapshot,
  bulk_insert_state_data, insert_state,
}
use dendrite.Storage.Add.{add_block_and_snapshot, new_state, add_state}
use dendrite.Storage.Calculate.{
  load_snapshot, calculate_and_store_state_after_events, max_state_block_nids,
}
use dendrite.Storage.Ascending.{
  distinct, by_id, Ascends-snoc, stable_sort-Ascends, distinct-Ascends,
}
use dendrite.Storage.Sound.{IsStored, IsSound, SortsNids}
use dendrite.Storage.Known.{is_known, without_known-new_ones}
use dendrite.Storage.Preserved.{add_state-Stores}
use dendrite.Storage.Loaded.{ReturnsAll, entries_of, blocks_with}
use dendrite.Storage.Snapshot.{
  All-first_with, bulk_select_state_block_nids-one, bulk_select_state_block_entries-stored,
  load_snapshot-last_event,
}
use dendrite.Storage.Delta.{
  SortsEvents, with_new, new_block, keep_with_new, with_delta, All-bounded, first_with-last,
  entries_of-with_delta,
}

-- The entry's event is in none of the blocks, and neither a block of it alone nor a snapshot with
-- that block has been stored before, nor one with the same hash.
abbrev pub IsNewTo : Outside → Tables → List ℕ → StateEntry → Type 0
IsNewTo o t nids e =
    (is_known (map (λ r. r.event_nids) (o.returned (blocks_with t nids))) e ≡ false)
    × (conflicting_block (o.hash (e.event_nid ∷ [])) t.blocks ≡ none)
    × (conflicting_snapshot (o.hash (with_new t nids)) t.snapshots ≡ none)

module _ (o : Outside) (all : ReturnsAll o) (sorts : SortsNids o) (events : SortsEvents o) where
  new_state-new :
      (t : Tables) (nids : List ℕ) (e : StateEntry)
      → IsSound t
      → IsStored t nids
      → is_known (map (λ r. r.event_nids) (o.returned (blocks_with t nids))) e ≡ false
      → new_state o t nids (e ∷ []) ≡ ok (e ∷ [])
  unfolding new_state
  new_state-new t [] e s k h = refl
  new_state-new t (n ∷ nids) e s k h =
      rw
        (
          bulk_select_state_block_entries-stored o all t (n ∷ nids) s k,
          without_known-new_ones (map (λ r. r.event_nids) (o.returned (blocks_with t (n ∷ nids))))
              [] e h,
          h,
        )
        refl

  sorted_with_new :
      (t : Tables) (nids : List ℕ)
      → IsSound t
      → IsStored t nids
      → o.sort_and_unique_nids (with_new t nids) ≡ with_new t nids
  sorted_with_new t nids s k =
      let up = Ascends-snoc (λ n. n) nids t.next_block_nid k.0 (All-bounded t nids s k.1) in
      sorts (with_new t nids)
      ∙ ap (distinct (by_id (λ n. n))) (stable_sort-Ascends (λ n. n) (with_new t nids) up)
      ∙ distinct-Ascends (λ n. n) (with_new t nids) up

  add_state-new :
      (t : Tables) (room_nid : ℕ) (nids : List ℕ) (e : StateEntry)
      → IsSound t
      → IsStored t nids
      → IsNewTo o t nids e
      → add_state o t room_nid nids (e ∷ [])
        ≡ ok (with_delta o t room_nid nids e, t.next_snapshot_nid)
  unfolding add_state add_block_and_snapshot bulk_insert_state_data insert_state
  add_state-new t room_nid nids e s k new =
      let one : o.sort_and_unique_events (e ∷ []) ≡ e ∷ [] =
        events (e ∷ []) ∙ (unfold distinct stable_sort sort_insert in refl) in
      rw (new_state-new t nids e s k new.0, one, new.1, sorted_with_new t nids s k, new.2) refl

  module _ (documented : IsUnique o.unique_by_key)
      (resolve : List StateEntry → List StateEntry → Result Failure (List StateEntry)) where
    -- After one state event that is not rejected, on top of a snapshot of fewer than 64 blocks to
    -- which it is new, `CalculateAndStoreStateAfterEvents` stores a snapshot of which
    -- `LoadStateAtSnapshot` returns, for each key, the last entry for it in the blocks of the old
    -- snapshot and a further block of that event alone, in the order in which PostgreSQL returns
    -- their rows; it returns no error and does not panic. New means that the event is in none of
    -- those blocks, and that neither a block of the event alone nor a snapshot of those blocks, nor
    -- one with the same hash, has been stored before. The tables are to be sound, and PostgreSQL to
    -- return each row once.
    pub calculate_and_store_state_after_events-find :
        (t : Tables) (room_nid : ℕ) (p : StateAtEvent) (row : SnapshotRow)
        → IsSound t
        → first_with (λ r. r.state_snapshot_nid) p.before_state_snapshot_nid t.snapshots ≡ some row
        → length row.state_block_nids < max_state_block_nids
        → (nat_eq p.state_entry.key.event_state_key_nid 0 || p.is_rejected) ≡ false
        → IsNewTo o t row.state_block_nids p.state_entry
        → (r : Tables × ℕ) × (calculate_and_store_state_after_events o resolve t room_nid (p ∷ [])
            ≡ ok r)
          × (state : List StateEntry) × (load_snapshot o r.0 r.1 ≡ ok state)
          × HasUniqueKeys state
          × ((k : StateKeyTuple)
              → find k state
                ≡ last_event k (
                    entries_of t (
                      o.returned (
                        blocks_with t row.state_block_nids ++ (new_block o t p.state_entry ∷ [])))))
    unfolding calculate_and_store_state_after_events
    calculate_and_store_state_after_events-find t room_nid p row s there few is_state new =
        let nids : List ℕ = row.state_block_nids in
        let e : StateEntry = p.state_entry in
        let k : IsStored t nids =
          All-first_with (λ r. IsStored t r.state_block_nids) (λ r. r.state_snapshot_nid)
            p.before_state_snapshot_nid t.snapshots row s.2 there in
        let t' : Tables = with_delta o t room_nid nids e in
        let added = add_state-new t room_nid nids e s k new in
        let sound =
          add_state-Stores o sorts t room_nid nids (e ∷ []) (t', t.next_snapshot_nid) s k.1 added in
        let now =
          load_snapshot-last_event o all documented t' t.next_snapshot_nid _ sound.0.0
            (first_with-last t.next_snapshot_nid t.snapshots _ s.1.1 refl) in
        let short : ltb (length nids) max_state_block_nids ≡ true = ground (arith, few) in
        (
          (t', t.next_snapshot_nid),
          rw
              (
                is_state,
                bulk_select_state_block_nids-one t p.before_state_snapshot_nid row s there,
                short,
              )
              added,
          now.0,
          now.1,
          now.2,
          λ q.
              now.3 q
              ∙ ap (last_event q) (
                  entries_of-with_delta o t room_nid nids e
                    (o.returned (blocks_with t' (with_new t nids)))
                  ∙ ap (λ rows. entries_of t (o.returned rows))
                      (keep_with_new nids t.blocks (new_block o t e) s.0.1)),
        )
