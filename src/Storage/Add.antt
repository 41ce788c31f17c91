-- ===== src/Storage/Add.antt =====
-- `AddState`, `StateBlockNIDs` and `StateEntries` (roomserver/storage/shared/storage.go).
use dendrite.Base.{
  ℕ, zero, suc, List, [], ◌∷◌, ◌++◌, Option, none, some, Result, err, ok, ◌>>=◌, nat_eq,
  if◌then◌else◌, get_elem?, length, take, drop,
}
use dendrite.RoomState.Entries.{StateEntry}
use dendrite.RoomState.Lookup.{StateBlockNidList, StateEntryList}
use dendrite.Storage.Tables.{
  Tables, Failure, panicked, Outside, bulk_insert_state_data, insert_state,
  bulk_select_state_block_entries, bulk_select_state_block_nids, bulk_select_state_event_by_nid,
}

-- `append(state[:i], state[i+1:]...)`
abbrev pub remove_at : ℕ → List StateEntry → List StateEntry
remove_at i state = take i state ++ drop (suc i) state

-- A round of the innermost loop: a comparison with `state[i]`, which is out of range when the
-- entry that was taken out was the last one.
abbrev pub compared : ℕ → ℕ → List StateEntry → Option StateEntry → Result Failure (List StateEntry)
compared i event state none = err panicked
compared i event state (some e) = ok (if nat_eq e.event_nid event then remove_at i state else state)

-- The innermost loop, over the events of a block.
unfoldable pub without_events : ℕ → List ℕ → List StateEntry → Result Failure (List StateEntry)
without_events i [] state = ok state
without_events i (event ∷ events) state =
    compared i event state (get_elem? state i) >>= without_events i events

-- The loop over the blocks. An entry that is taken out is not put back: the loops go on.
unfoldable pub without_blocks :
    ℕ → List (List ℕ) → List StateEntry → Result Failure (List StateEntry)
without_blocks i [] state = ok state
without_blocks i (events ∷ blocks) state = without_events i events state >>= without_blocks i blocks

-- The loop over `state` from its end: `n` indexes are left, the highest of them first.
unfoldable pub without_known :
    ℕ → List (List ℕ) → List StateEntry → Result Failure (List StateEntry)
without_known zero blocks state = ok state
without_known (suc n) blocks state = without_blocks n blocks state >>= without_known n blocks

module _ (o : Outside) where
  abbrev pub added_block : Tables → List ℕ → List StateEntry → Tables × List ℕ
  added_block t state_block_nids [] = (t, state_block_nids)
  added_block t state_block_nids (e ∷ state) =
      let inserted = bulk_insert_state_data o t (e ∷ state) in
      (inserted.0, state_block_nids ++ (inserted.1 ∷ []))

  -- The body of the transaction of `AddState`.
  unfoldable pub add_block_and_snapshot : Tables → ℕ → List ℕ → List StateEntry → Tables × ℕ
  add_block_and_snapshot t room_nid state_block_nids state =
      let added = added_block t state_block_nids state in insert_state o added.0 room_nid added.1

  -- The guard of `AddState`: the blocks are read only if there are any.
  unfoldable pub new_state : Tables → List ℕ → List StateEntry → Result Failure (List StateEntry)
  new_state t [] state = ok state
  new_state t (nid ∷ nids) state = bulk_select_state_block_entries o t (nid ∷ nids) >>= λ blocks.
      without_known (length state) blocks state

  unfoldable pub add_state : Tables → ℕ → List ℕ → List StateEntry → Result Failure (Tables × ℕ)
  add_state t room_nid state_block_nids state = new_state t state_block_nids state >>= λ left.
      ok (add_block_and_snapshot t room_nid state_block_nids left)

-- `StateBlockNIDs`
abbrev pub state_block_nids : Tables → List ℕ → Result Failure (List StateBlockNidList)
state_block_nids t state_nids = bulk_select_state_block_nids t state_nids

-- The loop of `StateEntries`: the rows are taken to be in the order of the NIDs.
unfoldable pub entry_lists : Tables → List ℕ → List (List ℕ) → Result Failure (List StateEntryList)
entry_lists t nids [] = ok []
entry_lists t [] (entry ∷ entries) = err panicked
entry_lists t (nid ∷ nids) (entry ∷ entries) = entry_lists t nids entries >>= λ lists. ok (
    record { state_block_nid = nid; state_entries = bulk_select_state_event_by_nid t entry }
    ∷ lists)

unfoldable pub state_entries : Outside → Tables → List ℕ → Result Failure (List StateEntryList)
state_entries o t state_block_nids =
    bulk_select_state_block_entries o t state_block_nids >>= entry_lists t state_block_nids
