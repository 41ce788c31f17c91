-- ===== src/Storage/Calculate.antt =====
-- `LoadStateAtSnapshot`, `LoadCombinedStateAfterEvents`, `CalculateAndStoreStateAfterEvents` and
-- what it calls (roomserver/state/state.go), on the tables. State resolution itself is an argument:
-- it hands the events to gomatrixserverlib.
use dendrite.Base.{
  ℕ, Bool, true, false, not, ◌||◌, List, [], ◌∷◌, ◌++◌, Option, none, some, map, Result, err, ok,
  ◌>>=◌, ltb, nat_eq, if◌then◌else◌, keep, length,
}
use dendrite.RoomState.Entries.{StateEntry, StateAtEvent}
use dendrite.RoomState.Lookup.{StateBlockNidList, state_entry_lookup}
use dendrite.RoomState.Duplicates.{find_duplicate_state_keys}
use dendrite.RoomState.Difference.{Changes, merge}
use dendrite.RoomState.Load.{load_state_at_snapshot, combined_state_after}
use dendrite.Storage.Tables.{Tables, Failure, panicked, Outside}
use dendrite.Storage.Add.{add_state, state_block_nids, state_entries}

-- The panic on a corrupt database.
abbrev pub or_panic : {A : Type 0} → Option A → Result Failure A
or_panic none = err panicked
or_panic (some a) = ok a

-- `maxStateBlockNIDs`
abbrev pub max_state_block_nids : ℕ
max_state_block_nids = 64

-- Whether an entry's key is one of those in conflict.
abbrev pub is_found : Option ℕ → Bool
is_found none = false
is_found (some n) = true

abbrev pub not_conflicted : List StateEntry → List StateEntry → List StateEntry
not_conflicted conflicts combined =
    keep (λ e. not (is_found (state_entry_lookup e.key conflicts))) combined

module _ (o : Outside) where
  -- After the blocks of the one snapshot have been read.
  abbrev pub load_from : Tables → List StateBlockNidList → Result Failure (List StateEntry)
  load_from t [] = err panicked
  load_from t (list ∷ lists) = state_entries o t list.state_block_nids >>= λ entries.
      or_panic (load_state_at_snapshot o.unique_by_key entries list.state_block_nids)

  unfoldable pub load_snapshot : Tables → ℕ → Result Failure (List StateEntry)
  load_snapshot t state_nid = state_block_nids t (state_nid ∷ []) >>= load_from t

  abbrev pub all_block_nids : List StateBlockNidList → List ℕ
  all_block_nids [] = []
  all_block_nids (list ∷ lists) = list.state_block_nids ++ all_block_nids lists

  unfoldable pub load_combined_state_after_events :
      Tables → List StateAtEvent → Result Failure (List StateEntry)
  load_combined_state_after_events t prev_states =
      state_block_nids t
        (o.sort_and_unique_nids (map (λ p. p.before_state_snapshot_nid) prev_states))
      >>= λ lists. state_entries o t (o.sort_and_unique_nids (all_block_nids lists)) >>= λ entries.
          or_panic (combined_state_after o.unique_by_key lists entries prev_states)

  module _ (resolve : List StateEntry → List StateEntry → Result Failure (List StateEntry)) where
    -- Both cases of `calculateStateAfterManyEvents`, from the conflicts on.
    unfoldable pub resolved_state :
        List StateEntry → List StateEntry → Result Failure (List StateEntry)
    resolved_state combined [] = ok combined
    resolved_state combined (c ∷ conflicts) =
        resolve (not_conflicted (c ∷ conflicts) combined) (c ∷ conflicts) >>= λ resolved.
        ok (o.sort_and_unique_entries resolved)

    unfoldable pub calculate_state_after_many_events :
        Tables → List StateAtEvent → Result Failure (List StateEntry)
    calculate_state_after_many_events t prev_states =
        load_combined_state_after_events t prev_states >>= λ loaded.
        let combined = o.sort_and_unique_entries loaded in
        resolved_state combined (find_duplicate_state_keys combined)

    unfoldable pub calculate_and_store_state_after_many_events :
        Tables → ℕ → List StateAtEvent → Result Failure (Tables × ℕ)
    calculate_and_store_state_after_many_events t room_nid prev_states =
        calculate_state_after_many_events t prev_states >>= λ state. add_state o t room_nid [] state

    -- The single previous event is a state event that is not rejected.
    abbrev pub after_state_event :
        Tables → ℕ → StateAtEvent → List StateBlockNidList → Result Failure (Tables × ℕ)
    after_state_event t room_nid prev_state [] = err panicked
    after_state_event t room_nid prev_state (list ∷ lists) =
        if ltb (length list.state_block_nids) max_state_block_nids
        then add_state o t room_nid list.state_block_nids (prev_state.state_entry ∷ [])
        else calculate_and_store_state_after_many_events t room_nid (prev_state ∷ [])

    unfoldable pub calculate_and_store_state_after_events :
        Tables → ℕ → List StateAtEvent → Result Failure (Tables × ℕ)
    calculate_and_store_state_after_events t room_nid [] = add_state o t room_nid [] []
    calculate_and_store_state_after_events t room_nid (prev_state ∷ []) =
        if nat_eq prev_state.state_entry.key.event_state_key_nid 0 || prev_state.is_rejected
        then ok (t, prev_state.before_state_snapshot_nid)
        else (state_block_nids t (prev_state.before_state_snapshot_nid ∷ [])
            >>= after_state_event t room_nid prev_state)
    calculate_and_store_state_after_events t room_nid (p ∷ q ∷ prev_states) =
        calculate_and_store_state_after_many_events t room_nid (p ∷ q ∷ prev_states)

  -- `DifferenceBetweeenStateSnapshots`: 0 stands for no snapshot.
  abbrev pub load_unless_zero : Tables → ℕ → Result Failure (List StateEntry)
  load_unless_zero t state_nid = if nat_eq state_nid 0 then ok [] else load_snapshot t state_nid

  unfoldable pub difference_between_state_snapshots : Tables → ℕ → ℕ → Result Failure Changes
  difference_between_state_snapshots t old_state_nid new_state_nid =
      if nat_eq old_state_nid new_state_nid
      then ok (record { removed = []; added = [] })
      else (load_unless_zero t old_state_nid >>= λ old_entries.
          load_unless_zero t new_state_nid >>= λ new_entries. ok (merge old_entries new_entries))
