-- ===== src/RoomState/Load.antt =====
-- How `LoadStateAtSnapshot` and `LoadCombinedStateAfterEvents` (roomserver/state/state.go) put the
-- entries of state blocks together, from what the database has returned. `unique` is
-- `util.Unique` of github.com/matrix-org/util on entries compared by their keys. `none` is the
-- panic on a corrupt database.
use dendrite.Base.{
  ℕ, Bool, not, ◌&&◌, List, [], ◌∷◌, ◌++◌, Option, none, some, nat_eq, if◌then◌else◌,
}
use dendrite.Base.Sort.{stable_sort}
use dendrite.RoomState.Entries.{StateEntry, StateAtEvent, by_key}
use dendrite.RoomState.Lookup.{
  StateBlockNidList, StateEntryList, state_block_nids_lookup, state_entries_lookup,
}

abbrev pub and_then {ℓ} : {A B : Type ℓ} → Option A → (A → Option B) → Option B
and_then none f = none
and_then (some a) f = f a

-- The entries of the blocks, in the order of the blocks.
unfoldable pub gather : List StateEntryList → List ℕ → Option (List StateEntry)
gather lists [] = some []
gather lists (nid ∷ nids) =
    and_then (state_entries_lookup nid lists)
      λ entries. and_then (gather lists nids) λ rest. some (entries ++ rest)

-- `IsStateEvent`
abbrev pub is_state_event : StateAtEvent → Bool
is_state_event s = not (nat_eq s.state_entry.key.event_state_key_nid 0)

abbrev pub with_event : StateAtEvent → List StateEntry → List StateEntry
with_event s full =
    if is_state_event s && not s.is_rejected then full ++ (s.state_entry ∷ []) else full

module _ (unique : List StateEntry → List StateEntry) where
  unfoldable pub clobber : List StateEntry → List StateEntry
  clobber full = unique (stable_sort by_key full)

  -- `LoadStateAtSnapshot`, from the snapshot's blocks on.
  unfoldable pub load_state_at_snapshot : List StateEntryList → List ℕ → Option (List StateEntry)
  load_state_at_snapshot lists nids = and_then (gather lists nids) λ full. some (clobber full)

  -- One round of the loop of `LoadCombinedStateAfterEvents`.
  unfoldable pub state_after :
      List StateBlockNidList → List StateEntryList → StateAtEvent → Option (List StateEntry)
  state_after snapshots lists prev_state =
      and_then (state_block_nids_lookup prev_state.before_state_snapshot_nid snapshots)
        λ nids. and_then (gather lists nids) λ full. some (clobber (with_event prev_state full))

  unfoldable pub combined_state_after :
      List StateBlockNidList → List StateEntryList → List StateAtEvent → Option (List StateEntry)
  combined_state_after snapshots lists [] = some []
  combined_state_after snapshots lists (prev_state ∷ prev_states) =
      and_then (state_after snapshots lists prev_state) λ full.
        and_then (combined_state_after snapshots lists prev_states) λ rest. some (full ++ rest)
