-- ===== src/Storage/Preserved.antt =====
-- `AddState` (roomserver/storage/shared/storage.go) and `CalculateAndStoreStateAfterEvents`
-- (roomserver/state/state.go) keep the tables sound.
use dendrite.Base.{
  ℕ, ◌≡◌, subst, Bool, true, false, ◌||◌, List, [], ◌∷◌, ◌++◌, map, arith, ltb, nat_eq,
  if◌then◌else◌, All, inl, inr, Bool-cases, Result, err, ok, >>=-eq-ok, ok_inj, then_branch,
  else_branch, keep, length,
}
use dendrite.Base.Sort.{stable_sort, All-imp, All-stable_sort}
use dendrite.RoomState.Entries.{StateEntry, StateAtEvent}
use dendrite.RoomState.Lookup.{StateBlockNidList}
use dendrite.Storage.Tables.{
  SnapshotRow, Tables, Failure, Outside, among, nid_list, by_snapshot_nid, bulk_insert_state_data,
  bulk_select_state_block_nids,
}
use dendrite.Storage.Add.{add_block_and_snapshot, new_state, add_state}
use dendrite.Storage.Calculate.{
  after_state_event, calculate_state_after_many_events, calculate_and_store_state_after_many_events,
  calculate_and_store_state_after_events, max_state_block_nids,
}
use dendrite.Storage.Sound.{block_nids, IsStored, IsSound, SortsNids, All-append_one}
use dendrite.Storage.Kept.{snapshot_nids, Keeps, bulk_insert_state_data-Keeps, insert_state-Keeps}

-- Sound tables with all the blocks that were there, and a snapshot of the NID.
abbrev pub Stores : Tables → Tables × ℕ → Type 0
Stores t r = Keeps t r.0 × (among (snapshot_nids r.0) r.1 ≡ true)

-- The lists that a selection of snapshots gives.
module _ (t : Tables) where
  keep-IsStored :
      (p : SnapshotRow → Bool) (rows : List SnapshotRow)
      → All (λ r. IsStored t r.state_block_nids) rows
      → All (λ r. IsStored t r.state_block_nids) (keep p rows)
  keep-IsStored p [] h = tt
  keep-IsStored p (r ∷ rows) h = elim (Bool-cases (p r)) [
    | inl e ↦ rw e (h.0, keep-IsStored p rows h.1)
    | inr e ↦ rw e (keep-IsStored p rows h.1)
  ]

  map-nid_list-IsStored :
      (rows : List SnapshotRow)
      → All (λ r. IsStored t r.state_block_nids) rows
      → All (λ l. IsStored t l.state_block_nids) (map nid_list rows)
  map-nid_list-IsStored [] h = tt
  map-nid_list-IsStored (r ∷ rows) h = (h.0, map-nid_list-IsStored rows h.1)

  pub bulk_select_state_block_nids-IsStored :
      (nids : List ℕ) (lists : List StateBlockNidList)
      → IsSound t
      → bulk_select_state_block_nids t nids ≡ ok lists
      → All (λ l. IsStored t l.state_block_nids) lists
  unfolding bulk_select_state_block_nids
  bulk_select_state_block_nids-IsStored nids lists s e =
      let found = keep (λ r. among nids r.state_snapshot_nid) t.snapshots in
      let rows = stable_sort by_snapshot_nid found in
      let stored = map-nid_list-IsStored rows (
        All-stable_sort by_snapshot_nid (λ r. IsStored t r.state_block_nids) found
          (keep-IsStored (λ r. among nids r.state_snapshot_nid) t.snapshots s.2)) in
      selected rows stored (ltb (length nids) (length rows)) (nat_eq (length rows) (length nids)) e
    where
      selected :
          (rows : List SnapshotRow)
          → All (λ l. IsStored t l.state_block_nids) (map nid_list rows)
          → (more same : Bool)
          → (if more
              then err Failure.panicked
              else (if same then ok (map nid_list rows) else err Failure.failed))
            ≡ ok lists
          → All (λ l. IsStored t l.state_block_nids) lists
      selected rows h true same e = ground (arith, e)
      selected rows h false true e = subst (All (λ l. IsStored t l.state_block_nids)) (ok_inj e) h
      selected rows h false false e = ground (arith, e)

module _ (o : Outside) (sorts : SortsNids o) where
  add_block_and_snapshot-Stores :
      (t : Tables) (room_nid : ℕ) (nids : List ℕ) (state : List StateEntry)
      → IsSound t
      → All (λ n. among (block_nids t) n ≡ true) nids
      → Stores t (add_block_and_snapshot o t room_nid nids state)
  unfolding add_block_and_snapshot
  add_block_and_snapshot-Stores t room_nid nids [] s h =
      insert_state-Keeps o sorts t room_nid nids s h
  add_block_and_snapshot-Stores t room_nid nids (e ∷ state) s h =
      let b = bulk_insert_state_data-Keeps o t (e ∷ state) s in
      let t' : Tables = (bulk_insert_state_data o t (e ∷ state)).0 in
      let nid : ℕ = (bulk_insert_state_data o t (e ∷ state)).1 in
      let i = insert_state-Keeps o sorts t' room_nid (nids ++ (nid ∷ [])) b.0.0 (
        All-append_one (λ n. among (block_nids t') n ≡ true) nids nid (All-imp b.0.1 nids h) b.1) in
      ((i.0.0, λ n m. i.0.1 n (b.0.1 n m)), i.1)

  pub add_state-Stores :
      (t : Tables) (room_nid : ℕ) (nids : List ℕ) (state : List StateEntry) (r : Tables × ℕ)
      → IsSound t
      → All (λ n. among (block_nids t) n ≡ true) nids
      → add_state o t room_nid nids state ≡ ok r
      → Stores t r
  unfolding add_state
  add_state-Stores t room_nid nids state r s h e =
      let left =
        >>=-eq-ok (new_state o t nids state) (λ l. ok (add_block_and_snapshot o t room_nid nids l))
          e in
      let same : add_block_and_snapshot o t room_nid nids left.0 ≡ r = ok_inj left.2 in
      subst (Stores t) same (add_block_and_snapshot-Stores t room_nid nids left.0 s h)

  module _ (resolve : List StateEntry → List StateEntry → Result Failure (List StateEntry)) where
    many-Stores :
        (t : Tables) (room_nid : ℕ) (prevs : List StateAtEvent) (r : Tables × ℕ)
        → IsSound t
        → calculate_and_store_state_after_many_events o resolve t room_nid prevs ≡ ok r
        → Stores t r
    unfolding calculate_and_store_state_after_many_events
    many-Stores t room_nid prevs r s e =
        let state =
          >>=-eq-ok (calculate_state_after_many_events o resolve t prevs)
            (λ l. add_state o t room_nid [] l) e in
        add_state-Stores t room_nid [] state.0 r s tt state.2

    after_state_event-Stores :
        (t : Tables) (room_nid : ℕ) (p : StateAtEvent) (lists : List StateBlockNidList)
        (r : Tables × ℕ)
        → IsSound t
        → All (λ l. IsStored t l.state_block_nids) lists
        → after_state_event o resolve t room_nid p lists ≡ ok r
        → Stores t r
    after_state_event-Stores t room_nid p [] r s h e = ground (arith, e)
    after_state_event-Stores t room_nid p (list ∷ lists) r s h e =
        elim (Bool-cases (ltb (length list.state_block_nids) max_state_block_nids)) [
          | inl few ↦
              add_state-Stores t room_nid list.state_block_nids (p.state_entry ∷ []) r s h.0.1
                (then_branch _ _ few e)
          | inr more ↦ many-Stores t room_nid (p ∷ []) r s (else_branch _ _ more e)
        ]

    -- When it returns no error, `CalculateAndStoreStateAfterEvents` on sound tables leaves them
    -- sound, keeps the NIDs of all their blocks, and returns the NID of a snapshot that is there,
    -- provided that the NIDs before the previous events are those of snapshots that are there.
    pub calculate_and_store_state_after_events-Stores :
        (t : Tables) (room_nid : ℕ) (prevs : List StateAtEvent) (r : Tables × ℕ)
        → IsSound t
        → All (λ p. among (snapshot_nids t) p.before_state_snapshot_nid ≡ true) prevs
        → calculate_and_store_state_after_events o resolve t room_nid prevs ≡ ok r
        → Stores t r
    unfolding calculate_and_store_state_after_events
    calculate_and_store_state_after_events-Stores t room_nid [] r s h e =
        add_state-Stores t room_nid [] [] r s tt e
    calculate_and_store_state_after_events-Stores t room_nid (p ∷ []) r s h e =
        elim (Bool-cases (nat_eq p.state_entry.key.event_state_key_nid 0 || p.is_rejected)) [
          | inl same ↦
              let kept : (t, p.before_state_snapshot_nid) ≡ r = ok_inj (then_branch _ _ same e) in
              subst (Stores t) kept ((s, λ n m. m), h.0)
          | inr changed ↦
              let read =
                >>=-eq-ok (bulk_select_state_block_nids t (p.before_state_snapshot_nid ∷ []))
                  (after_state_event o resolve t room_nid p) (else_branch _ _ changed e) in
              after_state_event-Stores t room_nid p read.0 r s
                (bulk_select_state_block_nids-IsStored t (p.before_state_snapshot_nid ∷ []) read.0 s
                  read.1)
                read.2
        ]
    calculate_and_store_state_after_events-Stores t room_nid (p ∷ q ∷ prevs) r s h e =
        many-Stores t room_nid (p ∷ q ∷ prevs) r s e
