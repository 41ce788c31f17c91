-- ===== src/Storage/Unchanged.antt =====
-- What `CalculateAndStoreStateAfterEvents` (roomserver/state/state.go) leaves of the blocks and the
-- snapshots that were stored before (roomserver/storage/postgres/state_block_table.go and
-- state_snapshot_table.go).
use dendrite.Base.{
  ℕ, ◌≡◌, ◌⊎◌, refl, sym, ap, ◌∙◌, subst, true, ◌||◌, List, [], ◌∷◌, ◌++◌, Option, none, some, map,
  arith, ltb, nat_eq, All, inl, inr, Bool-cases, Result, ok, >>=-eq-ok, ok_inj, then_branch,
  else_branch, length, some_inj,
}
use dendrite.RoomState.Entries.{StateEntry, StateAtEvent}
use dendrite.RoomState.Lookup.{StateBlockNidList, first_with}
use dendrite.Storage.Tables.{
  BlockRow, SnapshotRow, Tables, Failure, Outside, among, with_event_nids, with_room_nid,
  upsert_block, upsert_snapshot, bulk_insert_state_data, insert_state, bulk_select_state_block_nids,
}
use dendrite.Storage.Add.{add_block_and_snapshot, new_state, add_state}
use dendrite.Storage.Calculate.{
  after_state_event, calculate_state_after_many_events, calculate_and_store_state_after_many_events,
  calculate_and_store_state_after_events, max_state_block_nids,
}
use dendrite.Storage.Sound.{
  IsSound, SortsNids, All-map, All-append_one, with_event_nids_nid, with_room_nid_nid,
  with_room_nid_nids,
}
use dendrite.Storage.Kept.{snapshot_nids}
use dendrite.Storage.Snapshot.{All-first_with}
use dendrite.Storage.Preserved.{Stores, calculate_and_store_state_after_events-Stores}

module _ {A : Type 0} (id : A → ℕ) where
  first_with-append :
      (n : ℕ) (l m : List A) (a : A)
      → first_with id n l ≡ some a
      → first_with id n (l ++ m) ≡ some a
  first_with-append n [] m a h = ground (arith, h)
  first_with-append n (x ∷ l) m a h = ground (arith, h, first_with-append n l m a)

  first_with-map :
      (f : A → A) (n : ℕ) (l : List A) (a : A)
      → ((x : A) → id (f x) ≡ id x)
      → first_with id n l ≡ some a
      → first_with id n (map f l) ≡ some (f a)
  first_with-map f n [] a same h = ground (arith, h)
  first_with-map f n (x ∷ l) a same h = elim (Bool-cases (nat_eq (id x) n)) [
    | inl e ↦ rw (same x, e) (ap (λ y. some (f y)) (some_inj (then_branch _ _ e h)))
    | inr e ↦ rw (same x, e) (first_with-map f n l a same (else_branch _ _ e h))
  ]

module _ (o : Outside) where
  -- The hash of a block is that of its events.
  abbrev pub IsHashed : BlockRow → Type 0
  IsHashed r = o.hash r.event_nids ≡ r.state_block_hash

  abbrev pub AreHashed : Tables → Type 0
  AreHashed t = All IsHashed t.blocks

  -- Each block is still there under its NID, with events of the same hash.
  abbrev pub KeepsBlocks : Tables → Tables → Type 0
  KeepsBlocks t t' =
      (n : ℕ) (r : BlockRow)
      → first_with (λ b. b.state_block_nid) n t.blocks ≡ some r
      → (r' : BlockRow) × (first_with (λ b. b.state_block_nid) n t'.blocks ≡ some r')
        × (o.hash r'.event_nids ≡ o.hash r.event_nids)

  -- Each snapshot is still there under its NID, with the same blocks.
  abbrev pub KeepsSnapshots : Tables → Tables → Type 0
  KeepsSnapshots t t' =
      (n : ℕ) (r : SnapshotRow)
      → first_with (λ b. b.state_snapshot_nid) n t.snapshots ≡ some r
      → (r' : SnapshotRow) × (first_with (λ b. b.state_snapshot_nid) n t'.snapshots ≡ some r')
        × (r'.state_block_nids ≡ r.state_block_nids)

  abbrev pub Leaves : Tables → Tables → Type 0
  Leaves t t' = AreHashed t' × KeepsBlocks t t' × KeepsSnapshots t t'

  with_event_nids-IsHashed :
      (nids : List ℕ) (r : BlockRow)
      → IsHashed r
      → IsHashed (with_event_nids (o.hash nids) nids r)
        × (o.hash (with_event_nids (o.hash nids) nids r).event_nids ≡ o.hash r.event_nids)
  with_event_nids-IsHashed nids r h = elim (Bool-cases (nat_eq r.state_block_hash (o.hash nids))) [
    | inl e ↦
        let same : o.hash nids ≡ r.state_block_hash = ground (arith, e) in rw e (same, same ∙ sym h)
    | inr e ↦ rw e (h, refl)
  ]

  upsert_block-Leaves :
      (t : Tables) (nids : List ℕ) (found : Option ℕ)
      → AreHashed t
      → Leaves t (upsert_block t (o.hash nids) nids found).0
  upsert_block-Leaves t nids none h = (
    All-append_one IsHashed t.blocks _ h refl,
    λ n r e. (r, first_with-append (λ b. b.state_block_nid) n t.blocks _ r e, refl),
    λ n r e. (r, e, refl),
  )
  upsert_block-Leaves t nids (some nid) h = (
    All-map IsHashed (with_event_nids (o.hash nids) nids) t.blocks
        (λ r k. (with_event_nids-IsHashed nids r k).0) h,
    λ n r e. (
      with_event_nids (o.hash nids) nids r,
      first_with-map (λ b. b.state_block_nid) (with_event_nids (o.hash nids) nids) n t.blocks r
          (with_event_nids_nid (o.hash nids) nids) e,
      (with_event_nids-IsHashed nids r
          (All-first_with IsHashed (λ b. b.state_block_nid) n t.blocks r h e)).1,
    ),
    λ n r e. (r, e, refl),
  )

  upsert_snapshot-Leaves :
      (t : Tables) (h room : ℕ) (nids : List ℕ) (found : Option ℕ)
      → AreHashed t
      → Leaves t (upsert_snapshot t h room nids found).0
  upsert_snapshot-Leaves t h room nids none k = (
    k,
    λ n r e. (r, e, refl),
    λ n r e. (r, first_with-append (λ b. b.state_snapshot_nid) n t.snapshots _ r e, refl),
  )
  upsert_snapshot-Leaves t h room nids (some nid) k = (
    k,
    λ n r e. (r, e, refl),
    λ n r e. (
      with_room_nid h room r,
      first_with-map (λ b. b.state_snapshot_nid) (with_room_nid h room) n t.snapshots r
          (with_room_nid_nid h room) e,
      with_room_nid_nids h room r,
    ),
  )

  Leaves-trans : (t u v : Tables) → Leaves t u → Leaves u v → Leaves t v
  Leaves-trans t u v (_, b, s) (h, b', s') = (
    h,
    λ n r e. let (r', e', q) = b n r e in let (r'', e'', q') = b' n r' e' in (r'', e'', q' ∙ q),
    λ n r e. let (r', e', q) = s n r e in let (r'', e'', q') = s' n r' e' in (r'', e'', q' ∙ q),
  )

  add_block_and_snapshot-Leaves :
      (t : Tables) (room_nid : ℕ) (nids : List ℕ) (state : List StateEntry)
      → AreHashed t
      → Leaves t (add_block_and_snapshot o t room_nid nids state).0
  unfolding add_block_and_snapshot bulk_insert_state_data insert_state
  add_block_and_snapshot-Leaves t room_nid nids [] h = upsert_snapshot-Leaves t _ room_nid _ _ h
  add_block_and_snapshot-Leaves t room_nid nids (e ∷ state) h =
      let b =
        upsert_block-Leaves t (map (λ e. e.event_nid) (o.sort_and_unique_events (e ∷ state))) _ h in
      let u : Tables = (bulk_insert_state_data o t (e ∷ state)).0 in
      Leaves-trans t u (add_block_and_snapshot o t room_nid nids (e ∷ state)).0 b
        (upsert_snapshot-Leaves u _ room_nid _ _ b.0)

  -- The tables are as they were, or have had a snapshot added to them, with a block if there are
  -- entries.
  IsAdded : Tables → ℕ → Tables × ℕ → Type 0
  IsAdded t room_nid r =
      (t ≡ r.0)
      ⊎ ((nids : List ℕ) × (state : List StateEntry) × (add_block_and_snapshot o t room_nid nids
              state
            ≡ r))

  add_state-IsAdded :
      (t : Tables) (room_nid : ℕ) (nids : List ℕ) (state : List StateEntry) (r : Tables × ℕ)
      → add_state o t room_nid nids state ≡ ok r
      → IsAdded t room_nid r
  unfolding add_state IsAdded
  add_state-IsAdded t room_nid nids state r e =
      let left = >>=-eq-ok (new_state o t nids state) _ e in inr (nids, left.0, ok_inj left.2)

  module _ (resolve : List StateEntry → List StateEntry → Result Failure (List StateEntry)) where
    many-IsAdded :
        (t : Tables) (room_nid : ℕ) (prevs : List StateAtEvent) (r : Tables × ℕ)
        → calculate_and_store_state_after_many_events o resolve t room_nid prevs ≡ ok r
        → IsAdded t room_nid r
    unfolding calculate_and_store_state_after_many_events
    many-IsAdded t room_nid prevs r e =
        let state =
          >>=-eq-ok (calculate_state_after_many_events o resolve t prevs)
            (λ l. add_state o t room_nid [] l) e in
        add_state-IsAdded t room_nid [] state.0 r state.2

    after_state_event-IsAdded :
        (t : Tables) (room_nid : ℕ) (p : StateAtEvent) (lists : List StateBlockNidList)
        (r : Tables × ℕ)
        → after_state_event o resolve t room_nid p lists ≡ ok r
        → IsAdded t room_nid r
    after_state_event-IsAdded t room_nid p [] r e = ground (arith, e)
    after_state_event-IsAdded t room_nid p (list ∷ lists) r e =
        elim (Bool-cases (ltb (length list.state_block_nids) max_state_block_nids)) [
          | inl few ↦
              add_state-IsAdded t room_nid list.state_block_nids (p.state_entry ∷ []) r
                (then_branch _ _ few e)
          | inr more ↦ many-IsAdded t room_nid (p ∷ []) r (else_branch _ _ more e)
        ]

    calculate_and_store_state_after_events-IsAdded :
        (t : Tables) (room_nid : ℕ) (prevs : List StateAtEvent) (r : Tables × ℕ)
        → calculate_and_store_state_after_events o resolve t room_nid prevs ≡ ok r
        → IsAdded t room_nid r
    unfolding calculate_and_store_state_after_events IsAdded
    calculate_and_store_state_after_events-IsAdded t room_nid [] r e =
        add_state-IsAdded t room_nid [] [] r e
    calculate_and_store_state_after_events-IsAdded t room_nid (p ∷ []) r e =
        elim (Bool-cases (nat_eq p.state_entry.key.event_state_key_nid 0 || p.is_rejected)) [
          | inl same ↦ inl (ap (λ q. q.0) (ok_inj (then_branch _ _ same e)))
          | inr changed ↦
              let read =
                >>=-eq-ok (bulk_select_state_block_nids t (p.before_state_snapshot_nid ∷ []))
                  (after_state_event o resolve t room_nid p) (else_branch _ _ changed e) in
              after_state_event-IsAdded t room_nid p read.0 r read.2
        ]
    calculate_and_store_state_after_events-IsAdded t room_nid (p ∷ q ∷ prevs) r e =
        many-IsAdded t room_nid (p ∷ q ∷ prevs) r e

    added-Leaves :
        (t : Tables) (room_nid : ℕ) (r : Tables × ℕ)
        → AreHashed t
        → IsAdded t room_nid r
        → Leaves t r.0
    unfolding IsAdded
    added-Leaves t room_nid r h (inl same) =
        subst (Leaves t) same (h, λ n b e. (b, e, refl), λ n b e. (b, e, refl))
    added-Leaves t room_nid r h (inr (nids, state, same)) =
        subst (λ q. Leaves t q.0) same (add_block_and_snapshot-Leaves t room_nid nids state h)

    -- When it returns no error, `CalculateAndStoreStateAfterEvents` on sound tables leaves them
    -- sound; keeps each snapshot under its NID with its list of blocks, and each block under its NID
    -- with events of the same hash; and returns the NID of a snapshot that is there. Sound tables
    -- have ascending NIDs below the next values of their sequences, and snapshots of ascending NIDs
    -- of blocks that are there. The NIDs before the previous events are to be those of snapshots
    -- that are there, and the hash of each block is to be that of its events, which stays so.
    pub calculate_and_store_state_after_events-Leaves :
        (t : Tables) (room_nid : ℕ) (prevs : List StateAtEvent) (r : Tables × ℕ)
        → SortsNids o
        → IsSound t
        → AreHashed t
        → All (λ p. among (snapshot_nids t) p.before_state_snapshot_nid ≡ true) prevs
        → calculate_and_store_state_after_events o resolve t room_nid prevs ≡ ok r
        → Stores t r × Leaves t r.0
    calculate_and_store_state_after_events-Leaves t room_nid prevs r sorts s h there e = (
      calculate_and_store_state_after_events-Stores o sorts resolve t room_nid prevs r s there e,
      added-Leaves t room_nid r h
          (calculate_and_store_state_after_events-IsAdded t room_nid prevs r e),
    )
