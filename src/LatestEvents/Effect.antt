-- ===== src/LatestEvents/Effect.antt =====
-- What `doUpdateLatestEvents` (roomserver/internal/input/input_latest_events.go) writes.
use dendrite.Base.{
  ℕ, ◌≡◌, refl, sym, ap, subst, Bool, false, not, ◌&&◌, ◌||◌, List, [], ◌∷◌, ◌++◌, map, arith,
  String, ◌==◌, ℕ_eq, List_eq, true, ◌⊎◌, inl, inr, Bool-cases, Result, err, ok, >>=-eq-ok, ok_inj,
  then_branch, else_branch,
}
use dendrite.RoomState.Entries.{StateEntry}
use dendrite.RoomState.Combined.{IsUnique}
use dendrite.Membership.Changes.{
  membership_changes, pair_up_changes, paired, pair_added, pair_removed,
}
use dendrite.Membership.Tables.{Tables as MembershipTables}
use dendrite.Membership.Update.{OutputEvent, bad_membership, panic, Outcome}
use dendrite.Extremities.Latest.{PreviousEvents, StateAtEventAndReference}
use dendrite.Storage.Tables.{Failure, Outside, among}
use dendrite.Storage.Calculate.{
  calculate_and_store_state_after_events, difference_between_state_snapshots,
}
use dendrite.Storage.Changed.{IsDifference, difference_between_state_snapshots-IsDifference}
use dendrite.LatestEvents.Memberships.{update_each, update_memberships}
use dendrite.LatestEvents.State.{
  NewEvent, LatestState, kept_state, before_nids, state_changed, calculated_state, latest_state,
}
use dendrite.LatestEvents.Update.{
  Reads, NewRoomEvent, Database, Batch, Ends, sent, prepared, event_nid_of, update_failed, ids_of,
  extra_events_for_ids, make_output_new_room_event, old_latest_of, old_state_nid_of, new_latest_of,
  changed_state, do_update_latest_events,
}

update_failed-ok :
    (x : Outcome) (m : MembershipTables × List OutputEvent) → update_failed x ≡ ok m → x ≡ ok m
update_failed-ok (ok p) m e = ap (λ q. ok q) (ok_inj e)
update_failed-ok (err bad_membership) m e = ground (arith, e)
update_failed-ok (err panic) m e = ground (arith, e)

pub absurd_err : {A : Type 0} {f : Failure} {a : A} → ◌≡◌ {A = Result Failure A} (err f) (ok a) → ⊥
absurd_err e = cc

pub sent_inv :
    (w c : Bool) (log log' : List Batch) (r : Result Failure (Batch × Database)) (db' : Database)
    → sent w c log r ≡ (log', ok db')
    → (batch : Batch) × (r ≡ ok (batch, db')) × (log' ≡ log ++ (batch ∷ []))
sent_inv w c log log' (err f) db' h = elim (absurd_err (ap (λ p. p.1) h)) [ ]
sent_inv false c log log' (ok (batch, db)) db' h = elim (absurd_err (ap (λ p. p.1) h)) [ ]
sent_inv true false log log' (ok (batch, db)) db' h = elim (absurd_err (ap (λ p. p.1) h)) [ ]
sent_inv true true log log' (ok (batch, db)) db' h =
    (batch, ap (λ d. ok (batch, d)) (ok_inj (ap (λ p. p.1) h)), sym (ap (λ p. p.0) h))

-- Without changes of the state there are none of memberships.
update_memberships_none :
    (is_local_user : String → Bool) (reads : Reads) (room : ℕ) (t : MembershipTables)
    → update_memberships is_local_user reads.member_event room [] [] t ≡ ok (t, [])
unfolding update_memberships update_each membership_changes pair_up_changes paired pair_added
    pair_removed
update_memberships_none is_local_user reads room t = refl

module _ (reads : Reads) (o : Outside) (documented : IsUnique o.unique_by_key)
    (is_local_user : String → Bool)
    (resolve : List StateEntry → List StateEntry → Result Failure (List StateEntry)) where
  -- The latest events have stayed and the state is not rewritten, or the event has no state key and
  -- the snapshots before the latest events are the same set as before.
  abbrev pub IsUnchanged : Database → NewEvent → List StateAtEventAndReference × Bool → Type 0
  IsUnchanged db e latest =
      ((latest.1 || e.rewrites_state) ≡ false)
      ⊎ ((e.has_state_key ≡ false)
          × (o.sort_and_unique_nids (before_nids (old_latest_of reads db e))
              ≡ o.sort_and_unique_nids (before_nids latest.0)))

  -- Nothing that the state depends on has changed and the snapshot has stayed, or the snapshot is
  -- the one after the latest events, and the changes are those from the old snapshot to it, and from
  -- it to the one before the event.
  abbrev pub IsLatestState :
      Database → NewEvent → List StateAtEventAndReference × Bool → LatestState → Type 0
  IsLatestState db e latest s =
      (IsUnchanged db e latest × (s ≡ kept_state db.state e (old_state_nid_of reads db e)))
      ⊎ ((calculate_and_store_state_after_events o resolve db.state e.room_nid
              (map (λ x. x.state_at_event) latest.0)
            ≡ ok (s.tables, s.new_state_nid))
          × IsDifference o documented s.tables (old_state_nid_of reads db e) s.new_state_nid
              s.changes
          × IsDifference o documented s.tables s.new_state_nid
              e.state_at_event.before_state_snapshot_nid s.before_changes)

  same_snapshots :
      (has_state_key : Bool) (old new : List ℕ) {changed : Bool}
      → (not has_state_key && not (not (old == new))) ≡ true
      → ((changed ≡ false) ⊎ ((has_state_key ≡ false) × (old ≡ new)))
  same_snapshots has_state_key old new k =
      inr (ground (arith, k), ((List_eq ⦃x = ℕ_eq⦄).beq_iff old new).0 (ground (arith, k)))

  calculated_state-IsLatestState :
      (db : Database) (e : NewEvent) (latest : List StateAtEventAndReference × Bool)
      (s : LatestState)
      → calculated_state o resolve db.state e (old_state_nid_of reads db e) latest.0 ≡ ok s
      → IsLatestState db e latest s
  unfolding calculated_state
  calculated_state-IsLatestState db e latest s h =
      let stored =
        >>=-eq-ok
          (calculate_and_store_state_after_events o resolve db.state e.room_nid
            (map (λ x. x.state_at_event) latest.0))
          _ h in
      let changes =
        >>=-eq-ok
          (difference_between_state_snapshots o stored.0.0 (old_state_nid_of reads db e) stored.0.1)
          _ stored.2 in
      let before =
        >>=-eq-ok
          (difference_between_state_snapshots o stored.0.0 stored.0.1
            e.state_at_event.before_state_snapshot_nid)
          _ changes.2 in
      subst (IsLatestState db e latest) (ok_inj before.2) (
        inr (
          stored.1,
          difference_between_state_snapshots-IsDifference o documented stored.0.0
              (old_state_nid_of reads db e) stored.0.1 changes.0 changes.1,
          difference_between_state_snapshots-IsDifference o documented stored.0.0 stored.0.1
              e.state_at_event.before_state_snapshot_nid before.0 before.1,
        ))

  latest_state-IsLatestState :
      (db : Database) (e : NewEvent) (latest : List StateAtEventAndReference × Bool)
      (s : LatestState)
      → latest_state o resolve db.state e
          (old_state_nid_of reads db e)
          (old_latest_of reads db e)
          latest.0
        ≡ ok s
      → IsLatestState db e latest s
  unfolding latest_state
  latest_state-IsLatestState db e latest s h =
      elim (Bool-cases (
        not e.has_state_key && not (state_changed o resolve (old_latest_of reads db e) latest.0))) [
          | inl k ↦ inl (
            same_snapshots e.has_state_key
                (o.sort_and_unique_nids (before_nids (old_latest_of reads db e)))
                (o.sort_and_unique_nids (before_nids latest.0)) k,
            sym (ok_inj (then_branch _ _ k h)),
          )
          | inr k ↦ calculated_state-IsLatestState db e latest s (else_branch _ _ k h)
        ]

  -- What an update has written, beside the mark that the event has been sent.
  abbrev pub IsUpdated :
      PreviousEvents → Database → NewEvent → List Batch → Database → List Batch → Type 0
  IsUpdated previous db e log db' log' =
      (s : LatestState) × (invites : List OutputEvent) × (output : NewRoomEvent) × IsLatestState db
        e (new_latest_of reads previous db e) s
      × (update_memberships is_local_user reads.member_event e.room_nid s.changes.removed
            s.changes.added db.memberships
          ≡ ok (db'.memberships, invites))
      × (db'.state_snapshot_nid ≡ s.new_state_nid)
      × (db'.latest_event_nids ≡ map event_nid_of (new_latest_of reads previous db e).0)
      × (log' ≡ log ++ (record { invites = invites; event = output } ∷ []))
      × (output.event_id ≡ e.reference.event_id)
      × (output.adds_state_event_ids ≡ ids_of reads s.changes.added)
      × (output.removes_state_event_ids ≡ ids_of reads s.changes.removed)

  -- The memberships follow the changes of the state.
  abbrev FollowsState :
      Database
      → NewEvent
      → List StateAtEventAndReference × Bool
      → LatestState × (MembershipTables × List OutputEvent)
      → Type 0
  FollowsState db e latest p =
      IsLatestState db e latest p.0
      × (update_memberships is_local_user reads.member_event e.room_nid p.0.changes.removed
            p.0.changes.added db.memberships
          ≡ ok p.1)

  changed_state-FollowsState :
      (db : Database) (e : NewEvent) (latest : List StateAtEventAndReference × Bool)
      (p : LatestState × (MembershipTables × List OutputEvent))
      → changed_state reads o is_local_user resolve db e latest ≡ ok p
      → FollowsState db e latest p
  changed_state-FollowsState db e latest p h = elim (Bool-cases (latest.1 || e.rewrites_state)) [
    | inl k ↦
        let s =
          >>=-eq-ok
            (latest_state o resolve db.state e (old_state_nid_of reads db e)
              (old_latest_of reads db e) latest.0)
            _ (then_branch _ _ k h) in
        let m =
          >>=-eq-ok
            (update_failed (
              update_memberships is_local_user reads.member_event e.room_nid s.0.changes.removed
                s.0.changes.added db.memberships))
            _ s.2 in
        subst (FollowsState db e latest) (ok_inj m.2) (
          latest_state-IsLatestState db e latest s.0 s.1,
          update_failed-ok
              (update_memberships is_local_user reads.member_event e.room_nid s.0.changes.removed
                s.0.changes.added db.memberships)
              m.0 m.1,
        )
    | inr k ↦
        subst (FollowsState db e latest) (ok_inj (else_branch _ _ k h))
          (inl (inl k, refl), update_memberships_none is_local_user reads e.room_nid db.memberships)
  ]

  pub do_update_latest_events-IsUpdated :
      (previous : PreviousEvents) (db db' : Database) (e : NewEvent) (ends : Ends)
      (log log' : List Batch)
      → among db.sent_to_output e.state_at_event.state_entry.event_nid ≡ false
      → do_update_latest_events reads o is_local_user resolve previous db e ends log
        ≡ (log', ok db')
      → IsUpdated previous db e log db' log'
  unfolding do_update_latest_events make_output_new_room_event
  do_update_latest_events-IsUpdated previous db db' e ends log log' fresh h =
      let latest = new_latest_of reads previous db e in
      let (batch, made, logged) =
        sent_inv ends.log_is_written ends.is_committed log log'
          (prepared reads o is_local_user resolve previous db e) db' (else_branch _ _ fresh h) in
      let p = >>=-eq-ok (changed_state reads o is_local_user resolve db e latest) _ made in
      let f = changed_state-FollowsState db e latest p.0 p.1 in
      let out =
        >>=-eq-ok (make_output_new_room_event reads e db.last_event_sent_nid latest.0 p.0.0) _
          p.2 in
      let bodies =
        >>=-eq-ok
          (extra_events_for_ids reads e.reference.event_id (ids_of reads p.0.0.changes.added)) _
          out.1 in
      let output = ok_inj bodies.2 in
      let both = ok_inj out.2 in
      subst (λ l. IsUpdated previous db e log db' l) (sym logged)
        (subst (λ q. IsUpdated previous db e log q.1 (log ++ (q.0 ∷ []))) both
          (
            p.0.0,
            p.0.1.1,
            out.0,
            f.0,
            f.1,
            refl,
            refl,
            refl,
            sym (ap (λ x. x.event_id) output),
            sym (ap (λ x. x.adds_state_event_ids) output),
            sym (ap (λ x. x.removes_state_event_ids) output),
          ))
