-- ===== src/LatestEvents/Once.antt =====
-- How often `doUpdateLatestEvents` (roomserver/internal/input/input_latest_events.go) sends an event
-- that is tried again.
use dendrite.Base.{
  ◌≡◌, refl, ap, subst, Bool, true, false, [], ◌∷◌, ◌++◌, err, List, arith, String, inl, inr,
  Bool-cases, Result, ok, >>=-eq-ok, ok_inj, then_branch, else_branch,
}
use dendrite.RoomState.Entries.{StateEntry}
use dendrite.Extremities.Latest.{PreviousEvents}
use dendrite.Storage.Tables.{Failure, failed, Outside, among}
use dendrite.LatestEvents.State.{NewEvent}
use dendrite.LatestEvents.Update.{
  Reads, Database, Batch, Ends, or_rolled_back, sent, prepared, make_output_new_room_event,
  new_latest_of, changed_state, do_update_latest_events,
}
use dendrite.LatestEvents.Effect.{sent_inv, absurd_err}

module _ (reads : Reads) (o : Outside) (is_local_user : String → Bool)
    (resolve : List StateEntry → List StateEntry → Result Failure (List StateEntry)) where
  abbrev WasSent : Database → NewEvent → Type 0
  WasSent db e = among db.sent_to_output e.state_at_event.state_entry.event_nid ≡ true

  prepared-WasSent :
      (previous : PreviousEvents) (db db' : Database) (e : NewEvent) (batch : Batch)
      → prepared reads o is_local_user resolve previous db e ≡ ok (batch, db')
      → WasSent db' e
  prepared-WasSent previous db db' e batch h =
      let p =
        >>=-eq-ok
          (changed_state reads o is_local_user resolve db e (new_latest_of reads previous db e)) _
          h in
      let out =
        >>=-eq-ok
          (make_output_new_room_event reads e db.last_event_sent_nid
            (new_latest_of reads previous db e).0 p.0.0)
          _ p.2 in
      subst (λ q. WasSent q.1 e) (ok_inj out.2) (ground arith)

  pub do_update_latest_events-once :
      (previous later : PreviousEvents) (db db' : Database) (e : NewEvent) (ends ends' : Ends)
      (log log' log'' : List Batch)
      → do_update_latest_events reads o is_local_user resolve previous db e ends log
        ≡ (log', ok db')
      → do_update_latest_events reads o is_local_user resolve later db' e ends' log''
        ≡ (log'', or_rolled_back ends'.is_committed db')
  unfolding do_update_latest_events
  do_update_latest_events-once previous later db db' e ends ends' log log' log'' h =
      elim (Bool-cases (among db.sent_to_output e.state_at_event.state_entry.event_nid)) [
        | inl was ↦
            let same : db ≡ db' =
              kept ends.is_committed db db' (ap (λ r. r.1) (then_branch _ _ was h)) in
            rw (subst (λ d. WasSent d e) same was) refl
        | inr fresh ↦
            let (batch, made, _) =
              sent_inv ends.log_is_written ends.is_committed log log'
                (prepared reads o is_local_user resolve previous db e) db'
                (else_branch _ _ fresh h) in
            rw (prepared-WasSent previous db db' e batch made) refl
      ]
    where
      kept : (c : Bool) (db db' : Database) → or_rolled_back c db ≡ ok db' → db ≡ db'
      kept true db db' e = ok_inj e
      kept false db db' e = elim (absurd_err e) [ ]

  pub do_update_latest_events-twice :
      (previous : PreviousEvents) (db db' : Database) (e : NewEvent) (log log' : List Batch)
      → among db.sent_to_output e.state_at_event.state_entry.event_nid ≡ false
      → do_update_latest_events reads o is_local_user resolve previous db e
          (record { log_is_written = true; is_committed = true })
          log
        ≡ (log', ok db')
      → (batch : Batch) × (do_update_latest_events reads o is_local_user resolve previous db e
            (record { log_is_written = true; is_committed = false })
            log
          ≡ (log ++ (batch ∷ []), err failed))
        × (do_update_latest_events reads o is_local_user resolve previous db e
              (record { log_is_written = true; is_committed = true })
              (log ++ (batch ∷ []))
            ≡ ((log ++ (batch ∷ [])) ++ (batch ∷ []), ok db'))
  unfolding do_update_latest_events
  do_update_latest_events-twice previous db db' e log log' fresh h =
      let (batch, made, _) =
        sent_inv true true log log' (prepared reads o is_local_user resolve previous db e) db'
          (else_branch _ _ fresh h) in
      (
        batch,
        rw fresh (ap (sent true false log) made),
        rw fresh (ap (sent true true (log ++ (batch ∷ []))) made),
      )
