-- ===== src/Backfill/Shown.antt =====
-- What `ScanEventTree` (roomserver/internal/helpers/helpers.go) returns.
use dendrite.Base.{
  ℕ, zero, suc, ◌≤◌, ◌≡◌, refl, ap, Bool, true, false, List, [], ◌∷◌, Option, none, some, arith,
  String, String_eq, ◌==◌, Result, err, ok, ◌>>=◌, nat_eq, length, length-append, All, ◌⊎◌, inl,
  inr, Bool-cases, Option-cases, subst, ==_refl,
}
use dendrite.Base.Sort.{All-imp}
use dendrite.Backfill.Scan.{
  Event, Walk, seen, Returned, was_checked, is_in_room, note, visit, visit_all, with_result,
  process, process_all, after_read, or_go_on, scan_from, scan_event_tree,
}
use dendrite.Backfill.Holds.{AnswersAsked, All-append, All-seen, Holds, bind-Holds, some_inj}

module _ (events_from_ids : List String → Option (List Event)) (in_room_now : String → Option Bool)
    (allowed_to_see : Bool → String → Option Bool) (front ignored : List String) (limit : ℕ) where
  -- What the check says of the server and the room of the first event of an answer of the database;
  -- a check that fails says that the server is not in the room.
  abbrev pub IsAnswer : Bool → Type 0
  IsAnswer b =
      (ids : List String) × (ev : Event) × (events : List Event) × (events_from_ids ids
        ≡ some (ev ∷ events))
      × (is_in_room (in_room_now ev.room_id) ≡ b)

  -- The server named the ID itself, or is allowed to see the event, given whether it is in the room.
  abbrev pub IsEntitled : String → Type 0
  IsEntitled id =
      (seen front id ≡ true) ⊎ ((b : Bool) × IsAnswer b × (allowed_to_see b id ≡ some true))

  abbrev pub IsShown : ℕ → Type 0
  IsShown nid =
      (ev : Event) × (ev.event_nid ≡ nid)
      × (seen ignored ev.event_id ≡ false)
      × IsEntitled ev.event_id

  abbrev IsFair : Walk → Type 0
  IsFair w = All IsShown w.result_nids × (length w.result_nids ≤ limit) × All IsEntitled w.next

  note-IsFair :
      (in_room : Bool) (pre : String) (w : Walk) (answer : Option Bool)
      → IsAnswer in_room
      → allowed_to_see in_room pre ≡ answer
      → IsFair w
      → Holds IsFair (note pre w answer)
  note-IsFair in_room pre w none a e h = h
  note-IsFair in_room pre w (some true) a e h =
      (h.0, h.1, All-append IsEntitled w.next pre h.2 (inr (in_room, a, e)))
  note-IsFair in_room pre w (some false) a e h = h

  visit-IsFair :
      (in_room : Bool) (pre : String) (w : Walk)
      → IsAnswer in_room
      → IsFair w
      → Holds IsFair (visit allowed_to_see ignored limit in_room pre w)
  unfolding visit
  visit-IsFair in_room pre w a h = elim (Bool-cases (seen w.visited pre)) [
    | inl e ↦ rw e h
    | inr e ↦ rw e (
        note-IsFair in_room pre (record w { visited = pre ∷ w.visited })
          (allowed_to_see in_room pre) a refl h)
  ]

  visit_all-IsFair :
      (in_room : Bool) (prevs : List String) (w : Walk)
      → IsAnswer in_room
      → IsFair w
      → Holds IsFair (visit_all allowed_to_see ignored limit in_room prevs w)
  unfolding visit_all
  visit_all-IsFair in_room [] w a h = h
  visit_all-IsFair in_room (pre ∷ prevs) w a h =
      bind-Holds IsFair (visit allowed_to_see ignored limit in_room pre w)
        (visit_all allowed_to_see ignored limit in_room prevs) (visit-IsFair in_room pre w a h)
        (λ v q. visit_all-IsFair in_room prevs v a q)

  with_result-IsFair :
      (ev : Event) (w : Walk)
      → IsEntitled ev.event_id
      → nat_eq (length w.result_nids) limit ≡ false
      → IsFair w
      → IsFair (with_result allowed_to_see ignored limit ev w)
  with_result-IsFair ev w k n h = elim (Bool-cases (seen ignored ev.event_id)) [
    | inl e ↦ rw e h
    | inr e ↦ rw e (
      All-append IsShown w.result_nids ev.event_nid h.0 (ev, refl, e, k),
      ground (arith, n, h.1, length-append w.result_nids (ev.event_nid ∷ [])),
      h.2,
    )
  ]

  process-IsFair :
      (in_room : Bool) (ev : Event) (w : Walk)
      → IsAnswer in_room
      → IsEntitled ev.event_id
      → IsFair w
      → Holds IsFair (process allowed_to_see ignored limit in_room ev w)
  unfolding process
  process-IsFair in_room ev w a k h = elim (Bool-cases (nat_eq (length w.result_nids) limit)) [
    | inl e ↦ rw e h
    | inr e ↦ rw e (
        visit_all-IsFair in_room ev.prev_event_ids (with_result allowed_to_see ignored limit ev w) a
          (with_result-IsFair ev w k e h))
  ]

  -- The check has been made, if there are events.
  abbrev AnsweredFor : Bool → List Event → Type 0
  AnsweredFor b [] = Unit
  AnsweredFor b (ev ∷ events) = IsAnswer b

  AnsweredFor-rest : (b : Bool) (events : List Event) → IsAnswer b → AnsweredFor b events
  AnsweredFor-rest b [] a = tt
  AnsweredFor-rest b (ev ∷ events) a = a

  -- What is known of the check so far.
  abbrev AnsweredAs : Option Bool → Type 0
  AnsweredAs none = Unit
  AnsweredAs (some b) = IsAnswer b

  was_checked-AnsweredAs :
      (checked : Option Bool) (events : List Event) (w : Walk) (asked : List String)
      → events_from_ids asked ≡ some events
      → AnsweredAs checked
      → AnsweredAs (was_checked in_room_now checked events w).0
        × AnsweredFor (is_in_room (was_checked in_room_now checked events w).0) events
  was_checked-AnsweredAs (some b) events w asked e a = (a, AnsweredFor-rest b events a)
  was_checked-AnsweredAs none [] w asked e a = (tt, tt)
  was_checked-AnsweredAs none (ev ∷ events) w asked e a =
      elim (Option-cases (in_room_now ev.room_id)) [
        | inl f ↦ let it : IsAnswer false = (asked, ev, events, e, ap is_in_room f) in rw f (it, it)
        | inr (b, f) ↦
            let it : IsAnswer b = (asked, ev, events, e, ap is_in_room f) in rw f (it, it)
      ]

  process_all-IsFair :
      (in_room : Bool) (events : List Event) (w : Walk)
      → AnsweredFor in_room events
      → All (λ ev. IsEntitled ev.event_id) events
      → IsFair w
      → Holds IsFair (process_all allowed_to_see ignored limit in_room events w)
  unfolding process_all
  process_all-IsFair in_room [] w a k h = h
  process_all-IsFair in_room (ev ∷ events) w a k h =
      bind-Holds IsFair (process allowed_to_see ignored limit in_room ev w)
        (process_all allowed_to_see ignored limit in_room events)
        (process-IsFair in_room ev w a k.0 h)
        (λ v q. process_all-IsFair in_room events v (AnsweredFor-rest in_room events a) k.1 q)

  -- What a list of results has to be.
  abbrev pub AreShown : List ℕ → Type 0
  AreShown nids = All IsShown nids × (length nids ≤ limit)

  after_round :
      (flag : Option Bool) (r : Result Returned Walk) (rest : Option Bool × Walk → Option Returned)
      (x : Returned)
      → Holds IsFair r
      → ((w : Walk) → IsFair w → rest (flag, w) ≡ some x → AreShown x.0.result_nids)
      → or_go_on (r >>= λ after. ok (flag, after)) rest ≡ some x
      → AreShown x.0.result_nids
  after_round flag (err y) rest x h g e =
      let same : y ≡ x = some_inj e in subst (λ z. AreShown z.0.result_nids) same (h.0, h.1)
  after_round flag (ok w) rest x h g e = g w h e

  was_checked-IsFair :
      (checked : Option Bool) (events : List Event) (w : Walk)
      → IsFair w
      → IsFair (was_checked in_room_now checked events w).1
  was_checked-IsFair (some b) events w h = h
  was_checked-IsFair none [] w h = h
  was_checked-IsFair none (ev ∷ events) w h = elim (Option-cases (in_room_now ev.room_id)) [
    | inl e ↦ rw e h
    | inr (b, e) ↦ rw e h
  ]

  module _ (answers : AnswersAsked events_from_ids) where
    round-AreShown :
        (checked : Option Bool) (asked : List String) (w : Walk) (answer : Option (List Event))
        (rest : Option Bool × Walk → Option Returned) (x : Returned)
        → events_from_ids asked ≡ answer
        → All IsEntitled asked
        → IsFair w
        → AnsweredAs checked
        → ((p : Option Bool × Walk)
            → IsFair p.1
            → AnsweredAs p.0
            → rest p ≡ some x
            → AreShown x.0.result_nids)
        → or_go_on
            (after_read allowed_to_see ignored limit events_from_ids in_room_now checked w answer)
            rest
          ≡ some x
        → AreShown x.0.result_nids
    round-AreShown checked asked w none rest x a k h u g e =
        subst (λ z. AreShown z.0.result_nids) (some_inj e) (h.0, h.1)
    round-AreShown checked asked w (some events) rest x a k h u g e =
        let c = was_checked in_room_now checked events (record w { has_error = false }) in
        let known =
          was_checked-AnsweredAs checked events (record w { has_error = false }) asked a u in
        after_round c.0 (process_all allowed_to_see ignored limit (is_in_room c.0) events c.1) rest
          x
          (process_all-IsFair (is_in_room c.0) events c.1 known.1
            (All-imp (λ ev q. All-seen IsEntitled asked ev.event_id k q) events
              (answers asked events a))
            (was_checked-IsFair checked events (record w { has_error = false }) h))
          (λ v q. g (c.0, v) q known.0) e

    scan_from-AreShown :
        (n : ℕ) (checked : Option Bool) (ids : List String) (w : Walk) (x : Returned)
        → All IsEntitled ids
        → AnsweredAs checked
        → AreShown w.result_nids
        → scan_from allowed_to_see ignored limit events_from_ids in_room_now n checked ids w
          ≡ some x
        → AreShown x.0.result_nids
    unfolding scan_from
    scan_from-AreShown zero checked ids w x k u h e = ground (arith, e)
    scan_from-AreShown (suc n) checked [] w x k u h e =
        subst (λ z. AreShown z.0.result_nids) (some_inj e) h
    scan_from-AreShown (suc n) checked (id ∷ ids) w x k u h e =
        round-AreShown checked (id ∷ ids) (record w { next = [] }) (events_from_ids (id ∷ ids)) _ x
          refl k (h.0, h.1, tt) u
          (λ p q v r. scan_from-AreShown n p.0 p.1.next p.1 x q.2 v (q.0, q.1) r) e

All-seen_later :
    (x : String) (all ids : List String)
    → All (λ id. seen all id ≡ true) ids
    → All (λ id. seen (x ∷ all) id ≡ true) ids
All-seen_later x all ids h = All-imp (λ id q. ground (arith, q)) ids h

seen_itself : (ids : List String) → All (λ id. seen ids id ≡ true) ids
seen_itself [] = tt
seen_itself (x ∷ ids) =
    let first : (x == x) ≡ true = ==_refl x in
    (ground (arith, first), All-seen_later x ids ids (seen_itself ids))

-- Whenever `ScanEventTree` returns, with or without an error, the results are at most as many as
-- the limit, and each is the NID of an event that was not passed in as visited, and that the server
-- has named itself or is allowed to see, given what the check of the room of the first event of an
-- answer says of whether the server is in it: a check that fails says that it is not. This is
-- provided that the database answers with events that it was asked for.
pub scan_event_tree-AreShown :
    (events_from_ids : List String → Option (List Event)) (in_room_now : String → Option Bool)
    (allowed_to_see : Bool → String → Option Bool) (fuel limit : ℕ) (front visited : List String)
    (r : Returned)
    → AnswersAsked events_from_ids
    → scan_event_tree events_from_ids in_room_now allowed_to_see fuel limit front visited ≡ some r
    → AreShown events_from_ids in_room_now allowed_to_see front visited limit r.0.result_nids
scan_event_tree-AreShown events_from_ids in_room_now allowed_to_see fuel limit front visited r a e =
    scan_from-AreShown events_from_ids in_room_now allowed_to_see front visited limit a fuel none
      front (record { result_nids = []; visited = visited; next = []; has_error = false }) r
      (All-imp (λ id q. inl q) front (seen_itself front)) tt (tt, omega arith) e
