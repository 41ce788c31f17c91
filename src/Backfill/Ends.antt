-- ===== src/Backfill/Ends.antt =====
-- `ScanEventTree` (roomserver/internal/helpers/helpers.go) ends.
use dendrite.Base.{
  ℕ, zero, suc, ◌+◌, ◌≤◌, ◌≡◌, refl, Bool, true, false, List, [], ◌∷◌, Option, none, some, arith,
  String, String_eq, Result, err, ok, ◌>>=◌, nat_eq, length, All, inl, inr, Bool-cases,
  Option-cases,
}
use dendrite.Backfill.Scan.{
  Event, Walk, seen, Returned, was_checked, is_in_room, visit, visit_all, with_result, process,
  process_all, after_read, or_go_on, scan_from, scan_event_tree,
}
use dendrite.Backfill.Weight.{
  unseen, unseen-less, weight, HasParents, KnowsParents, KeepsWeight, note-KeepsWeight,
  bind-KeepsWeight,
}

abbrev Rest : Type 0
Rest = Option Bool × Walk → Option Returned

ended :
    (ids : List String) (flag : Option Bool) (n : ℕ) (r : Result Returned Walk) (rest : Rest)
    → KeepsWeight ids n r
    → ((w : Walk) → weight ids w ≤ n → (x : Returned) × (rest (flag, w) ≡ some x))
    → (x : Returned) × (or_go_on (r >>= λ after. ok (flag, after)) rest ≡ some x)
ended ids flag n (err x) rest h g = (x, refl)
ended ids flag n (ok w) rest h g = g w h

module _ (ids : List String) (allowed_to_see : Bool → String → Option Bool) (ignored : List String)
    (limit : ℕ) where
  visit-KeepsWeight :
      (in_room : Bool) (pre : String) (w : Walk) (n : ℕ)
      → seen ids pre ≡ true
      → weight ids w ≤ n
      → KeepsWeight ids n (visit allowed_to_see ignored limit in_room pre w)
  unfolding visit
  visit-KeepsWeight in_room pre w n h k = elim (Bool-cases (seen w.visited pre)) [
    | inl e ↦ rw e k
    | inr e ↦ rw e (
        note-KeepsWeight ids pre (record w { visited = pre ∷ w.visited }) n
          (allowed_to_see in_room pre) (omega (arith, k, unseen-less ids w.visited pre h e)))
  ]

  visit_all-KeepsWeight :
      (in_room : Bool) (prevs : List String) (w : Walk) (n : ℕ)
      → All (λ pre. seen ids pre ≡ true) prevs
      → weight ids w ≤ n
      → KeepsWeight ids n (visit_all allowed_to_see ignored limit in_room prevs w)
  unfolding visit_all
  visit_all-KeepsWeight in_room [] w n h k = k
  visit_all-KeepsWeight in_room (pre ∷ prevs) w n h k =
      bind-KeepsWeight ids n (visit allowed_to_see ignored limit in_room pre w)
        (visit_all allowed_to_see ignored limit in_room prevs)
        (visit-KeepsWeight in_room pre w n h.0 k)
        (λ w' q. visit_all-KeepsWeight in_room prevs w' n h.1 q)

  process-KeepsWeight :
      (in_room : Bool) (ev : Event) (w : Walk) (n : ℕ)
      → HasParents ids ev
      → weight ids w ≤ n
      → KeepsWeight ids n (process allowed_to_see ignored limit in_room ev w)
  unfolding process
  process-KeepsWeight in_room ev w n h k = elim (Bool-cases (nat_eq (length w.result_nids) limit)) [
    | inl e ↦ rw e tt
    | inr e ↦ rw e (
        visit_all-KeepsWeight in_room ev.prev_event_ids
          (with_result allowed_to_see ignored limit ev w) n h k)
  ]

  process_all-KeepsWeight :
      (in_room : Bool) (events : List Event) (w : Walk) (n : ℕ)
      → All (HasParents ids) events
      → weight ids w ≤ n
      → KeepsWeight ids n (process_all allowed_to_see ignored limit in_room events w)
  unfolding process_all
  process_all-KeepsWeight in_room [] w n h k = k
  process_all-KeepsWeight in_room (ev ∷ events) w n h k =
      bind-KeepsWeight ids n (process allowed_to_see ignored limit in_room ev w)
        (process_all allowed_to_see ignored limit in_room events)
        (process-KeepsWeight in_room ev w n h.0 k)
        (λ w' q. process_all-KeepsWeight in_room events w' n h.1 q)

  module _ (events_from_ids : List String → Option (List Event))
      (in_room_now : String → Option Bool) where
    was_checked-weight :
        (checked : Option Bool) (events : List Event) (w : Walk)
        → weight ids (was_checked in_room_now checked events w).1 ≡ weight ids w
    was_checked-weight (some b) events w = refl
    was_checked-weight none [] w = refl
    was_checked-weight none (ev ∷ events) w = elim (Option-cases (in_room_now ev.room_id)) [
      | inl e ↦ rw e refl
      | inr (b, e) ↦ rw e refl
    ]

    -- A round ends the walk, or it goes on with less to see.
    or_go_on-ends :
        (checked : Option Bool) (w : Walk) (answer : Option (List Event)) (rest : Rest)
        → ((events : List Event) → answer ≡ some events → All (HasParents ids) events)
        → ((p : Option Bool × Walk)
            → weight ids p.1 ≤ weight ids w
            → (r : Returned) × (rest p ≡ some r))
        → (r : Returned) × (or_go_on
              (after_read allowed_to_see ignored limit events_from_ids in_room_now checked w answer)
              rest
            ≡ some r)
    or_go_on-ends checked w none rest h go = ((w, true), refl)
    or_go_on-ends checked w (some events) rest h go =
        let start : Walk = record w { has_error = false } in
        let c = was_checked in_room_now checked events start in
        go_on (is_in_room c.0) c.0 c.1 (was_checked-weight checked events start)
      where
        go_on :
            (in_room : Bool) (flag : Option Bool) (w' : Walk)
            → weight ids w' ≡ weight ids w
            → (r : Returned) × (or_go_on
                  (process_all allowed_to_see ignored limit in_room events w' >>= λ after.
                    ok (flag, after))
                  rest
                ≡ some r)
        go_on in_room flag w' e =
            ended ids flag (weight ids w)
              (process_all allowed_to_see ignored limit in_room events w') rest
              (process_all-KeepsWeight in_room events w' (weight ids w) (h events refl)
                (omega (arith, e)))
              (λ v q. go (flag, v) q)

    abbrev Ends : ℕ → Option Bool → List String → Walk → Type 0
    Ends n checked front w =
        (r : Returned) × (scan_from allowed_to_see ignored limit events_from_ids in_room_now n
            checked front w
          ≡ some r)

    next_round :
        (n before : ℕ) (checked : Option Bool) (front : List String) (w : Walk)
        → ((c : Option Bool) (l : List String) (v : Walk)
            → unseen ids v.visited + 2 ≤ n
            → Ends n c l v)
        → unseen ids w.visited + length front ≤ before + 0
        → before + 2 ≤ suc n
        → Ends n checked front w
    unfolding scan_from
    next_round zero before checked [] w go q h = ground (arith, h)
    next_round (suc n) before checked [] w go q h = ((w, w.has_error), refl)
    next_round n before checked (id ∷ front) w go q h =
        go checked (id ∷ front) w (omega (arith, q, h))

    -- With fuel for each ID that has not been visited, and two units more, the walk ends.
    scan_from-Ends :
        (n : ℕ) (checked : Option Bool) (front : List String) (w : Walk)
        → KnowsParents ids events_from_ids
        → unseen ids w.visited + 2 ≤ n
        → Ends n checked front w
    unfolding scan_from
    scan_from-Ends zero checked front w knows h = ground (arith, h)
    scan_from-Ends (suc n) checked [] w knows h = ((w, w.has_error), refl)
    scan_from-Ends (suc n) checked (id ∷ front) w knows h =
        or_go_on-ends checked (record w { next = [] }) (events_from_ids (id ∷ front)) _
          (knows (id ∷ front))
          (λ p q.
            next_round n (unseen ids w.visited) p.0 p.1.next p.1
              (λ c l v. scan_from-Ends n c l v knows) q h)

-- `ScanEventTree` ends, also on a graph with cycles. If the IDs of some list are all the parents
-- that the events of the database have, then it takes at most two rounds more than that list has
-- IDs that have not been visited before.
pub scan_event_tree-ends :
    (events_from_ids : List String → Option (List Event)) (in_room_now : String → Option Bool)
    (allowed_to_see : Bool → String → Option Bool) (limit : ℕ) (ids front visited : List String)
    → KnowsParents ids events_from_ids
    → (r : Returned) × (scan_event_tree events_from_ids in_room_now allowed_to_see
          (unseen ids visited + 2)
          limit
          front
          visited
        ≡ some r)
scan_event_tree-ends events_from_ids in_room_now allowed_to_see limit ids front visited knows =
    scan_from-Ends ids allowed_to_see visited limit events_from_ids in_room_now
      (unseen ids visited + 2) none front
      (record { result_nids = []; visited = visited; next = []; has_error = false }) knows
      (omega arith)
