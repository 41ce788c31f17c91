-- ===== src/Backfill/Scan.antt =====
-- `ScanEventTree` (roomserver/internal/helpers/helpers.go). The map `visited` is the list of the IDs
-- that it has as true. The arguments are what the walk calls: the events that the database has
-- under IDs, whether the server is in a room, and whether it is allowed to see an event; `none` is
-- an error.
use dendrite.Base.{
  ℕ, zero, suc, Bool, true, false, List, [], ◌∷◌, ◌++◌, Option, none, some, String, String_eq, ◌==◌,
  Result, err, ok, ◌>>=◌, nat_eq, if◌then◌else◌, any, length,
}

-- What the walk reads of an event.
pub record Event : Type 0 where
  pub event_nid : ℕ
  pub event_id : String
  pub room_id : String
  pub prev_event_ids : List String

-- The variables of the function. `has_error` says whether `err` is set.
pub record Walk : Type 0 where
  pub result_nids : List ℕ
  pub visited : List String
  pub next : List String
  pub has_error : Bool

abbrev pub seen : List String → String → Bool
seen ids id = any (λ x. x == id) ids

-- What the function returns: its variables, and whether there is an error.
abbrev pub Returned : Type 0
Returned = Walk × Bool

abbrev pub was_checked :
    (String → Option Bool) → Option Bool → List Event → Walk → Option Bool × Walk
was_checked in_room_now (some b) events w = (some b, w)
was_checked in_room_now none [] w = (none, w)
was_checked in_room_now none (ev ∷ events) w = of_answer (in_room_now ev.room_id)
  where
    of_answer : Option Bool → Option Bool × Walk
    of_answer none = (some false, record w { has_error = true })
    of_answer (some b) = (some b, record w { has_error = false })

abbrev pub is_in_room : Option Bool → Bool
is_in_room none = false
is_in_room (some b) = b

abbrev pub note : String → Walk → Option Bool → Result Returned Walk
note pre w none = err (w, false)
note pre w (some allowed) =
    ok (record w { next = if allowed then w.next ++ (pre ∷ []) else w.next; has_error = false })

abbrev pub or_go_on :
    Result Returned (Option Bool × Walk) → (Option Bool × Walk → Option Returned) → Option Returned
or_go_on (err r) rest = some r
or_go_on (ok p) rest = rest p

module _ (allowed_to_see : Bool → String → Option Bool) (ignored : List String) (limit : ℕ) where
  -- The body of the loop over the parents of an event.
  unfoldable pub visit : Bool → String → Walk → Result Returned Walk
  visit in_room pre w =
      if seen w.visited pre
      then ok w
      else note pre (record w { visited = pre ∷ w.visited }) (allowed_to_see in_room pre)

  unfoldable pub visit_all : Bool → List String → Walk → Result Returned Walk
  visit_all in_room [] w = ok w
  visit_all in_room (pre ∷ prevs) w = visit in_room pre w >>= visit_all in_room prevs

  abbrev pub with_result : Event → Walk → Walk
  with_result ev w = record w {
    result_nids =
        if seen ignored ev.event_id then w.result_nids else w.result_nids ++ (ev.event_nid ∷ []);
  }

  -- The body of the loop over the events of a round.
  unfoldable pub process : Bool → Event → Walk → Result Returned Walk
  process in_room ev w =
      if nat_eq (length w.result_nids) limit
      then err (w, w.has_error)
      else visit_all in_room ev.prev_event_ids (with_result ev w)

  unfoldable pub process_all : Bool → List Event → Walk → Result Returned Walk
  process_all in_room [] w = ok w
  process_all in_room (ev ∷ events) w = process in_room ev w >>= process_all in_room events

  module _ (events_from_ids : List String → Option (List Event))
      (in_room_now : String → Option Bool) where
    -- A round, from the answer of the database on.
    abbrev pub after_read :
        Option Bool → Walk → Option (List Event) → Result Returned (Option Bool × Walk)
    after_read checked w none = err (w, true)
    after_read checked w (some events) =
        let c = was_checked in_room_now checked events (record w { has_error = false }) in
        process_all (is_in_room c.0) events c.1 >>= λ after. ok (c.0, after)

    -- The outer loop, with a round for each unit of fuel.
    unfoldable pub scan_from : ℕ → Option Bool → List String → Walk → Option Returned
    scan_from zero checked front w = none
    scan_from (suc n) checked [] w = some (w, w.has_error)
    scan_from (suc n) checked (id ∷ front) w =
        or_go_on (after_read checked (record w { next = [] }) (events_from_ids (id ∷ front)))
          λ p. scan_from n p.0 p.1.next p.1

-- The walk from `front`. `initialIgnoreList` is a copy of `visited` as it is passed in.
abbrev pub scan_event_tree :
    (List String → Option (List Event))
    → (String → Option Bool)
    → (Bool → String → Option Bool)
    → ℕ
    → ℕ
    → List String
    → List String
    → Option Returned
scan_event_tree events_from_ids in_room_now allowed_to_see fuel limit front visited =
    scan_from allowed_to_see visited limit events_from_ids in_room_now fuel none front
      (record { result_nids = []; visited = visited; next = []; has_error = false })
