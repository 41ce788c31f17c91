-- ===== src/Backfill/Tests.antt =====
-- The theorems about the history of a room at a small graph with a cycle.
use dendrite.Base.{
  ℕ, ◌≡◌, refl, Bool, true, false, ◌&&◌, List, [], ◌∷◌, Option, none, some, map, String, ◌==◌,
  String_eq, any, keep, All, inl, inr, Bool-cases, subst, arith, nat_eq, if◌then◌else◌, ℕ_eq,
  list_beq, list_beq_iff, then_branch, else_branch,
}
use dendrite.RoomState.Entries.{StateEntry}
use dendrite.Backfill.Visibility.{
  Bytes, StateEvent, history_visibility_type, is_server_allowed, entries, has_suffix,
  check_server_allowed_to_see_event, history_visibility_for_room, visibility_from,
  is_any_user_on_server_with_membership,
}
use dendrite.Backfill.Filter.{
  SplitsAtColon, IsKeyed, has_key_kept, check_server_allowed_to_see_event-is_server_allowed,
}
use dendrite.Backfill.Scan.{
  Event, Returned, seen, scan_event_tree, scan_from, process_all, process, visit_all, visit,
}
use dendrite.Backfill.Weight.{HasParents, KnowsParents}
use dendrite.Backfill.Ends.{scan_event_tree-ends}
use dendrite.Backfill.Holds.{AnswersAsked}
use dendrite.Backfill.Shown.{AreShown, scan_event_tree-AreShown}

abbrev event : ℕ → String → List String → Event
event n id prevs = record { event_nid = n; event_id = id; room_id = "!r"; prev_event_ids = prevs }

-- The first event references the second, and the second the first, which no server can make.
abbrev stored : List Event
stored = event 1 "a" ("b" ∷ []) ∷ event 2 "b" ("a" ∷ "c" ∷ []) ∷ []

abbrev from_ids : List String → Option (List Event)
from_ids ids = some (keep (λ ev. any (λ x. x == ev.event_id) ids) stored)

abbrev ids : List String
ids = "a" ∷ "b" ∷ "c" ∷ []

All-keep : (P : Event → Type 0) (p : Event → Bool) (l : List Event) → All P l → All P (keep p l)
All-keep P p [] h = tt
All-keep P p (ev ∷ l) h = elim (Bool-cases (p ev)) [
  | inl e ↦ rw e (h.0, All-keep P p l h.1)
  | inr e ↦ rw e (All-keep P p l h.1)
]

keep_passes : (p : Event → Bool) (l : List Event) → All (λ ev. p ev ≡ true) (keep p l)
keep_passes p [] = tt
keep_passes p (ev ∷ l) = elim (Bool-cases (p ev)) [
  | inl e ↦ rw e (e, keep_passes p l)
  | inr e ↦ rw e (keep_passes p l)
]

some_events : {x y : List Event} → some x ≡ some y → x ≡ y
some_events e = cc

ids-KnowsParents : KnowsParents ids from_ids
ids-KnowsParents asked events e = subst (All (HasParents ids)) (some_events e) (
    All-keep (HasParents ids) (λ ev. seen asked ev.event_id) stored
      ((refl, tt), ((refl, (refl, tt)), tt)))

from_ids-AnswersAsked : AnswersAsked from_ids
from_ids-AnswersAsked asked events e =
    subst (All (λ ev. seen asked ev.event_id ≡ true)) (some_events e)
      (keep_passes (λ ev. seen asked ev.event_id) stored)

abbrev always : Bool → String → Option Bool
always in_room id = some true

abbrev in_room_now : String → Option Bool
in_room_now room = some true

scan_event_tree-ends_example :
    (r : Returned) × (scan_event_tree from_ids in_room_now always 5 10 ("a" ∷ []) [] ≡ some r)
scan_event_tree-ends_example =
    scan_event_tree-ends from_ids in_room_now always 10 ids ("a" ∷ []) [] ids-KnowsParents

abbrev walked : Returned
walked = (
  record {
    result_nids = 1 ∷ 2 ∷ 1 ∷ [];
    visited = "c" ∷ "a" ∷ "b" ∷ [];
    next = [];
    has_error = false;
  },
  false,
)

-- An event of `front` that a later event references comes twice.
walked_lem : scan_event_tree from_ids in_room_now always 5 10 ("a" ∷ []) [] ≡ some walked
unfolding scan_from process_all process visit_all visit
walked_lem = refl

scan_event_tree-AreShown_example :
    AreShown from_ids in_room_now always ("a" ∷ []) [] 10 (1 ∷ 2 ∷ 1 ∷ [])
scan_event_tree-AreShown_example =
    scan_event_tree-AreShown from_ids in_room_now always 5 10 ("a" ∷ []) [] walked
      from_ids-AnswersAsked walked_lem

-- The check whether the server is in the room has failed, which the walk takes as a no; the error
-- is returned all the same.
abbrev not_known : String → Option Bool
not_known room = none

returns_error :
    scan_event_tree from_ids not_known always 5 10 ("a" ∷ []) ("b" ∷ [])
    ≡ some (record { result_nids = 1 ∷ []; visited = "b" ∷ []; next = []; has_error = true }, true)
unfolding scan_from process_all process visit_all visit
returns_error = refl

abbrev domain_of : Bytes → Option Bytes
domain_of [] = none
domain_of (c ∷ s) = let rest = domain_of s in if nat_eq c b':' then some s else rest

some_bytes : {x y : Bytes} → some x ≡ some y → x ≡ y
some_bytes e = cc

domain_of-SplitsAtColon : SplitsAtColon domain_of
unfolding has_suffix
domain_of-SplitsAtColon [] d e = ground (arith, e)
domain_of-SplitsAtColon (c ∷ s) d e = elim (Bool-cases (nat_eq c b':')) [
  | inl t ↦
      let same : s ≡ d = some_bytes (then_branch (nat_eq c b':') (domain_of s) t e) in
      let equal : list_beq ℕ_eq s d ≡ true = (list_beq_iff ℕ_eq s d).1 same in rw (t, equal) refl
  | inr t ↦
      let later : has_suffix s (b':' ∷ d) ≡ true =
        domain_of-SplitsAtColon s d (else_branch (nat_eq c b':') (some s) t e) in
      ground (arith, later)
]

abbrev user : Bytes
user = b'@' ∷ b'u' ∷ b':' ∷ b's' ∷ []

abbrev other_user : Bytes
other_user = b'@' ∷ b'u' ∷ b':' ∷ b't' ∷ []

abbrev keys : ℕ → Bytes
keys n = if nat_eq n 1 then [] else if nat_eq n 2 then user else other_user

abbrev entry : ℕ → StateEntry
entry k = record { key = record { event_type_nid = 5; event_state_key_nid = k }; event_nid = k }

-- The history visibility is `joined`; a user of each server has joined.
abbrev event_of : StateEntry → StateEvent
event_of e = record {
  event_type = if nat_eq e.event_nid 1 then history_visibility_type else "m.room.member";
  state_key = some (keys e.key.event_state_key_nid);
  history_visibility = if nat_eq e.event_nid 1 then some "joined" else some "";
  membership = if nat_eq e.event_nid 1 then none else some "join";
}

abbrev state : List StateEntry
state = entry 1 ∷ entry 2 ∷ entry 3 ∷ []

state-IsKeyed : All (IsKeyed event_of keys) state
state-IsKeyed =
    ((refl, λ t. refl), ((refl, λ t. ground (arith, t)), ((refl, λ t. ground (arith, t)), tt)))

abbrev server : Bytes
server = b's' ∷ []

check_server_allowed_to_see_event-is_server_allowed_example :
    check_server_allowed_to_see_event domain_of
      (some (λ n. some (keys n)))
      (λ m. some (map event_of m))
      server
      false
      (entries state)
    ≡ some (
        any (has_key_kept keys server) state
        && is_server_allowed domain_of server false (map event_of state))
check_server_allowed_to_see_event-is_server_allowed_example =
    check_server_allowed_to_see_event-is_server_allowed domain_of domain_of-SplitsAtColon event_of
      keys server false state state-IsKeyed

seen_lem :
    check_server_allowed_to_see_event domain_of
      (some (λ n. some (keys n)))
      (λ m. some (map event_of m))
      server
      false
      (entries state)
    ≡ some true
unfolding check_server_allowed_to_see_event is_server_allowed history_visibility_for_room
    visibility_from is_any_user_on_server_with_membership has_suffix
seen_lem = refl
