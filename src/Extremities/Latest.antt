-- ===== src/Extremities/Latest.antt =====
-- `calculateLatest` (roomserver/internal/input/input_latest_events.go), the table of previous events
-- (roomserver/storage/shared/latest_events_updater.go,
-- roomserver/storage/postgres/previous_events_table.go), and the types of roomserver/types/types.go
-- they use. A loop over a Go map goes in the order of the association list.
use dendrite.Base.{
  ℕ, Bool, true, false, List, [], ◌∷◌, ◌++◌, Option, none, some, String, String_eq, Pair_eq, nat_eq,
  any, if◌then◌else◌,
}
use dendrite.Base.Map.{Map, lookup, insert, delete}
use dendrite.RoomState.Entries.{StateAtEvent}

pub record EventReference : Type 0 where
  pub event_id : String
  pub event_sha256 : String

pub record StateAtEventAndReference : Type 0 where
  pub state_at_event : StateAtEvent
  pub event_reference : EventReference

abbrev pub id_of : StateAtEventAndReference → String
id_of e = e.event_reference.event_id

-- roomserver_previous_events: the events that reference each event
abbrev pub PreviousEvents : Type 0
PreviousEvents = Map (String × String) (List ℕ)

abbrev add_event_nid : ℕ → Option (List ℕ) → List ℕ
add_event_nid nid none = nid ∷ []
add_event_nid nid (some nids) = if any (nat_eq nid) nids then nids else nids ++ (nid ∷ [])

unfoldable pub insert_previous_event : String → String → ℕ → PreviousEvents → PreviousEvents
insert_previous_event id sha nid t = insert (id, sha) (add_event_nid nid (lookup (id, sha) t)) t

unfoldable pub store_previous_events : ℕ → List EventReference → PreviousEvents → PreviousEvents
store_previous_events nid [] t = t
store_previous_events nid (r ∷ refs) t =
    store_previous_events nid refs (insert_previous_event r.event_id r.event_sha256 nid t)

abbrev pub is_some {ℓ} : {A : Type ℓ} → Option A → Bool
is_some none = false
is_some (some a) = true

unfoldable pub is_referenced : PreviousEvents → EventReference → Bool
is_referenced t r = is_some (lookup (r.event_id, r.event_sha256) t)

abbrev pub Refs : Type 0
Refs = Map String StateAtEventAndReference

-- The first loop.
unfoldable pub existing_refs : List StateAtEventAndReference → Refs → Refs
existing_refs [] m = m
existing_refs (old ∷ olds) m = existing_refs olds (insert (id_of old) old m)

-- The events of the extremities that the table of previous events has.
unfoldable pub existing_prevs : PreviousEvents → Refs → List String
existing_prevs t [] = []
existing_prevs t ((id, l) ∷ m) =
    let rest = existing_prevs t m in
    if is_referenced t l.event_reference then id_of l ∷ rest else rest

-- The loops that delete.
unfoldable pub delete_all : List String → Refs → Refs
delete_all [] m = m
delete_all (id ∷ ids) m = delete_all ids (delete id m)

unfoldable pub values : Refs → List StateAtEventAndReference
values [] = []
values ((id, l) ∷ m) = l ∷ values m

unfoldable pub calculate_latest :
    PreviousEvents
    → List StateAtEventAndReference
    → EventReference
    → List String
    → StateAtEventAndReference
    → List StateAtEventAndReference × Bool
calculate_latest t old_latest event prev_event_ids new_state_and_ref =
    let refs = existing_refs old_latest [] in
    if is_some (lookup event.event_id refs)
    then (old_latest, false)
    else if is_referenced t event
    then (old_latest, false)
    else (
      new_state_and_ref
          ∷ values (delete_all (existing_prevs t refs) (delete_all prev_event_ids refs)),
      true,
    )
