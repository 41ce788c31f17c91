-- ===== src/Membership/Changes.antt =====
-- `pairUpChanges` and `membershipChanges` of roomserver/internal/input/input_membership.go.
use dendrite.Base.{
  ℕ, ◌≡◌, refl, List, [], ◌∷◌, Option, none, some, nat_eq, if◌then◌else◌, arith, keep, Eq, ◌==◌,
}
use dendrite.Base.Map.{Map, lookup, insert, lookup-insert}
use dendrite.RoomState.Entries.{StateKeyTuple, StateEntry, key_eq, key_eq_iff}

instance abbrev pub StateKeyTuple_eq : Eq StateKeyTuple
StateKeyTuple_eq = record { beq = key_eq; beq_iff = key_eq_iff }

pub record StateChange : Type 0 where
  pub key : StateKeyTuple
  pub removed_event_nid : ℕ
  pub added_event_nid : ℕ

abbrev pub with_added : StateEntry → Option StateChange → StateChange
with_added a (some c) = record c { added_event_nid = a.event_nid }
with_added a none = record { key = a.key; removed_event_nid = 0; added_event_nid = a.event_nid }

abbrev pub with_removed : StateEntry → Option StateChange → StateChange
with_removed r (some c) = record c { removed_event_nid = r.event_nid }
with_removed r none = record { key = r.key; removed_event_nid = r.event_nid; added_event_nid = 0 }

-- The two loops over the map of tuples.
unfoldable pub pair_added :
    List StateEntry → Map StateKeyTuple StateChange → Map StateKeyTuple StateChange
pair_added [] m = m
pair_added (a ∷ added) m = pair_added added (insert a.key (with_added a (lookup a.key m)) m)

unfoldable pub pair_removed :
    List StateEntry → Map StateKeyTuple StateChange → Map StateKeyTuple StateChange
pair_removed [] m = m
pair_removed (r ∷ removed) m =
    pair_removed removed (insert r.key (with_removed r (lookup r.key m)) m)

unfoldable pub paired : List StateEntry → List StateEntry → Map StateKeyTuple StateChange
paired removed added = pair_removed removed (pair_added added [])

abbrev values : Map StateKeyTuple StateChange → List StateChange
values [] = []
values ((k, c) ∷ m) = c ∷ values m

unfoldable pub pair_up_changes : List StateEntry → List StateEntry → List StateChange
pair_up_changes removed added = values (paired removed added)

-- types.MRoomMemberNID
abbrev pub m_room_member_nid : ℕ
m_room_member_nid = 5

unfoldable pub membership_changes : List StateEntry → List StateEntry → List StateChange
membership_changes removed added =
    keep (λ c. nat_eq c.key.event_type_nid m_room_member_nid) (pair_up_changes removed added)

-- The event of the last entry for a key.
pub latest_nid : StateKeyTuple → List StateEntry → Option ℕ
latest_nid k [] = none
latest_nid k (e ∷ es) = elim (latest_nid k es) [
  | some n ↦ some n
  | none ↦ if e.key == k then some e.event_nid else none
]

abbrev or_zero : Option ℕ → ℕ
or_zero none = 0
or_zero (some n) = n

-- A change from what the map holds and what the two lists say.
abbrev pub overlay : StateKeyTuple → Option ℕ → Option ℕ → Option StateChange
overlay k none none = none
overlay k r a =
    some (record { key = k; removed_event_nid = or_zero r; added_event_nid = or_zero a })

after_added : StateKeyTuple → Option ℕ → Option StateChange → Option StateChange
after_added k none c = c
after_added k (some n) none = some (record { key = k; removed_event_nid = 0; added_event_nid = n })
after_added k (some n) (some c) = some (record c { added_event_nid = n })

lookup-pair_added :
    (k : StateKeyTuple) (added : List StateEntry) (m : Map StateKeyTuple StateChange)
    → lookup k (pair_added added m) ≡ after_added k (latest_nid k added) (lookup k m)
unfolding pair_added latest_nid after_added
lookup-pair_added k [] m = refl
lookup-pair_added k (a ∷ added) m = ground (
  arith,
  lookup-pair_added k added (insert a.key (with_added a (lookup a.key m)) m),
  lookup-insert a.key k (with_added a (lookup a.key m)) m,
  key_eq_iff a.key k,
)

after_removed : StateKeyTuple → Option ℕ → Option StateChange → Option StateChange
after_removed k none c = c
after_removed k (some n) none =
    some (record { key = k; removed_event_nid = n; added_event_nid = 0 })
after_removed k (some n) (some c) = some (record c { removed_event_nid = n })

lookup-pair_removed :
    (k : StateKeyTuple) (removed : List StateEntry) (m : Map StateKeyTuple StateChange)
    → lookup k (pair_removed removed m) ≡ after_removed k (latest_nid k removed) (lookup k m)
unfolding pair_removed latest_nid after_removed
lookup-pair_removed k [] m = refl
lookup-pair_removed k (r ∷ removed) m = ground (
  arith,
  lookup-pair_removed k removed (insert r.key (with_removed r (lookup r.key m)) m),
  lookup-insert r.key k (with_removed r (lookup r.key m)) m,
  key_eq_iff r.key k,
)

-- The change that `pairUpChanges` records for a tuple joins the last removed and the last added
-- event of that tuple, with 0 for the one that there is not; a tuple in neither list has no change.
pub lookup-paired :
    (k : StateKeyTuple) (removed added : List StateEntry)
    → lookup k (paired removed added) ≡ overlay k (latest_nid k removed) (latest_nid k added)
unfolding paired lookup after_added after_removed
lookup-paired k removed added =
    ground
      (arith, lookup-pair_removed k removed (pair_added added []), lookup-pair_added k added [])
