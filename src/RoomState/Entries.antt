-- ===== src/RoomState/Entries.antt =====
-- State entries and their two orders (roomserver/types/types.go). The numeric IDs come from
-- database sequences that start at 1, and are natural numbers here.
use dendrite.Base.{
  ℕ, ◌≡◌, Bool, true, false, ◌&&◌, ◌↔◌, List, [], ◌∷◌, Option, none, some, arith, ltb, nat_eq,
  if◌then◌else◌, All,
}
use dendrite.Base.Sort.{All-imp}

pub record StateKeyTuple : Type 0 where
  pub event_type_nid : ℕ
  pub event_state_key_nid : ℕ

-- Go's `==` on tuples
abbrev pub key_eq : StateKeyTuple → StateKeyTuple → Bool
key_eq a b =
    nat_eq a.event_type_nid b.event_type_nid && nat_eq a.event_state_key_nid b.event_state_key_nid

-- `LessThan` of a tuple
abbrev pub key_less : StateKeyTuple → StateKeyTuple → Bool
key_less a b =
    if nat_eq a.event_type_nid b.event_type_nid
    then ltb a.event_state_key_nid b.event_state_key_nid
    else ltb a.event_type_nid b.event_type_nid

pub record StateEntry : Type 0 where
  pub key : StateKeyTuple
  pub event_nid : ℕ

pub record StateAtEvent : Type 0 where
  pub overwrite : Bool
  pub before_state_snapshot_nid : ℕ
  pub is_rejected : Bool
  pub state_entry : StateEntry

-- Go's `==` on entries
abbrev pub entry_eq : StateEntry → StateEntry → Bool
entry_eq a b = key_eq a.key b.key && nat_eq a.event_nid b.event_nid

-- `LessThan` of an entry
abbrev pub entry_less : StateEntry → StateEntry → Bool
entry_less a b = if key_eq a.key b.key then ltb a.event_nid b.event_nid else key_less a.key b.key

-- `stateEntryByStateKeySorter`
abbrev pub by_key : StateEntry → StateEntry → Bool
by_key a b = key_less a.key b.key

pub key_eq_iff : (a b : StateKeyTuple) → (key_eq a b ≡ true) ↔ (a ≡ b)
key_eq_iff a b = (λ h. ground arith, λ h. ground arith)

pub entry_eq_iff : (a b : StateEntry) → (entry_eq a b ≡ true) ↔ (a ≡ b)
entry_eq_iff a b = (λ h. ground arith, λ h. ground arith)

pub entry_less_trans :
    (x y z : StateEntry) → entry_less y x ≡ false → entry_less z y ≡ false → entry_less z x ≡ false
entry_less_trans x y z h k = ground arith

pub entry_less_asym : (x y : StateEntry) → entry_less x y ≡ true → entry_less y x ≡ false
entry_less_asym x y h = ground arith

pub by_key_trans :
    (x y z : StateEntry) → by_key y x ≡ false → by_key z y ≡ false → by_key z x ≡ false
by_key_trans x y z h k = ground arith

pub by_key_asym : (x y : StateEntry) → by_key x y ≡ true → by_key y x ≡ false
by_key_asym x y h = ground arith

-- The event of the first entry for a key.
unfoldable pub find : StateKeyTuple → List StateEntry → Option ℕ
find k [] = none
find k (e ∷ es) = if key_eq e.key k then some e.event_nid else find k es

-- Every key is less than all the later ones, so that none stands twice.
abbrev pub HasUniqueKeys : List StateEntry → Type 0
HasUniqueKeys [] = Unit
HasUniqueKeys (e ∷ es) = All (λ x. key_less e.key x.key ≡ true) es × HasUniqueKeys es

-- Each entry is less than all the later ones.
abbrev pub IsAscending : List StateEntry → Type 0
IsAscending [] = Unit
IsAscending (e ∷ es) = All (λ x. entry_less e x ≡ true) es × IsAscending es

pub HasUniqueKeys-IsAscending : (l : List StateEntry) → HasUniqueKeys l → IsAscending l
HasUniqueKeys-IsAscending [] h = tt
HasUniqueKeys-IsAscending (e ∷ es) h =
    (All-imp (λ x k. ground arith) es h.0, HasUniqueKeys-IsAscending es h.1)
