-- ===== src/Membership/Consistent/Rows.antt =====
-- Laws of the membership and invites tables.
use mathlib.Core.List.{append-nil}
use dendrite.Base.{
  ℕ, ◌≡◌, refl, Bool, true, false, ◌&&◌, List, [], ◌∷◌, ◌++◌, some, String, if◌then◌else◌, arith,
  nat_eq, Option-cases, inl, inr, ℕ_eq, Pair_eq, pair_beq_iff, String_eq,
}
use dendrite.Base.Map.{lookup, lookup-insert}
use dendrite.Membership.Tables.{
  Tables, MembershipRow, InviteRow, MembershipState, leave_or_ban, membership_of, insert_membership,
  update_membership_row, insert_invite_event, update_invite_retired, active, retire, is_active,
}

-- Whether two rooms and users are the same.
abbrev pub same : ℕ → ℕ → ℕ → ℕ → Bool
same room target r u = nat_eq room r && nat_eq target u

abbrev pub HasRow : Tables → ℕ → ℕ → Type 0
HasRow t room target = (row : MembershipRow) × (lookup (room, target) t.memberships ≡ some row)

abbrev new_row : Bool → MembershipRow
new_row l = record {
  membership = leave_or_ban;
  sender = "";
  event_nid = 0;
  target_local = l;
  forgotten = false;
}

pub membership_of-insert_membership :
    (t : Tables) (room target r u : ℕ) (l : Bool)
    → membership_of (insert_membership t room target l) r u ≡ membership_of t r u
unfolding membership_of insert_membership
membership_of-insert_membership t room target r u l = ground (
  arith,
  lookup-insert (room, target) (r, u)
      (record {
        membership = leave_or_ban;
        sender = "";
        event_nid = 0;
        target_local = l;
        forgotten = false;
      })
      t.memberships,
  pair_beq_iff ℕ_eq ℕ_eq (room, target) (r, u),
)

pub HasRow-insert_membership :
    (t : Tables) (room target : ℕ) (l : Bool)
    → HasRow (insert_membership t room target l) room target
unfolding insert_membership
HasRow-insert_membership t room target l =
    elim (Option-cases (lookup (room, target) t.memberships)) [
      | inl e ↦ (
        new_row l,
        ground (arith, lookup-insert (room, target) (room, target) (new_row l) t.memberships, e),
      )
      | inr (row, e) ↦ (row, ground (arith, e))
    ]

pub membership_of-update :
    (t : Tables) (room target r u : ℕ) (sender : String) (m : MembershipState) (nid : ℕ) (f : Bool)
    → HasRow t room target
    → membership_of (update_membership_row t room target sender m nid f) r u
      ≡ (if same room target r u then m else membership_of t r u)
unfolding membership_of update_membership_row
membership_of-update t room target r u sender m nid f (row, e) = ground (
  arith,
  lookup-insert (room, target) (r, u)
      (record row { membership = m; sender = sender; event_nid = nid; forgotten = f })
      t.memberships,
  e,
)

pub membership_of_kept :
    (t : Tables) (room target r u : ℕ) (m : MembershipState)
    → membership_of t room target ≡ m
    → membership_of t r u ≡ (if same room target r u then m else membership_of t r u)
membership_of_kept t room target r u m e = ground arith

pub active-retire :
    (room target r u : ℕ) (rows : List InviteRow)
    → active r u (retire room target rows) ≡ (if same room target r u then [] else active r u rows)
unfolding active retire
active-retire room target r u [] = ground arith
active-retire room target r u (i ∷ rows) = ground (arith, active-retire room target r u rows)

active-append :
    (r u : ℕ) (rows : List InviteRow) (i : InviteRow)
    → active r u (rows ++ i ∷ [])
      ≡ active r u rows ++ (if is_active r u i then i.invite_event_id ∷ [] else [])
unfolding active
active-append r u [] i = ground arith
active-append r u (x ∷ rows) i = ground (arith, active-append r u rows i)

-- An insert adds at most the new invite, and only for its own room and user.
pub active-insert_invite :
    (t : Tables) (id : String) (room target r u : ℕ) (sender : String)
    → same room target r u ≡ false
    → active r u (insert_invite_event t id room target sender).0.invites ≡ active r u t.invites
unfolding insert_invite_event
active-insert_invite t id room target r u sender h = ground (
  arith,
  active-append r u t.invites (record {
    invite_event_id = id;
    room_nid = room;
    target_nid = target;
    sender = sender;
    retired = false;
  }),
  append-nil (active r u t.invites),
)

-- What an operation on one table leaves of the other.
pub membership_of-insert_invite :
    (t : Tables) (id : String) (room target r u : ℕ) (sender : String)
    → membership_of (insert_invite_event t id room target sender).0 r u ≡ membership_of t r u
unfolding membership_of insert_invite_event
membership_of-insert_invite t id room target r u sender = ground arith

pub HasRow-insert_invite :
    (t : Tables) (id : String) (room target r u : ℕ) (sender : String)
    → HasRow t r u
    → HasRow (insert_invite_event t id room target sender).0 r u
unfolding insert_invite_event
HasRow-insert_invite t id room target r u sender (row, e) = (row, ground (arith, e))

pub invites-update :
    (t : Tables) (room target : ℕ) (sender : String) (m : MembershipState) (nid : ℕ) (f : Bool)
    → (update_membership_row t room target sender m nid f).invites ≡ t.invites
unfolding update_membership_row
invites-update t room target sender m nid f = ground arith

pub membership_of-retired :
    (t : Tables) (room target r u : ℕ)
    → membership_of (update_invite_retired t room target).0 r u ≡ membership_of t r u
unfolding membership_of update_invite_retired
membership_of-retired t room target r u = refl

pub HasRow-retired :
    (t : Tables) (room target r u : ℕ)
    → HasRow t r u
    → HasRow (update_invite_retired t room target).0 r u
unfolding update_invite_retired
HasRow-retired t room target r u h = h

pub active-retired :
    (t : Tables) (room target r u : ℕ)
    → active r u (update_invite_retired t room target).0.invites
      ≡ (if same room target r u then [] else active r u t.invites)
unfolding update_invite_retired
active-retired t room target r u = active-retire room target r u t.invites

pub same_refl : (room target : ℕ) → same room target room target ≡ true
same_refl room target = ground arith

pub same_eq : (room target r u : ℕ) → same room target r u ≡ true → (room ≡ r) × (target ≡ u)
same_eq room target r u h = ground arith
