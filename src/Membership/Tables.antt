-- ===== src/Membership/Tables.antt =====
-- The membership, invites and events tables of the roomserver's database, as far as membership
-- updates read and write them. The sender is kept by its user ID, not by its numeric ID. Queries do
-- not fail here.
use dendrite.Base.{
  ℕ, Bool, true, false, not, ◌&&◌, List, [], ◌∷◌, ◌++◌, Option, none, some, String, if◌then◌else◌,
  ◌==◌, any, nat_eq, ℕ_eq, String_eq, Pair_eq,
}
use dendrite.Base.Map.{Map, lookup, insert}

-- tables.MembershipState
pub data MembershipState : Type 0 where
  leave_or_ban invite join : MembershipState

pub record MembershipRow : Type 0 where
  pub membership : MembershipState
  pub sender : String
  pub event_nid : ℕ
  pub target_local : Bool
  pub forgotten : Bool

pub record InviteRow : Type 0 where
  pub invite_event_id : String
  pub room_nid : ℕ
  pub target_nid : ℕ
  pub sender : String
  pub retired : Bool

pub record Tables : Type 0 where
  pub memberships : Map (ℕ × ℕ) MembershipRow
  pub invites : List InviteRow
  pub event_nids : Map String ℕ

-- INSERT INTO roomserver_membership … ON CONFLICT DO NOTHING, with the column defaults
unfoldable pub insert_membership : Tables → ℕ → ℕ → Bool → Tables
insert_membership t room target is_local = elim (lookup (room, target) t.memberships) [
  | some row ↦ t
  | none ↦ record t {
    memberships =
        insert (room, target)
          (record {
            membership = leave_or_ban;
            sender = "";
            event_nid = 0;
            target_local = is_local;
            forgotten = false;
          })
          t.memberships;
  }
]

abbrev pub state_of_row : Option MembershipRow → MembershipState
state_of_row none = leave_or_ban
state_of_row (some row) = row.membership

-- The membership of a user in a room; without a row the user has never been there.
unfoldable pub membership_of : Tables → ℕ → ℕ → MembershipState
membership_of t room target = state_of_row (lookup (room, target) t.memberships)

abbrev updated_row :
    Option MembershipRow → String → MembershipState → ℕ → Bool → Option MembershipRow
updated_row none sender m nid forgotten = none
updated_row (some row) sender m nid forgotten =
    some (record row { membership = m; sender = sender; event_nid = nid; forgotten = forgotten })

-- UPDATE roomserver_membership: a row that is not there is not made.
unfoldable pub update_membership_row : Tables → ℕ → ℕ → String → MembershipState → ℕ → Bool → Tables
update_membership_row t room target sender m nid forgotten =
    elim (lookup (room, target) t.memberships) [
      | none ↦ t
      | some row ↦ record t {
        memberships =
            insert (room, target)
              (record row {
                membership = m;
                sender = sender;
                event_nid = nid;
                forgotten = forgotten;
              })
              t.memberships;
      }
    ]

-- INSERT INTO roomserver_invites … ON CONFLICT DO NOTHING; whether a row was inserted
unfoldable pub insert_invite_event : Tables → String → ℕ → ℕ → String → Tables × Bool
insert_invite_event t id room target sender =
    if any (λ r. r.invite_event_id == id) t.invites then (t, false) else (
      record t {
        invites =
            t.invites
            ++ (record {
              invite_event_id = id;
              room_nid = room;
              target_nid = target;
              sender = sender;
              retired = false;
            })
              ∷ [];
      },
      true,
    )

abbrev pub is_active : ℕ → ℕ → InviteRow → Bool
is_active room target r = nat_eq r.room_nid room && (nat_eq r.target_nid target && not r.retired)

-- The invites of a user to a room that are not retired (`SelectInviteActiveForUserInRoom`).
unfoldable pub active : ℕ → ℕ → List InviteRow → List String
active room target [] = []
active room target (r ∷ rows) =
    if is_active room target r
    then r.invite_event_id ∷ active room target rows
    else active room target rows

unfoldable pub retire : ℕ → ℕ → List InviteRow → List InviteRow
retire room target [] = []
retire room target (r ∷ rows) =
    (if is_active room target r then record r { retired = true } else r) ∷ retire room target rows

-- UPDATE roomserver_invites SET retired … RETURNING invite_event_id
unfoldable pub update_invite_retired : Tables → ℕ → ℕ → Tables × List String
update_invite_retired t room target =
    (record t { invites = retire room target t.invites }, active room target t.invites)
