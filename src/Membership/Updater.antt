-- ===== src/Membership/Updater.antt =====
-- roomserver/storage/shared/membership_updater.go: a membership row held for update.
use dendrite.Base.{
  ℕ, Bool, true, false, not, ◌||◌, List, [], none, some, String, if◌then◌else◌, String_eq,
}
use dendrite.Base.Map.{lookup}
use dendrite.Membership.Tables.{
  Tables, MembershipState, leave_or_ban, invite, join, insert_membership, membership_of,
  update_membership_row, insert_invite_event, update_invite_retired,
}

pub record MembershipUpdater : Type 0 where
  pub room_nid : ℕ
  pub target_user_nid : ℕ
  -- as it was when the updater was made
  pub membership : MembershipState

-- `membershipUpdaterTxn`
unfoldable pub membership_updater : Tables → ℕ → ℕ → Bool → Tables × MembershipUpdater
membership_updater t room target is_local =
    let t' = insert_membership t room target is_local in
    (
      t',
      record {
        room_nid = room;
        target_user_nid = target;
        membership = membership_of t' room target;
      },
    )

abbrev pub is_invite : MembershipState → Bool
is_invite invite = true
is_invite _ = false

abbrev pub is_join : MembershipState → Bool
is_join join = true
is_join _ = false

abbrev pub is_leave : MembershipState → Bool
is_leave leave_or_ban = true
is_leave _ = false

-- The number of an event, 0 if the events table does not have it.
abbrev pub event_nid : Tables → String → ℕ
event_nid t id = elim (lookup id t.event_nids) [ none ↦ 0 | some n ↦ n ]

-- `SetToInvite`, with the ID and the sender of the invite
unfoldable pub set_to_invite : MembershipUpdater → String → String → Tables → Tables × Bool
set_to_invite u id sender t =
    let (t', inserted) = insert_invite_event t id u.room_nid u.target_user_nid sender in
    (
      if is_invite u.membership
          then t'
          else update_membership_row t' u.room_nid u.target_user_nid sender invite 0 false,
      inserted,
    )

-- `SetToJoin`
unfoldable pub set_to_join :
    MembershipUpdater → String → String → Bool → Tables → Tables × List String
set_to_join u sender id is_update t =
    let (t', retired) =
      if is_update then (t, []) else update_invite_retired t u.room_nid u.target_user_nid in
    (
      if not (is_join u.membership) || is_update
          then update_membership_row t' u.room_nid u.target_user_nid sender join (event_nid t' id)
              false
          else t',
      retired,
    )

-- `SetToLeave`
unfoldable pub set_to_leave : MembershipUpdater → String → String → Tables → Tables × List String
set_to_leave u sender id t =
    let (t', retired) = update_invite_retired t u.room_nid u.target_user_nid in
    (
      if is_leave u.membership
          then t'
          else update_membership_row t' u.room_nid u.target_user_nid sender leave_or_ban
              (event_nid t' id) false,
      retired,
    )
