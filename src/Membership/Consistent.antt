-- ===== src/Membership/Consistent.antt =====
-- The invariant that a user with an active invite to a room is invited to it, and what each
-- membership update does to the tables.
mod Rows
use dendrite.Base.{
  ℕ, ◌≡◌, refl, sym, ap, ◌∙◌, ◌⊎◌, inl, inr, Bool, true, false, not, ◌||◌, ◌&&◌, List, [], ◌∷◌,
  ◌++◌, Option, none, some, String, if◌then◌else◌, Result, ok, err, ◌>>=◌, ◌==◌, Bool-cases, arith,
}
use dendrite.Membership.Tables.{
  Tables, MembershipState, leave_or_ban, invite, join, membership_of, insert_membership,
  update_membership_row, insert_invite_event, update_invite_retired, active, retire,
}
use dendrite.Membership.Updater.{
  MembershipUpdater, membership_updater, is_invite, is_join, is_leave, event_nid, set_to_invite,
  set_to_join, set_to_leave,
}
use dendrite.Membership.Update
use dendrite.Membership.Update.{
  Membership, MemberEvent, OutputEvent, UpdateError, dispatch, with_event,
  update_to_invite_membership, update_to_join_membership, update_to_leave_membership,
  update_membership, retire_outputs,
}
pub use Rows.*
use Rows.{
  same, membership_of-insert_membership, HasRow, HasRow-insert_membership, membership_of-update,
  membership_of_kept, active-insert_invite, membership_of-insert_invite, HasRow-insert_invite,
  invites-update, membership_of-retired, HasRow-retired, active-retired, same_refl,
}

-- A user that is not invited to a room has no active invite to it.
abbrev pub IsConsistent : Tables → Type 0
IsConsistent t = (r u : ℕ) → is_invite (membership_of t r u) ≡ false → active r u t.invites ≡ []

-- The user of the room is at the new membership; of all others nothing changes; and the invariant
-- holds again.
pub record Moved (t t' : Tables) (room target : ℕ) (m : MembershipState) : Type 0 where
  pub memberships :
      (r u : ℕ) → membership_of t' r u ≡ (if same room target r u then m else membership_of t r u)
  pub others :
      (r u : ℕ) → same room target r u ≡ false → active r u t'.invites ≡ active r u t.invites
  pub settled : is_invite m ≡ false → active room target t'.invites ≡ []

-- An updater that has just been made for a row.
pub record Holds (mu : MembershipUpdater) (t : Tables) : Type 0 where
  pub row : HasRow t mu.room_nid mu.target_user_nid
  pub current : membership_of t mu.room_nid mu.target_user_nid ≡ mu.membership

pub set_to_invite-Moved :
    (mu : MembershipUpdater) (id sender : String) (t : Tables)
    → Holds mu t
    → Moved t (set_to_invite mu id sender t).0 mu.room_nid mu.target_user_nid invite
unfolding set_to_invite
set_to_invite-Moved mu id sender t h =
    let t' = (insert_invite_event t id mu.room_nid mu.target_user_nid sender).0 in
    record {
      memberships = λ r u. ground (
        arith,
        membership_of-update t' mu.room_nid mu.target_user_nid r u sender invite 0 false
            (HasRow-insert_invite t id mu.room_nid mu.target_user_nid _ _ sender h.row),
        membership_of-insert_invite t id mu.room_nid mu.target_user_nid r u sender,
        membership_of_kept t mu.room_nid mu.target_user_nid r u invite,
        h.current,
      );
      others = λ r u e. ground (
        arith,
        invites-update t' mu.room_nid mu.target_user_nid sender invite 0 false,
        active-insert_invite t id mu.room_nid mu.target_user_nid r u sender e,
      );
      settled = λ e. cc;
    }

pub set_to_join-Moved :
    (mu : MembershipUpdater) (id sender : String) (t : Tables)
    → Holds mu t
    → IsConsistent t
    → Moved t
        (set_to_join mu sender id (is_join mu.membership) t).0
        mu.room_nid
        mu.target_user_nid
        join
unfolding set_to_join
set_to_join-Moved mu id sender t h c =
    let t' = (update_invite_retired t mu.room_nid mu.target_user_nid).0 in
    record {
      memberships = λ r u. ground (
        arith,
        membership_of-update t mu.room_nid mu.target_user_nid r u sender join (event_nid t id) false
            h.row,
        membership_of-update t' mu.room_nid mu.target_user_nid r u sender join (event_nid t' id)
            false (HasRow-retired t mu.room_nid mu.target_user_nid _ _ h.row),
        membership_of-retired t mu.room_nid mu.target_user_nid r u,
      );
      others = λ r u e. ground (
        arith,
        invites-update t mu.room_nid mu.target_user_nid sender join (event_nid t id) false,
        invites-update t' mu.room_nid mu.target_user_nid sender join (event_nid t' id) false,
        active-retired t mu.room_nid mu.target_user_nid r u,
      );
      settled = λ e. ground (
        arith,
        invites-update t mu.room_nid mu.target_user_nid sender join (event_nid t id) false,
        invites-update t' mu.room_nid mu.target_user_nid sender join (event_nid t' id) false,
        active-retired t mu.room_nid mu.target_user_nid mu.room_nid mu.target_user_nid,
        same_refl mu.room_nid mu.target_user_nid,
        c mu.room_nid mu.target_user_nid,
        h.current,
      );
    }

pub set_to_leave-Moved :
    (mu : MembershipUpdater) (id sender : String) (t : Tables)
    → Holds mu t
    → Moved t (set_to_leave mu sender id t).0 mu.room_nid mu.target_user_nid leave_or_ban
unfolding set_to_leave
set_to_leave-Moved mu id sender t h =
    let t' = (update_invite_retired t mu.room_nid mu.target_user_nid).0 in
    record {
      memberships = λ r u. ground (
        arith,
        membership_of-update t' mu.room_nid mu.target_user_nid r u sender leave_or_ban
            (event_nid t' id) false (HasRow-retired t mu.room_nid mu.target_user_nid _ _ h.row),
        membership_of-retired t mu.room_nid mu.target_user_nid r u,
        membership_of_kept t mu.room_nid mu.target_user_nid r u leave_or_ban,
        h.current,
      );
      others = λ r u e. ground (
        arith,
        invites-update t' mu.room_nid mu.target_user_nid sender leave_or_ban (event_nid t' id)
            false,
        active-retired t mu.room_nid mu.target_user_nid r u,
      );
      settled = λ e. ground (
        arith,
        invites-update t' mu.room_nid mu.target_user_nid sender leave_or_ban (event_nid t' id)
            false,
        active-retired t mu.room_nid mu.target_user_nid mu.room_nid mu.target_user_nid,
        same_refl mu.room_nid mu.target_user_nid,
      );
    }
