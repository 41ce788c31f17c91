-- ===== src/Membership/Retire.antt =====
-- The invites that a membership update retires, as the consumers are told of them.
use dendrite.Base.{
  ℕ, ◌≡◌, refl, ◌∙◌, Bool, true, false, not, ◌&&◌, List, [], ◌∷◌, ◌++◌, map, Option, some, String,
  ok, arith,
}
use dendrite.Membership.Tables.{
  Tables, MembershipState, membership_of, insert_membership, active, update_invite_retired,
}
use dendrite.Membership.Updater.{MembershipUpdater, membership_updater, set_to_join, set_to_leave}
use dendrite.Membership.Update.{
  Membership, invite, join, leave, ban, other, MemberEvent, OutputEvent, retire_invite,
  membership_eq, membership_or_leave, retire_outputs, update_to_join_membership,
  update_to_leave_membership, dispatch, with_event, update_membership,
}
use dendrite.Membership.Consistent.{membership_of-insert_membership}
use dendrite.Membership.Effect.{invites-insert_membership}

-- Whether a membership ends an invite.
abbrev pub ends_invite : Membership → Bool
ends_invite join = true
ends_invite leave = true
ends_invite ban = true
ends_invite _ = false

abbrev pub told : MemberEvent → Membership → String → List String → List OutputEvent
told add m user = map λ id. retire_invite id m add.event_id user

retire_outputs-told :
    (add : MemberEvent) (m : Membership) (user : String) (ids : List String)
    → add.state_key ≡ some user
    → retire_outputs add m ids ≡ ok (told add m user ids)
unfolding retire_outputs
retire_outputs-told add m user [] h = refl
retire_outputs-told add m user (id ∷ ids) h =
    ground (arith, retire_outputs-told add m user ids h, h)

module _ (mu : MembershipUpdater) (add : MemberEvent) (user : String) (updates : List OutputEvent)
    (t : Tables) (named : add.state_key ≡ some user)
    (invited : mu.membership ≡ MembershipState.invite) where
  abbrev retired_now : List String
  retired_now = active mu.room_nid mu.target_user_nid t.invites

  dispatch-told :
      (m : Membership)
      → ends_invite m ≡ true
      → (t' : Tables) × (dispatch mu add m updates t
          ≡ ok (t', updates ++ told add m user retired_now))
  unfolding dispatch update_to_join_membership update_to_leave_membership set_to_join set_to_leave
      update_invite_retired
  dispatch-told invite h = cc
  dispatch-told (other m) h = cc
  dispatch-told join h = (
    (set_to_join mu add.sender add.event_id false t).0,
    ground (arith, retire_outputs-told add join user retired_now named, invited),
  )
  dispatch-told leave h = (
    (set_to_leave mu add.sender add.event_id t).0,
    ground (arith, retire_outputs-told add leave user retired_now named, invited),
  )
  dispatch-told ban h = (
    (set_to_leave mu add.sender add.event_id t).0,
    ground (arith, retire_outputs-told add ban user retired_now named, invited),
  )

-- If an invited user joins, leaves or is banned by an event that names the user, and the membership
-- of that event is not the one of the event that it replaces (which counts as a leave when there is
-- none), unless it is a join, then the update succeeds, and adds to the output one retirement for
-- each invite that was active, and no more.
pub update_membership-told :
    (is_local_user : String → Bool) (room target : ℕ) (remove : Option MemberEvent)
    (add : MemberEvent) (user : String) (updates : List OutputEvent) (t : Tables)
    (old new : Membership)
    → add.state_key ≡ some user
    → membership_of t room target ≡ MembershipState.invite
    → membership_or_leave remove ≡ ok old
    → add.membership ≡ some new
    → (membership_eq old new && not (membership_eq new join)) ≡ false
    → ends_invite new ≡ true
    → (t' : Tables) × (update_membership is_local_user room target remove (some add) updates t
        ≡ ok (t', updates ++ told add new user (active room target t.invites)))
unfolding update_membership with_event membership_updater
update_membership-told is_local_user room target remove add user updates t old new hs hi ho hn hc
      he =
    let l = is_local_user user in
    let t1 = insert_membership t room target l in
    let (t', e) =
      dispatch-told (membership_updater t room target l).1 add user updates t1 hs
        (membership_of-insert_membership t room target room target l ∙ hi) new he in
    (t', ground (arith, ho, hn, hc, hs, e, invites-insert_membership t room target l))
