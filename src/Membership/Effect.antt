-- ===== src/Membership/Effect.antt =====
-- What `updateMembership` does as a whole: the user moves to the new membership, the invariant is
-- kept, and the consumers are told of every invite that is retired.
use dendrite.Base.{
  ℕ, ◌≡◌, refl, subst, inl, inr, Bool, true, false, not, ◌&&◌, List, Option, none, some, String, ok,
  >>=-eq-ok, Bool-cases, arith,
}
use dendrite.Membership.Tables.{Tables, MembershipState, leave_or_ban, insert_membership}
use dendrite.Membership.Updater.{MembershipUpdater, membership_updater, is_leave}
use dendrite.Membership.Update.{
  Membership, invite, join, leave, ban, other, MemberEvent, OutputEvent, membership_eq,
  membership_or_leave, update_to_invite_membership, update_to_join_membership,
  update_to_leave_membership, dispatch, with_event, update_membership,
}
use dendrite.Membership.Consistent.{
  IsConsistent, Moved, Holds, set_to_invite-Moved, set_to_join-Moved, set_to_leave-Moved, same,
  same_eq, membership_of_kept, membership_of-insert_membership, HasRow-insert_membership,
}

-- The state of the membership table for a membership.
abbrev pub state_for : Membership → MembershipState
state_for invite = MembershipState.invite
state_for join = MembershipState.join
state_for _ = leave_or_ban

module _ (mu : MembershipUpdater) (add : MemberEvent) (updates : List OutputEvent) (t t' : Tables)
    (o : List OutputEvent) where
  abbrev Reaches : MembershipState → Type 0
  Reaches = Moved t t' mu.room_nid mu.target_user_nid

  invite-Moved :
      Holds mu t
      → update_to_invite_membership mu add updates t ≡ ok (t', o)
      → Reaches MembershipState.invite
  unfolding update_to_invite_membership
  invite-Moved h e =
      subst (λ x. Moved t x mu.room_nid mu.target_user_nid MembershipState.invite) (ground arith)
        (set_to_invite-Moved mu add.event_id add.sender t h)

  join-Moved :
      Holds mu t
      → IsConsistent t
      → update_to_join_membership mu add updates t ≡ ok (t', o)
      → Reaches MembershipState.join
  unfolding update_to_join_membership
  join-Moved h c e =
      subst (λ x. Moved t x mu.room_nid mu.target_user_nid MembershipState.join) (ground arith)
        (set_to_join-Moved mu add.event_id add.sender t h c)

  still_left :
      Holds mu t
      → IsConsistent t
      → is_leave mu.membership ≡ true
      → Moved t t mu.room_nid mu.target_user_nid leave_or_ban
  still_left h c l = record {
    memberships = λ r u.
        membership_of_kept t mu.room_nid mu.target_user_nid r u leave_or_ban
          (ground (arith, h.current));
    others = λ r u e. refl;
    settled = λ e. c mu.room_nid mu.target_user_nid (ground (arith, h.current));
  }

  leave-Moved :
      (m : Membership)
      → Holds mu t
      → IsConsistent t
      → update_to_leave_membership mu add m updates t ≡ ok (t', o)
      → Reaches leave_or_ban
  unfolding update_to_leave_membership
  leave-Moved m h c e = elim (Bool-cases (is_leave mu.membership)) [
    | inl l ↦
        subst (λ x. Moved t x mu.room_nid mu.target_user_nid leave_or_ban) (ground (arith, l))
          (still_left h c l)
    | inr l ↦
        subst (λ x. Moved t x mu.room_nid mu.target_user_nid leave_or_ban) (ground (arith, l))
          (set_to_leave-Moved mu add.event_id add.sender t h)
  ]

  dispatch-Moved :
      (m : Membership)
      → Holds mu t
      → IsConsistent t
      → dispatch mu add m updates t ≡ ok (t', o)
      → Reaches (state_for m)
  unfolding dispatch
  dispatch-Moved invite h c e = invite-Moved h e
  dispatch-Moved join h c e = join-Moved h c e
  dispatch-Moved leave h c e = leave-Moved leave h c e
  dispatch-Moved ban h c e = leave-Moved ban h c e
  dispatch-Moved (other m) h c e = cc

updater-Holds :
    (t : Tables) (room target : ℕ) (l : Bool)
    → Holds (membership_updater t room target l).1 (membership_updater t room target l).0
unfolding membership_updater
updater-Holds t room target l = record {
  row = HasRow-insert_membership t room target l;
  current = refl;
}

pub invites-insert_membership :
    (t : Tables) (room target : ℕ) (l : Bool)
    → (insert_membership t room target l).invites ≡ t.invites
unfolding insert_membership
invites-insert_membership t room target l = ground arith

insert-IsConsistent :
    (t : Tables) (room target : ℕ) (l : Bool)
    → IsConsistent t
    → IsConsistent (insert_membership t room target l)
insert-IsConsistent t room target l c r u h = ground (
  arith,
  membership_of-insert_membership t room target r u l,
  invites-insert_membership t room target l,
  c r u,
)

module _ (is_local_user : String → Bool) (room target : ℕ) where
  with_event-Moved :
      (add : MemberEvent) (m : Membership) (updates : List OutputEvent) (t t' : Tables)
      (o : List OutputEvent)
      → IsConsistent t
      → with_event is_local_user room target add m updates t ≡ ok (t', o)
      → Moved t t' room target (state_for m)
  unfolding with_event membership_updater
  with_event-Moved add m updates t t' o c e =
      let l : Bool = elim add.state_key [ none ↦ false | some user ↦ is_local_user user ] in
      let t1 = insert_membership t room target l in
      let mu = (membership_updater t room target l).1 in
      let moved =
        dispatch-Moved mu add updates t1 t' o m (updater-Holds t room target l)
          (insert-IsConsistent t room target l c) e in
      record {
        memberships = λ r u.
            ground
              (arith, moved.memberships r u, membership_of-insert_membership t room target r u l);
        others =
            λ r u d. ground (arith, moved.others r u d, invites-insert_membership t room target l);
        settled = moved.settled;
      }

  -- When `updateMembership` succeeds on consistent tables, and the membership changes or is a
  -- join again, the user is at the new membership (leave, if no event is added), the
  -- memberships and the active invites of all others are as they were, and the user has no
  -- active invite unless the new membership is an invite.
  pub update_membership-Moved :
      (remove add : Option MemberEvent) (updates : List OutputEvent) (t t' : Tables)
      (o : List OutputEvent) (old new : Membership)
      → IsConsistent t
      → membership_or_leave remove ≡ ok old
      → membership_or_leave add ≡ ok new
      → (membership_eq old new && not (membership_eq new join)) ≡ false
      → update_membership is_local_user room target remove add updates t ≡ ok (t', o)
      → Moved t t' room target (state_for new)
  unfolding update_membership
  update_membership-Moved remove (some add) updates t t' o old new c ho hn hc e =
      with_event-Moved add new updates t t' o c (ground (arith, ho, hn, hc, e))
  update_membership-Moved (some remove) none updates t t' o old new c ho hn hc e =
      subst (λ m. Moved t t' room target (state_for m)) {x = leave} {y = new} (ground (arith, hn))
        (with_event-Moved remove leave updates t t' o c (ground (arith, ho, hn, hc, e)))
  update_membership-Moved none none updates t t' o old new c ho hn hc e =
      ground (arith, ho, hn, hc, e)

  Moved-IsConsistent :
      (t t' : Tables) (m : MembershipState)
      → IsConsistent t
      → Moved t t' room target m
      → IsConsistent t'
  Moved-IsConsistent t t' m c moved r u h = elim (Bool-cases (same room target r u)) [
    | inl s ↦
        let (p, q) = same_eq room target r u s in
        rw (← p, ← q) (moved.settled (ground (arith, moved.memberships r u, s, h)))
    | inr s ↦ ground (arith, moved.others r u s, moved.memberships r u, c r u)
  ]

  -- `updateMembership` keeps the tables consistent: when it succeeds, a user whose membership
  -- in a room is not an invite has no active invite there, if that held before for every user
  -- and room.
  pub update_membership-IsConsistent :
      (remove add : Option MemberEvent) (updates : List OutputEvent) (t t' : Tables)
      (o : List OutputEvent)
      → IsConsistent t
      → update_membership is_local_user room target remove add updates t ≡ ok (t', o)
      → IsConsistent t'
  unfolding update_membership
  update_membership-IsConsistent remove add updates t t' o c e =
      let (old, ho, e1) = >>=-eq-ok (membership_or_leave remove) _ e in
      let (new, hn, e2) = >>=-eq-ok (membership_or_leave add) _ e1 in
      elim (Bool-cases (membership_eq old new && not (membership_eq new join))) [
        | inl same ↦ subst IsConsistent (ground (arith, same, e2)) c
        | inr changed ↦
            Moved-IsConsistent t t' (state_for new) c
              (update_membership-Moved remove add updates t t' o old new c ho hn changed e)
      ]
