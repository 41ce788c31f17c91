-- ===== src/Membership/Tests.antt =====
-- The theorems about memberships at a concrete room: user 7 is invited, and joins.
use dendrite.Base.{
  ◌≡◌, refl, Bool, true, false, [], ◌∷◌, ◌++◌, none, some, String, ok, arith, ℕ_eq, Pair_eq,
  String_eq,
}
use dendrite.Base.Map.{lookup, insert}
use dendrite.RoomState.Entries.{StateEntry, StateKeyTuple}
use dendrite.Membership.Tables.{
  Tables, MembershipState, membership_of, insert_membership, update_membership_row,
  update_invite_retired, active, retire,
}
use dendrite.Membership.Updater.{membership_updater, set_to_join}
use dendrite.Membership.Update.{
  join, leave, MemberEvent, retire_invite, update_membership, with_event, dispatch,
  update_to_join_membership, retire_outputs,
}
use dendrite.Membership.Changes.{paired, overlay, latest_nid, lookup-paired, StateKeyTuple_eq}
use dendrite.Membership.Consistent.{IsConsistent, Moved}
use dendrite.Membership.Effect.{update_membership-Moved, update_membership-IsConsistent, state_for}
use dendrite.Membership.Retire.{update_membership-told, told}

abbrev member_key : StateKeyTuple
member_key = record { event_type_nid = 5; event_state_key_nid = 7 }

abbrev old_entry : StateEntry
old_entry = record { key = member_key; event_nid = 20 }

abbrev new_entry : StateEntry
new_entry = record { key = member_key; event_nid = 31 }

lookup-paired_lem :
    lookup member_key (paired (old_entry ∷ []) (new_entry ∷ []))
    ≡ overlay member_key
        (latest_nid member_key (old_entry ∷ []))
        (latest_nid member_key (new_entry ∷ []))
lookup-paired_lem = lookup-paired member_key (old_entry ∷ []) (new_entry ∷ [])

abbrev invited : Tables
invited = record {
  memberships =
      (
        (3, 7),
        record {
          membership = MembershipState.invite;
          sender = "@a:one";
          event_nid = 0;
          target_local = true;
          forgotten = false;
        },
      )
      ∷ [];
  invites =
      (record {
        invite_event_id = "$invite";
        room_nid = 3;
        target_nid = 7;
        sender = "@a:one";
        retired = false;
      })
      ∷ [];
  event_nids = ("$join", 31) ∷ [];
}

abbrev joins : MemberEvent
joins = record {
  event_id = "$join";
  sender = "@b:two";
  state_key = some "@b:two";
  membership = some join;
}

abbrev no_local : String → Bool
no_local user = false

joined : Tables
unfolding update_membership_row update_invite_retired insert retire
joined =
    update_membership_row (update_invite_retired invited 3 7).0 3 7 "@b:two" MembershipState.join 31
      false

joins_lem :
    update_membership no_local 3 7 none (some joins) [] invited
    ≡ ok (joined, retire_invite "$invite" join "$join" "@b:two" ∷ [])
unfolding update_membership with_event membership_updater insert_membership dispatch
    update_to_join_membership set_to_join retire_outputs joined membership_of lookup active
joins_lem = refl

invited-IsConsistent : IsConsistent invited
unfolding membership_of lookup active
invited-IsConsistent r u h = ground arith

update_membership-Moved_example : Moved invited joined 3 7 (state_for join)
update_membership-Moved_example =
    update_membership-Moved no_local 3 7 none (some joins) [] invited joined
      (retire_invite "$invite" join "$join" "@b:two" ∷ []) leave join invited-IsConsistent refl refl
      refl joins_lem

update_membership-IsConsistent_example : IsConsistent joined
update_membership-IsConsistent_example =
    update_membership-IsConsistent no_local 3 7 none (some joins) [] invited joined
      (retire_invite "$invite" join "$join" "@b:two" ∷ []) invited-IsConsistent joins_lem

update_membership-told_example :
    (t' : Tables) × (update_membership no_local 3 7 none (some joins) [] invited
      ≡ ok (t', [] ++ told joins join "@b:two" (active 3 7 invited.invites)))
unfolding membership_of lookup
update_membership-told_example =
    update_membership-told no_local 3 7 none joins "@b:two" [] invited leave join refl refl refl
      refl refl refl

-- An invite that did not come from the state of the room, rejected: no event is replaced, which
-- counts as a leave, so that nothing is done and the invite stays active.
abbrev leaves : MemberEvent
leaves = record joins { event_id = "$leave"; membership = some leave }

invite_stays : update_membership no_local 3 7 none (some leaves) [] invited ≡ ok (invited, [])
unfolding update_membership with_event
invite_stays = refl
