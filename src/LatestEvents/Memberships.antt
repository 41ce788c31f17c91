-- ===== src/LatestEvents/Memberships.antt =====
-- `updateMemberships` (roomserver/internal/input/input_membership.go). `member_event` is the event
-- that the database has under a NID, `none` if there is none.
use dendrite.Base.{ℕ, Bool, List, [], ◌∷◌, Option, none, String, ok, ◌>>=◌, nat_eq, if◌then◌else◌}
use dendrite.RoomState.Entries.{StateEntry}
use dendrite.Membership.Changes.{StateChange, membership_changes}
use dendrite.Membership.Tables.{Tables}
use dendrite.Membership.Update.{MemberEvent, OutputEvent, Outcome, update_membership}

module _ (is_local_user : String → Bool) (member_event : ℕ → Option MemberEvent) (room : ℕ) where
  -- The event of one side of a change: 0 stands for none.
  abbrev pub event_of : ℕ → Option MemberEvent
  event_of nid = if nat_eq nid 0 then none else member_event nid

  -- The loop over the changes.
  unfoldable pub update_each : List StateChange → List OutputEvent → Tables → Outcome
  update_each [] updates t = ok (t, updates)
  update_each (c ∷ changes) updates t =
      update_membership is_local_user room c.key.event_state_key_nid (event_of c.removed_event_nid)
        (event_of c.added_event_nid) updates t
      >>= λ p. update_each changes p.1 p.0

  unfoldable pub update_memberships : List StateEntry → List StateEntry → Tables → Outcome
  update_memberships removed added t = update_each (membership_changes removed added) [] t
