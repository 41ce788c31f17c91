-- ===== src/Membership/Update.antt =====
-- `updateMembership` of roomserver/internal/input/input_membership.go and
-- `UpdateToInviteMembership` of roomserver/internal/helpers/helpers.go.
use dendrite.Base.{
  ℕ, Bool, true, false, not, ◌&&◌, List, [], ◌∷◌, ◌++◌, Option, none, some, String, if◌then◌else◌,
  Result, ok, err, ◌>>=◌, ◌==◌, String_eq,
}
use dendrite.Membership.Tables.{Tables}
use dendrite.Membership.Updater.{
  MembershipUpdater, membership_updater, is_join, is_leave, set_to_invite, set_to_join,
  set_to_leave,
}

-- The memberships that gomatrixserverlib names, and any other text.
pub data Membership : Type 0 where
  invite join leave ban : Membership
  other : String → Membership

abbrev pub membership_eq : Membership → Membership → Bool
membership_eq invite invite = true
membership_eq join join = true
membership_eq leave leave = true
membership_eq ban ban = true
membership_eq (other a) (other b) = a == b
membership_eq _ _ = false

-- What the code reads of an m.room.member event; `membership` is `none` where `Membership()` fails.
pub record MemberEvent : Type 0 where
  pub event_id : String
  pub sender : String
  pub state_key : Option String
  pub membership : Option Membership

pub data OutputEvent : Type 0 where
  new_invite : String → OutputEvent
  -- the invite, the new membership, the event that retired it, and the user
  retire_invite : String → Membership → String → String → OutputEvent

-- `panic` is a run-time panic: a membership that is not one of the four, or a nil state key.
pub data UpdateError : Type 0 where
  bad_membership panic : UpdateError

abbrev pub membership_or_leave : Option MemberEvent → Result UpdateError Membership
membership_or_leave none = ok leave
membership_or_leave (some e) = elim e.membership [ none ↦ err bad_membership | some m ↦ ok m ]

-- The loop that tells the consumers which invites were retired.
unfoldable pub retire_outputs :
    MemberEvent → Membership → List String → Result UpdateError (List OutputEvent)
retire_outputs add m [] = ok []
retire_outputs add m (id ∷ retired) = elim add.state_key [
  | none ↦ err panic
  | some user ↦
      retire_outputs add m retired >>= λ rest. ok (retire_invite id m add.event_id user ∷ rest)
]

abbrev pub Outcome : Type 0
Outcome = Result UpdateError (Tables × List OutputEvent)

unfoldable pub update_to_invite_membership :
    MembershipUpdater → MemberEvent → List OutputEvent → Tables → Outcome
update_to_invite_membership mu add updates t =
    let (t', needs_sending) = set_to_invite mu add.event_id add.sender t in
    ok (t', if needs_sending then updates ++ new_invite add.event_id ∷ [] else updates)

unfoldable pub update_to_join_membership :
    MembershipUpdater → MemberEvent → List OutputEvent → Tables → Outcome
update_to_join_membership mu add updates t =
    if is_join mu.membership
    then ok ((set_to_join mu add.sender add.event_id true t).0, updates)
    else (let (t', retired) = set_to_join mu add.sender add.event_id false t in
        retire_outputs add join retired >>= λ outputs. ok (t', updates ++ outputs))

unfoldable pub update_to_leave_membership :
    MembershipUpdater → MemberEvent → Membership → List OutputEvent → Tables → Outcome
update_to_leave_membership mu add m updates t =
    if is_leave mu.membership
    then ok (t, updates)
    else (let (t', retired) = set_to_leave mu add.sender add.event_id t in
        retire_outputs add m retired >>= λ outputs. ok (t', updates ++ outputs))

-- The switch over the new membership.
unfoldable pub dispatch :
    MembershipUpdater → MemberEvent → Membership → List OutputEvent → Tables → Outcome
dispatch mu add invite updates t = update_to_invite_membership mu add updates t
dispatch mu add join updates t = update_to_join_membership mu add updates t
dispatch mu add leave updates t = update_to_leave_membership mu add leave updates t
dispatch mu add ban updates t = update_to_leave_membership mu add ban updates t
dispatch mu add (other m) updates t = err panic

-- A user is local if the server of the state key is this one: the parameter answers that.
module _ (is_local_user : String → Bool) (room : ℕ) where
  abbrev is_local_target : MemberEvent → Bool
  is_local_target e = elim e.state_key [ none ↦ false | some user ↦ is_local_user user ]

  unfoldable pub with_event : ℕ → MemberEvent → Membership → List OutputEvent → Tables → Outcome
  with_event target add m updates t =
      let (t', mu) = membership_updater t room target (is_local_target add) in
      dispatch mu add m updates t'

  -- Where no event is added the removed one stands in for it, and the user is taken to leave.
  abbrev replaced :
      ℕ → Option MemberEvent → Option MemberEvent → Membership → List OutputEvent → Tables → Outcome
  replaced target remove (some add) m updates t = with_event target add m updates t
  replaced target (some remove) none m updates t = with_event target remove leave updates t
  replaced target none none m updates t = err panic

  unfoldable pub update_membership :
      ℕ → Option MemberEvent → Option MemberEvent → List OutputEvent → Tables → Outcome
  update_membership target remove add updates t = membership_or_leave remove >>= λ old.
      membership_or_leave add >>= λ new.
      if membership_eq old new && not (membership_eq new join)
      then ok (t, updates)
      else replaced target remove add new updates t
