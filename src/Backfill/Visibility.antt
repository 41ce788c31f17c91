-- ===== src/Backfill/Visibility.antt =====
-- Whether a server is allowed to see an event (roomserver/auth/auth.go and
-- `CheckServerAllowedToSeeEvent` of roomserver/internal/helpers/helpers.go). Texts are lists of
-- bytes. `split_id` is the domain that `gomatrixserverlib.SplitID` finds after the sigil '@'.
use dendrite.Base.{
  ℕ, Bool, true, false, ◌&&◌, ◌||◌, List, [], ◌∷◌, Option, none, some, ◌==◌, ℕ_eq, List_eq, String,
  String_eq, if◌then◌else◌, any, keep,
}
use dendrite.RoomState.Entries.{StateEntry}
use dendrite.RoomState.Load.{and_then}

abbrev pub Bytes : Type 0
Bytes = List ℕ

-- What the code reads of a state event: `none` stands for a nil state key, for content that does
-- not decode, and for an error of `Membership`.
pub record StateEvent : Type 0 where
  pub event_type : String
  pub state_key : Option Bytes
  pub history_visibility : Option String
  pub membership : Option String

abbrev pub history_visibility_type : String
history_visibility_type = "m.room.history_visibility"

abbrev pub known_states : List String
known_states = "invited" ∷ "joined" ∷ "shared" ∷ "world_readable" ∷ []

abbrev pub understood : String → Option String → String
understood visibility none = visibility
understood visibility (some s) = if any (λ known. known == s) known_states then s else visibility

abbrev pub decodes : Option String → Bool
decodes none = false
decodes (some s) = true

-- The loop of `HistoryVisibilityForRoom`. Content that does not decode ends it.
unfoldable pub visibility_from : String → List StateEvent → String
visibility_from visibility [] = visibility
visibility_from visibility (ev ∷ events) =
    let skipped = visibility_from visibility events in
    let read = visibility_from (understood visibility ev.history_visibility) events in
    if ev.event_type == history_visibility_type
    then (if decodes ev.history_visibility then read else visibility)
    else skipped

unfoldable pub history_visibility_for_room : List StateEvent → String
history_visibility_for_room auth_events = visibility_from "shared" auth_events

abbrev pub is_for : String → Option String → Bool
is_for want none = false
is_for want (some membership) = membership == want

abbrev pub is_domain : Bytes → Option Bytes → Bool
is_domain server none = false
is_domain server (some domain) = domain == server

module _ (split_id : Bytes → Option Bytes) where
  -- The body of the loop of `IsAnyUserOnServerWithMembership`.
  abbrev pub is_user_with : Bytes → String → StateEvent → Bool
  is_user_with server want ev =
      is_for want ev.membership && is_domain server (and_then ev.state_key split_id)

  unfoldable pub is_any_user_on_server_with_membership : Bytes → List StateEvent → String → Bool
  is_any_user_on_server_with_membership server auth_events want =
      any (is_user_with server want) auth_events

  unfoldable pub is_server_allowed : Bytes → Bool → List StateEvent → Bool
  is_server_allowed server currently_in_room auth_events =
      let visibility = history_visibility_for_room auth_events in
      if visibility == "world_readable"
      then true
      else (if is_any_user_on_server_with_membership server auth_events "join"
          then true
          else (if (visibility == "shared") && currently_in_room
              then true
              else (if is_any_user_on_server_with_membership server auth_events "invite"
                    && (visibility == "invited")
                  then true
                  else false)))

-- strings.HasSuffix
unfoldable pub has_suffix : Bytes → Bytes → Bool
has_suffix [] suffix = suffix == []
has_suffix (c ∷ s) suffix = ((c ∷ s) == suffix) || has_suffix s suffix

-- The state of the room at an event, as `LoadStateAtEvent` returns it.
pub data StateAt : Type 0 where
  no_rows failed : StateAt
  entries : List StateEntry → StateAt

abbrev pub is_kept_key : Bytes → Bytes → Bool
is_kept_key server key = (key == []) || has_suffix key (b':' ∷ server)

-- Whether the map of state keys still has a state key NID after the loop that deletes from it.
abbrev pub has_kept : Bytes → Option Bytes → Bool
has_kept server none = false
has_kept server (some key) = is_kept_key server key

-- The database: the map from state key NIDs to state keys, and the events of entries.
module _ (split_id : Bytes → Option Bytes) (state_keys : Option (ℕ → Option Bytes))
    (load_state_events : List StateEntry → Option (List StateEvent)) where
  abbrev pub filtered : Bytes → (ℕ → Option Bytes) → List StateEntry → List StateEntry
  filtered server keys state_entries =
      keep (λ e. has_kept server (keys e.key.event_state_key_nid)) state_entries

  abbrev pub decided : Bytes → Bool → List StateEntry → Option Bool
  decided server in_room [] = some false
  decided server in_room (e ∷ l) =
      and_then (load_state_events (e ∷ l))
        λ events. some (is_server_allowed split_id server in_room events)

  -- An error is `none`.
  unfoldable pub check_server_allowed_to_see_event : Bytes → Bool → StateAt → Option Bool
  check_server_allowed_to_see_event server in_room no_rows = some false
  check_server_allowed_to_see_event server in_room failed = none
  check_server_allowed_to_see_event server in_room (entries state_entries) =
      and_then state_keys λ keys. decided server in_room (filtered server keys state_entries)
