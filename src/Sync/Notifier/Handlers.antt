-- ===== src/Sync/Notifier/Handlers.antt =====
-- What the notifier does for each piece of news (syncapi/notifier/notifier.go).
use dendrite.Base.{
  ℕ, false, not, List, [], ◌∷◌, ◌++◌, Option, none, some, String, String_eq, ◌==◌, get_elem?,
  if◌then◌else◌,
}
use dendrite.Sync.Token.{StreamingToken, apply_updates}
use dendrite.Sync.UserStream
use dendrite.Sync.UserStream.{UserDeviceStream, Listener, get_notify_channel}
use dendrite.Sync.Streams.{write}
use dendrite.Sync.Notifier.{
  Notifier, Event, is_nil, add_joined_user, remove_joined_user, joined_users, add_peeking_device,
  remove_peeking_device, peeking_devices, remove_empty_user_streams, make_user_device_stream,
  wakeup_users, wakeup_user_device,
}

-- `n.currPos.ApplyUpdates(posUpdate)`
abbrev pub moved : StreamingToken → Notifier → Notifier
moved update n = record n { curr_pos = apply_updates n.curr_pos update }

-- The change of one membership, with the users to notify.
unfoldable pub on_membership :
    String → String → Option String → List String → Notifier → List String × Notifier
on_membership room target none users n = (users, n)
on_membership room target (some membership) users n =
    if membership == "invite"
    then (users ++ target ∷ [], n)
    else if membership == "join"
    then (users ++ target ∷ [], add_joined_user room target n)
    else if membership == "leave"
    then (users, remove_joined_user room target n)
    else if membership == "ban"
    then (users, remove_joined_user room target n)
    else (users, n)

-- Only an event of the type m.room.member with a state key is a change of membership.
unfoldable pub on_state_key :
    String
    → String
    → Option String
    → Option String
    → List String
    → Notifier
    → List String × Notifier
on_state_key room event_type none membership users n = (users, n)
on_state_key room event_type (some target) membership users n =
    if event_type == "m.room.member"
    then on_membership room target membership users n
    else (users, n)

-- The part of `OnNewEvent` about an event.
unfoldable pub wakeup_for_event : Event → Notifier → Option Notifier
wakeup_for_event ev n =
    let (users, m) =
      on_state_key ev.room_id ev.event_type ev.state_key ev.membership (joined_users ev.room_id n)
        n in
    wakeup_users users (peeking_devices ev.room_id n) n.curr_pos m

unfoldable pub on_new_event :
    ℕ → Option Event → String → List String → StreamingToken → Notifier → Option Notifier
on_new_event now ev room users update n =
    let m = remove_empty_user_streams now (moved update n) in
    elim ev [
      | some e ↦ wakeup_for_event e m
      | none ↦
          if not (room == "")
          then wakeup_users (joined_users room m) (peeking_devices room m) m.curr_pos m
          else if not (is_nil users)
          then wakeup_users users [] m.curr_pos m
          else some m
    ]

-- The stream is woken with the update, not with the new position of the notifier.
unfoldable pub on_new_account_data : String → StreamingToken → Notifier → Option Notifier
on_new_account_data user update n = wakeup_users (user ∷ []) [] update (moved update n)

unfoldable pub on_new_peek : String → String → String → StreamingToken → Notifier → Notifier
on_new_peek room user device update n = add_peeking_device room user device (moved update n)

unfoldable pub on_retire_peek : String → String → String → StreamingToken → Notifier → Notifier
on_retire_peek room user device update n = remove_peeking_device room user device (moved update n)

unfoldable pub on_new_send_to_device :
    String → List String → StreamingToken → Notifier → Option Notifier
on_new_send_to_device user devices update n =
    let m = moved update n in wakeup_user_device user devices m.curr_pos m

unfoldable pub on_new_typing : String → StreamingToken → Notifier → Option Notifier
on_new_typing room update n =
    let m = moved update n in wakeup_users (joined_users room m) [] m.curr_pos m

unfoldable pub on_new_receipt : String → StreamingToken → Notifier → Option Notifier
on_new_receipt room update n =
    let m = moved update n in wakeup_users (joined_users room m) [] m.curr_pos m

-- The user whose keys changed is not read.
unfoldable pub on_new_key_change : StreamingToken → String → String → Notifier → Option Notifier
on_new_key_change update wake key_change n =
    let m = moved update n in wakeup_users (wake ∷ []) [] m.curr_pos m

unfoldable pub on_new_invite : StreamingToken → String → Notifier → Option Notifier
on_new_invite update wake n = let m = moved update n in wakeup_users (wake ∷ []) [] m.curr_pos m

abbrev pub with_stream : ℕ → UserDeviceStream → Notifier → Notifier
with_stream p t n = record n {
  heap = record { streams = write p t n.heap.streams; channels = n.heap.channels };
}

-- `GetListener` of a stream, through the pointer to it.
unfoldable pub listen : ℕ → Notifier → Option UserDeviceStream → Listener × Notifier
listen p n none = (record { has_closed = false }, n)
listen p n (some s) = let (l, t) = UserStream.get_listener s in (l, with_stream p t n)

-- `GetListener`, with the pointer to the stream.
unfoldable pub get_listener : ℕ → String → String → Notifier → ℕ × Listener × Notifier
get_listener now user device n =
    let (p, m) = make_user_device_stream now user device (remove_empty_user_streams now n) in
    let (l, o) = listen p m (get_elem? m.heap.streams p) in (p, l, o)

-- `GetNotifyChannel` through the pointer to the stream; the channel is that of the stream's function.
unfoldable pub ask : ℕ → StreamingToken → Notifier → Option UserDeviceStream → Notifier
ask p since n none = n
ask p since n (some s) = record n {
  heap = record {
    streams = n.heap.streams;
    channels = (get_notify_channel since s n.heap.channels).1;
  };
}

-- `Close` through the pointer to the stream, of a listener or by the finalizer of a copy of it.
unfoldable pub finish : ℕ → ℕ → Listener → Notifier → Option UserDeviceStream → Notifier
finish now p l n none = n
finish now p l n (some s) = with_stream p (UserStream.close now l s).1 n
