-- ===== src/Sync/Notifier/Operations.antt =====
-- Every operation on the notifier and on its streams, as one step
-- (syncapi/notifier/notifier.go, syncapi/notifier/userstream.go).
use dendrite.Base.{
  ℕ, ◌≡◌, refl, ap, sym, subst, Bool, true, false, not, List, [], ◌∷◌, ◌++◌, Option, none, some,
  String, String_eq, ◌==◌, get_elem?, if◌then◌else◌, Bool-cases, inl, inr, map,
}
use dendrite.Sync.Token.{StreamingToken, is_after}
use dendrite.Sync.UserStream
use dendrite.Sync.UserStream.{
  Channels, UserDeviceStream, Listener, is_closed, get_notify_channel, new_user_device_stream,
  make_channel,
}
use dendrite.Sync.UserStream.Wakes.{
  get_notify_channel-behind, get_notify_channel-up_to_date, close-signal_channel,
}
use dendrite.Sync.Streams.Sound.{IsSound}
use dendrite.Sync.Streams.Woken.{wake_all-IsHeard}
use dendrite.Sync.Notifier.Sound.{written-IsSound, with_closed-IsSound, append-IsSound}
use dendrite.Sync.Notifier.{
  Notifier, Event, PeekingDevice, is_nil, joined_users, peeking_devices, streams_of_users,
  streams_of_devices, remove_empty_user_streams, find_user_device_stream, make_user_device_stream,
  stream_or_new, add_user_device_stream, with_heap, wakeup_users, wakeup_user_device,
  add_peeking_device, remove_peeking_device,
}
use dendrite.Sync.Notifier.Handlers.{
  moved, on_state_key, wakeup_for_event, on_new_event, on_new_account_data, on_new_peek,
  on_retire_peek, on_new_send_to_device, on_new_typing, on_new_receipt, on_new_key_change,
  on_new_invite, listen, get_listener, ask, finish,
}
use dendrite.Sync.Notifier.Waiting.{on_state_key-IsSameFor, remove_empty_user_streams-rest}

pub data Operation : Type 0 where
  event : ℕ → Option Event → String → List String → StreamingToken → Operation
  account_data : String → StreamingToken → Operation
  peek : String → String → String → StreamingToken → Operation
  unpeek : String → String → String → StreamingToken → Operation
  to_device : String → List String → StreamingToken → Operation
  typing : String → StreamingToken → Operation
  receipt : String → StreamingToken → Operation
  key_change : StreamingToken → String → String → Operation
  invite : StreamingToken → String → Operation
  listening : ℕ → String → String → Operation
  asking : ℕ → StreamingToken → Operation
  finishing : ℕ → ℕ → Listener → Operation

unfoldable pub perform : Operation → Notifier → Option Notifier
perform (event now ev room users update) n = on_new_event now ev room users update n
perform (account_data user update) n = on_new_account_data user update n
perform (peek room user device update) n = some (on_new_peek room user device update n)
perform (unpeek room user device update) n = some (on_retire_peek room user device update n)
perform (to_device user devices update) n = on_new_send_to_device user devices update n
perform (typing room update) n = on_new_typing room update n
perform (receipt room update) n = on_new_receipt room update n
perform (key_change update wake changed) n = on_new_key_change update wake changed n
perform (invite update wake) n = on_new_invite update wake n
perform (listening now user device) n = some (get_listener now user device n).2
perform (asking p since) n = some (ask p since n (get_elem? n.heap.streams p))
perform (finishing now p l) n = some (finish now p l n (get_elem? n.heap.streams p))

abbrev pub IsSoundAfter : Option Notifier → Type 0
IsSoundAfter r = (m : Notifier) × (r ≡ some m) × IsSound m.heap

wakeup_users-IsSoundAfter :
    (users : List String) (devices : List PeekingDevice) (new : StreamingToken) (n : Notifier)
    → IsSound n.heap
    → IsSoundAfter (wakeup_users users devices new n)
unfolding wakeup_users
wakeup_users-IsSoundAfter users devices new n sound =
    let (g, h, sound', _) =
      wake_all-IsHeard new (streams_of_users n users ++ streams_of_devices n devices) n.heap
        sound in
    (record n { heap = g }, ap (with_heap n) h, sound')

wakeup_user_device-IsSoundAfter :
    (user : String) (devices : List String) (new : StreamingToken) (n : Notifier)
    → IsSound n.heap
    → IsSoundAfter (wakeup_user_device user devices new n)
unfolding wakeup_user_device
wakeup_user_device-IsSoundAfter user devices new n sound =
    let (g, h, sound', _) =
      wake_all-IsHeard new (streams_of_devices n (map (λ d. (user, d)) devices)) n.heap sound in
    (record n { heap = g }, ap (with_heap n) h, sound')

either {ℓ} : {A : Type ℓ} (P : A → Type 0) (b : Bool) (x y : A) → P x → P y → P (if b then x else y)
either P true x y p q = p
either P false x y p q = q

wakeup_for_event-IsSoundAfter :
    (ev : Event) (n : Notifier) → IsSound n.heap → IsSoundAfter (wakeup_for_event ev n)
unfolding wakeup_for_event
wakeup_for_event-IsSoundAfter ev n sound =
    let joined = joined_users ev.room_id n in
    let r = on_state_key ev.room_id ev.event_type ev.state_key ev.membership joined n in
    let (heap, _) =
      on_state_key-IsSameFor ev.room_id ev.event_type ev.state_key ev.membership joined n in
    wakeup_users-IsSoundAfter r.0 (peeking_devices ev.room_id n) n.curr_pos r.1
      (subst IsSound (sym heap) sound)

on_new_event-IsSoundAfter :
    (now : ℕ) (ev : Option Event) (room : String) (users : List String) (update : StreamingToken)
    (n : Notifier)
    → IsSound n.heap
    → IsSoundAfter (on_new_event now ev room users update n)
unfolding on_new_event
on_new_event-IsSoundAfter now (some ev) room users update n sound =
    wakeup_for_event-IsSoundAfter ev (remove_empty_user_streams now (moved update n))
      (subst IsSound (remove_empty_user_streams-rest now (moved update n)).0 sound)
on_new_event-IsSoundAfter now none room users update n sound =
    let m = remove_empty_user_streams now (moved update n) in
    let sound' = subst IsSound (remove_empty_user_streams-rest now (moved update n)).0 sound in
    either IsSoundAfter (not (room == "")) _ _
      (wakeup_users-IsSoundAfter (joined_users room m) (peeking_devices room m) m.curr_pos m sound')
      (either IsSoundAfter (not (is_nil users)) _ _
        (wakeup_users-IsSoundAfter users [] m.curr_pos m sound') (m, refl, sound'))

stream_or_new-IsSound :
    (now : ℕ) (user device : String) (n : Notifier) (o : Option ℕ)
    → IsSound n.heap
    → IsSound (stream_or_new now user device n o).1.heap
unfolding stream_or_new add_user_device_stream new_user_device_stream make_channel
stream_or_new-IsSound now user device n none sound = append-IsSound n.heap _ sound refl
stream_or_new-IsSound now user device n (some p) sound = sound

listen-IsSound :
    (p : ℕ) (n : Notifier) (o : Option UserDeviceStream)
    → IsSound n.heap
    → get_elem? n.heap.streams p ≡ o
    → IsSound (listen p n o).1.heap
unfolding listen UserStream.get_listener
listen-IsSound p n none sound e = sound
listen-IsSound p n (some s) sound e = written-IsSound n.heap p s _ sound e refl

ask-IsSound :
    (p : ℕ) (since : StreamingToken) (n : Notifier) (o : Option UserDeviceStream)
    → IsSound n.heap
    → IsSound (ask p since n o).heap
unfolding ask
ask-IsSound p since n none sound = sound
ask-IsSound p since n (some s) sound = elim (Bool-cases (is_after s.pos since)) [
  | inl e ↦
      subst (λ r. IsSound (record { streams = n.heap.streams; channels = r.1 }))
        (sym (get_notify_channel-behind since s n.heap.channels e))
        (with_closed-IsSound n.heap sound)
  | inr e ↦
      subst (λ r. IsSound (record { streams = n.heap.streams; channels = r.1 }))
        (sym (get_notify_channel-up_to_date since s n.heap.channels e)) sound
]

finish-IsSound :
    (now p : ℕ) (l : Listener) (n : Notifier) (o : Option UserDeviceStream)
    → IsSound n.heap
    → get_elem? n.heap.streams p ≡ o
    → IsSound (finish now p l n o).heap
unfolding finish
finish-IsSound now p l n none sound e = sound
finish-IsSound now p l n (some s) sound e =
    written-IsSound n.heap p s _ sound e (close-signal_channel now l s)

get_listener-IsSound :
    (now : ℕ) (user device : String) (n : Notifier)
    → IsSound n.heap
    → IsSound (get_listener now user device n).2.heap
unfolding get_listener make_user_device_stream
get_listener-IsSound now user device n sound =
    let m = remove_empty_user_streams now n in
    let r = stream_or_new now user device m (find_user_device_stream m user device) in
    listen-IsSound r.0 r.1 (get_elem? r.1.heap.streams r.0)
      (stream_or_new-IsSound now user device m (find_user_device_stream m user device)
        (subst IsSound (remove_empty_user_streams-rest now n).0 sound))
      refl

-- Nothing panics. Whatever the notifier is told, and whatever the listeners do, each operation
-- succeeds, provided that every stream has an open channel of its own; and afterwards every
-- stream has one again.
pub perform-IsSoundAfter :
    (o : Operation) (n : Notifier) → IsSound n.heap → IsSoundAfter (perform o n)
unfolding perform on_new_account_data on_new_peek on_retire_peek on_new_send_to_device on_new_typing
    on_new_receipt on_new_key_change on_new_invite add_peeking_device remove_peeking_device
perform-IsSoundAfter (event now ev room users update) n sound =
    on_new_event-IsSoundAfter now ev room users update n sound
perform-IsSoundAfter (account_data user update) n sound =
    wakeup_users-IsSoundAfter (user ∷ []) [] update (moved update n) sound
perform-IsSoundAfter (peek room user device update) n sound = (_, refl, sound)
perform-IsSoundAfter (unpeek room user device update) n sound = (_, refl, sound)
perform-IsSoundAfter (to_device user devices update) n sound =
    wakeup_user_device-IsSoundAfter user devices _ (moved update n) sound
perform-IsSoundAfter (typing room update) n sound =
    wakeup_users-IsSoundAfter (joined_users room (moved update n)) [] _ (moved update n) sound
perform-IsSoundAfter (receipt room update) n sound =
    wakeup_users-IsSoundAfter (joined_users room (moved update n)) [] _ (moved update n) sound
perform-IsSoundAfter (key_change update wake changed) n sound =
    wakeup_users-IsSoundAfter (wake ∷ []) [] _ (moved update n) sound
perform-IsSoundAfter (invite update wake) n sound =
    wakeup_users-IsSoundAfter (wake ∷ []) [] _ (moved update n) sound
perform-IsSoundAfter (listening now user device) n sound =
    (_, refl, get_listener-IsSound now user device n sound)
perform-IsSoundAfter (asking p since) n sound = (_, refl, ask-IsSound p since n _ sound)
perform-IsSoundAfter (finishing now p l) n sound = (_, refl, finish-IsSound now p l n _ sound refl)
