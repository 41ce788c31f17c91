-- ===== src/Sync/Notifier/Tests.antt =====
-- A notifier with one user, who has joined a room and waits on one device.
use dendrite.Base.{
  ℕ, ◌≡◌, ◌||◌, refl, sym, subst, ◌∙◌, zero, suc, some_inj, true, [], ◌∷◌, Option, none, some, ◌==◌,
  String_eq, any, get_elem?, arith,
}
use dendrite.Base.Int.{pos}
use dendrite.Base.Map.{lookup}
use dendrite.Sync.Token.{StreamingToken, zero_token, apply_updates}
use dendrite.Sync.UserStream.{UserDeviceStream, is_closed, make_channel, close_channel, broadcast}
use dendrite.Sync.UserStream.Wakes.{IsOpen}
use dendrite.Sync.Streams.{write, wake, wake_all}
use dendrite.Sync.Streams.Sound.{IsSound}
use dendrite.Sync.Notifier.{
  Notifier, new_notifier, Event, joined_users, find_user_device_stream, fetch_user_streams,
  streams_of_users, streams_of_devices, wakeup_users,
}
use dendrite.Sync.Notifier.Handlers.{on_new_event, on_new_account_data}
use dendrite.Sync.Notifier.Operations.{event, perform, IsSoundAfter, perform-IsSoundAfter}
use dendrite.Sync.Notifier.Waiting.{on_new_event-IsWokenTo, is_invite_or_join, IsWokenTo}

abbrev at_five : StreamingToken
at_five = record zero_token { pdu_position = pos 5 }

abbrev of_data : StreamingToken
of_data = record zero_token { account_data_position = pos 3 }

abbrev phone : UserDeviceStream
phone = record {
  user_id = "@a:one";
  device_id = "PHONE";
  signal_channel = 0;
  pos = at_five;
  time_of_last_channel = 0;
  num_waiting = 1;
}

abbrev n : Notifier
n = record {
  room_id_to_joined_users = ("!r", ("@a:one", true) ∷ []) ∷ [];
  room_id_to_peeking_devices = [];
  curr_pos = at_five;
  user_device_streams = ("@a:one", ("PHONE", 0) ∷ []) ∷ [];
  last_clean_up_time = 0;
  heap = record { streams = phone ∷ []; channels = record { next = 1; closed = [] } };
}

new_notifier-IsSound : (at : StreamingToken) (now : ℕ) → IsSound (new_notifier at now).heap
unfolding new_notifier IsSound
new_notifier-IsSound at now =
    ((λ p s e. elim (absurd_none e) [ ]), (λ p q s t e f c. elim (absurd_none e) [ ]), tt)
  where
    absurd_none : {s : UserDeviceStream} → ◌≡◌ {A = Option UserDeviceStream} none (some s) → ⊥
    absurd_none e = cc

only_phone :
    (p : ℕ) (s : UserDeviceStream) → get_elem? n.heap.streams p ≡ some s → (p ≡ 0) × (phone ≡ s)
only_phone zero s e = (refl, some_inj e)
only_phone (suc p) s e = cc

phone-IsOpen : IsOpen phone n.heap.channels
unfolding IsOpen is_closed
phone-IsOpen = (omega arith, refl, tt)

n-IsSound : IsSound n.heap
unfolding IsSound
n-IsSound = (
  (λ p s e. subst (λ u. IsOpen u n.heap.channels) (only_phone p s e).1 phone-IsOpen),
  (λ p q s t e f c. (only_phone p s e).0 ∙ sym (only_phone q t f).0),
  tt,
)

-- The ban of a user who does not wait.
abbrev ban : Event
ban = record {
  room_id = "!r";
  event_type = "m.room.member";
  state_key = some "@b:two";
  membership = some "ban";
}

abbrev update : StreamingToken
update = record zero_token { pdu_position = pos 6 }

phone_found : find_user_device_stream n "@a:one" "PHONE" ≡ some 0
unfolding find_user_device_stream lookup
phone_found = refl

named :
    (any (λ u. u == "@a:one") (joined_users ban.room_id n)
      || is_invite_or_join ban.event_type ban.state_key ban.membership "@a:one")
    ≡ true
unfolding joined_users lookup
named = refl

on_new_event-IsWokenTo_example :
    IsWokenTo "@a:one" "PHONE"
      (apply_updates n.curr_pos update)
      0
      phone
      (on_new_event 600000000000 (some ban) "" [] update n)
on_new_event-IsWokenTo_example =
    on_new_event-IsWokenTo 600000000000 ban "" [] update n "@a:one" "PHONE" 0 phone n-IsSound
      phone_found (refl, omega arith) named

perform-IsSoundAfter_example : IsSoundAfter (perform (event 600000000000 (some ban) "" [] update) n)
perform-IsSoundAfter_example =
    perform-IsSoundAfter (event 600000000000 (some ban) "" [] update) n n-IsSound

abbrev position : Option Notifier → Option StreamingToken
position none = none
position (some m) = elim (get_elem? m.heap.streams 0) [ none ↦ none | some s ↦ some s.pos ]

-- Account data leaves the stream at the position of the account data alone, before the event at 5.
on_new_account_data_lem : position (on_new_account_data "@a:one" of_data n) ≡ some of_data
unfolding on_new_account_data wakeup_users streams_of_users streams_of_devices fetch_user_streams
    wake_all wake broadcast close_channel make_channel is_closed write lookup
on_new_account_data_lem = refl
