-- ===== src/Sync/UserStream/Tests.antt =====
-- A stream at a concrete position, on which two requests wait.
use dendrite.Base.{◌≡◌, ◌||◌, refl, List, [], ◌∷◌, some, arith, any}
use dendrite.Base.Int.{pos}
use dendrite.Sync.Token.{StreamingToken, is_after, zero_token}
use dendrite.Sync.UserStream.{
  Channels, UserDeviceStream, is_closed, make_channel, new_user_device_stream, get_listener,
  get_notify_channel, close,
}
use dendrite.Sync.UserStream.Wakes.{
  Action, listens, broadcasts, asks, is_broadcast, run, IsOpen, get_notify_channel-is_closed,
}

abbrev at_five : StreamingToken
at_five = record zero_token { pdu_position = pos 5 }

abbrev no_channels : Channels
no_channels = record { next = 0; closed = [] }

abbrev stream : UserDeviceStream
stream = (new_user_device_stream "@a:one" "PHONE" at_five 0 no_channels).0

abbrev one_channel : Channels
one_channel = (new_user_device_stream "@a:one" "PHONE" at_five 0 no_channels).1

stream-IsOpen : IsOpen stream one_channel
unfolding IsOpen new_user_device_stream make_channel is_closed
stream-IsOpen = (omega arith, refl, tt)

abbrev later : List Action
later = asks zero_token ∷ listens ∷ broadcasts at_five ∷ []

get_notify_channel-is_closed_example :
    (t : UserDeviceStream) × (ds : Channels) × (run later stream
        (get_notify_channel at_five stream one_channel).1
      ≡ some (t, ds))
    × (is_closed (get_notify_channel at_five stream one_channel).0 ds
        ≡ (is_after stream.pos at_five || any is_broadcast later))
get_notify_channel-is_closed_example =
    get_notify_channel-is_closed at_five later stream one_channel stream-IsOpen

-- The finalizer closes the copy of the listener that the local variable holds, the request the one
-- that was returned, and the count goes below zero.
closed_twice :
    (close 2
      (get_listener stream).0
      (close 1 (get_listener stream).0 (get_listener stream).1).1).1.num_waiting
    ≡ 18446744073709551615
unfolding new_user_device_stream make_channel get_listener close
closed_twice = refl
