-- ===== src/Sync/UserStream.antt =====
-- The stream of one device, on which its /sync requests wait (syncapi/notifier/userstream.go). A
-- channel is a number; nothing is ever sent on one, so that all that can happen to it is that it is
-- closed. To close a closed channel panics, which is the result `none` here. A time is a number of
-- nanoseconds.
pub mod Wakes
mod Tests
use dendrite.Base.{
  ℕ, ◌+◌, ◌-◌, ◌%◌, ◌^◌, Bool, true, false, List, [], ◌∷◌, Option, none, some, String, ltb, nat_eq,
  any, if◌then◌else◌,
}
use dendrite.Sync.Token.{StreamingToken, is_after}

-- The channels that exist are the numbers below `next`.
pub record Channels : Type 0 where
  pub next : ℕ
  pub closed : List ℕ

unfoldable pub is_closed : ℕ → Channels → Bool
is_closed c cs = any (nat_eq c) cs.closed

unfoldable pub make_channel : Channels → ℕ × Channels
make_channel cs = (cs.next, record cs { next = cs.next + 1 })

unfoldable pub close_channel : ℕ → Channels → Option Channels
close_channel c cs = if is_closed c cs then none else some (record cs { closed = c ∷ cs.closed })

pub record UserDeviceStream : Type 0 where
  pub user_id : String
  pub device_id : String
  pub signal_channel : ℕ
  pub pos : StreamingToken
  pub time_of_last_channel : ℕ
  pub num_waiting : ℕ

-- A listener without the pointer to its stream: the stream is an argument of what it does.
pub record Listener : Type 0 where
  pub has_closed : Bool

unfoldable pub new_user_device_stream :
    String → String → StreamingToken → ℕ → Channels → UserDeviceStream × Channels
new_user_device_stream user_id device_id curr_pos now cs =
    let (c, ds) = make_channel cs in
    (
      record {
        user_id = user_id;
        device_id = device_id;
        signal_channel = c;
        pos = curr_pos;
        time_of_last_channel = now;
        num_waiting = 0;
      },
      ds,
    )

-- The listener is returned by value, and its finalizer is set on the local variable: the runtime may
-- run `close` on a copy of it that is not closed.
unfoldable pub get_listener : UserDeviceStream → Listener × UserDeviceStream
get_listener s =
    (record { has_closed = false }, record s { num_waiting = (s.num_waiting + 1) % 2 ^ 64 })

unfoldable pub broadcast :
    StreamingToken → UserDeviceStream → Channels → Option (UserDeviceStream × Channels)
unfolding make_channel close_channel
broadcast new s cs = elim (close_channel s.signal_channel cs) [
  | none ↦ none
  | some ds ↦ let (c, es) = make_channel ds in some (record s { pos = new; signal_channel = c }, es)
]

-- `NumWaiting() > 0` and the time now, or the time of the last channel.
unfoldable pub time_of_last_non_empty : ℕ → UserDeviceStream → ℕ
time_of_last_non_empty now s = if ltb 0 s.num_waiting then now else s.time_of_last_channel

-- A stream that is behind gets a new channel that is closed at once, which cannot panic.
unfoldable pub get_notify_channel : StreamingToken → UserDeviceStream → Channels → ℕ × Channels
unfolding make_channel
get_notify_channel since s cs =
    if is_after s.pos since
    then (let (c, ds) = make_channel cs in (c, record ds { closed = c ∷ ds.closed }))
    else (s.signal_channel, cs)

-- `numWaiting--` on a uint.
unfoldable pub close : ℕ → Listener → UserDeviceStream → Listener × UserDeviceStream
close now l s = (
  record { has_closed = true },
  if l.has_closed then s else record s {
    num_waiting = (s.num_waiting + (2 ^ 64 - 1)) % 2 ^ 64;
    time_of_last_channel = now;
  },
)
