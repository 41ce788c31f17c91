-- ===== src/Sync/Notifier.antt =====
-- Who is woken by what: the notifier of the sync API (syncapi/notifier/notifier.go). A Go set is a
-- map to Booleans, and a time a number of nanoseconds. Each operation holds the lock throughout, and
-- so is one step. A result `none` is a panic of `close`. The loading from the database at the
-- start is left out.
pub mod Handlers
pub mod Sound
pub mod Cleanup
pub mod Operations
pub mod Waiting
mod Tests
use dendrite.Base.{
  ℕ, ◌+◌, ◌*◌, ◌^◌, Bool, true, false, not, ◌&&◌, List, [], ◌∷◌, ◌++◌, Option, none, some, String,
  String_eq, ◌==◌, Pair_eq, ltb, map, length, get_elem?, if◌then◌else◌,
}
use dendrite.Base.Map.{Map, lookup, insert, delete}
use dendrite.Sync.Token.{StreamingToken, apply_updates}
use dendrite.Sync.UserStream
use dendrite.Sync.UserStream.{
  UserDeviceStream, Listener, new_user_device_stream, time_of_last_non_empty,
}
use dendrite.Sync.Streams.{Heap, write, wake_all}

-- The user and the device.
abbrev pub PeekingDevice : Type 0
PeekingDevice = String × String

pub record Notifier : Type 0 where
  pub room_id_to_joined_users : Map String (Map String Bool)
  pub room_id_to_peeking_devices : Map String (Map PeekingDevice Bool)
  pub curr_pos : StreamingToken
  pub user_device_streams : Map String (Map String ℕ)
  pub last_clean_up_time : ℕ
  pub heap : Heap

unfoldable pub new_notifier : StreamingToken → ℕ → Notifier
new_notifier curr_pos now = record {
  room_id_to_joined_users = [];
  room_id_to_peeking_devices = [];
  curr_pos = curr_pos;
  user_device_streams = [];
  last_clean_up_time = now;
  heap = record { streams = []; channels = record { next = 0; closed = [] } };
}

-- What the notifier reads of an event; `membership` is what `ev.Membership()` returns, `none` if it
-- returns an error.
pub record Event : Type 0 where
  pub room_id : String
  pub event_type : String
  pub state_key : Option String
  pub membership : Option String

abbrev pub or_empty {ℓ} : {K V : Type ℓ} → Option (Map K V) → Map K V
or_empty none = []
or_empty (some m) = m

abbrev pub keys {ℓ} : {K V : Type ℓ} → Map K V → List K
keys m = map (λ e. e.0) m

unfoldable pub add_joined_user : String → String → Notifier → Notifier
unfolding insert
add_joined_user room user n = record n {
  room_id_to_joined_users =
      insert room (insert user true (or_empty (lookup room n.room_id_to_joined_users)))
        n.room_id_to_joined_users;
}

unfoldable pub remove_joined_user : String → String → Notifier → Notifier
unfolding insert delete
remove_joined_user room user n = record n {
  room_id_to_joined_users =
      insert room (delete user (or_empty (lookup room n.room_id_to_joined_users)))
        n.room_id_to_joined_users;
}

unfoldable pub joined_users : String → Notifier → List String
joined_users room n = keys (or_empty (lookup room n.room_id_to_joined_users))

unfoldable pub add_peeking_device : String → String → String → Notifier → Notifier
add_peeking_device room user device n = record n {
  room_id_to_peeking_devices =
      insert room (insert (user, device) true (or_empty (lookup room n.room_id_to_peeking_devices)))
        n.room_id_to_peeking_devices;
}

unfoldable pub remove_peeking_device : String → String → String → Notifier → Notifier
remove_peeking_device room user device n = record n {
  room_id_to_peeking_devices =
      insert room (delete (user, device) (or_empty (lookup room n.room_id_to_peeking_devices)))
        n.room_id_to_peeking_devices;
}

unfoldable pub peeking_devices : String → Notifier → List PeekingDevice
peeking_devices room n = keys (or_empty (lookup room n.room_id_to_peeking_devices))

-- `TimeOfLastNonEmpty().Before(deleteBefore)`, and whether there is a stream.
unfoldable pub is_stale : ℕ → Heap → ℕ → Bool
unfolding time_of_last_non_empty
is_stale now h p = elim (get_elem? h.streams p) [
  | none ↦ false
  | some s ↦ ltb (time_of_last_non_empty now s + 5 * 60 * 10 ^ 9) now
]

-- The devices of one user that are kept.
unfoldable pub kept_devices : ℕ → Heap → Map String ℕ → Map String ℕ
kept_devices now h [] = []
kept_devices now h ((device, p) ∷ rest) =
    if is_stale now h p then kept_devices now h rest else (device, p) ∷ kept_devices now h rest

abbrev pub is_nil {ℓ} : {A : Type ℓ} → List A → Bool
is_nil [] = true
is_nil (x ∷ xs) = false

-- A user is deleted with the last device: one without any device is not looked at.
unfoldable pub kept_users : ℕ → Heap → Map String (Map String ℕ) → Map String (Map String ℕ)
kept_users now h [] = []
kept_users now h ((user, devices) ∷ rest) =
    if is_nil (kept_devices now h devices) && not (is_nil devices)
    then kept_users now h rest
    else (user, kept_devices now h devices) ∷ kept_users now h rest

unfoldable pub remove_empty_user_streams : ℕ → Notifier → Notifier
remove_empty_user_streams now n =
    if ltb now (n.last_clean_up_time + 60 * 10 ^ 9) then n else record n {
      last_clean_up_time = now;
      user_device_streams = kept_users now n.heap n.user_device_streams;
    }

-- The stream of a device, if there is one.
unfoldable pub find_user_device_stream : Notifier → String → String → Option ℕ
find_user_device_stream n user device = elim (lookup user n.user_device_streams) [
  | none ↦ none
  | some devices ↦ lookup device devices
]

-- A new stream of a device.
unfoldable pub add_user_device_stream : ℕ → String → String → Notifier → ℕ × Notifier
add_user_device_stream now user device n =
    let (s, cs) = new_user_device_stream user device n.curr_pos now n.heap.channels in
    (
      length n.heap.streams,
      record n {
        user_device_streams =
            insert user
              (insert device (length n.heap.streams) (or_empty (lookup user n.user_device_streams)))
              n.user_device_streams;
        heap = record { streams = n.heap.streams ++ s ∷ []; channels = cs };
      },
    )

-- The stream that was found, or a new one.
unfoldable pub stream_or_new : ℕ → String → String → Notifier → Option ℕ → ℕ × Notifier
stream_or_new now user device n none = add_user_device_stream now user device n
stream_or_new now user device n (some p) = (p, n)

-- `fetchUserDeviceStream` with `makeIfNotExists`; without it, it is `find_user_device_stream`.
unfoldable pub make_user_device_stream : ℕ → String → String → Notifier → ℕ × Notifier
make_user_device_stream now user device n =
    stream_or_new now user device n (find_user_device_stream n user device)

unfoldable pub fetch_user_streams : Notifier → String → List ℕ
fetch_user_streams n user = map (λ e. e.1) (or_empty (lookup user n.user_device_streams))

abbrev pub found : Option ℕ → List ℕ → List ℕ
found none rest = rest
found (some p) rest = p ∷ rest

unfoldable pub streams_of_users : Notifier → List String → List ℕ
streams_of_users n [] = []
streams_of_users n (user ∷ rest) = fetch_user_streams n user ++ streams_of_users n rest

unfoldable pub streams_of_devices : Notifier → List PeekingDevice → List ℕ
streams_of_devices n [] = []
streams_of_devices n ((user, device) ∷ rest) =
    found (find_user_device_stream n user device) (streams_of_devices n rest)

abbrev pub with_heap : Notifier → Option Heap → Option Notifier
with_heap n none = none
with_heap n (some h) = some (record n { heap = h })

unfoldable pub wakeup_users :
    List String → List PeekingDevice → StreamingToken → Notifier → Option Notifier
wakeup_users users devices new n =
    with_heap n (wake_all new (streams_of_users n users ++ streams_of_devices n devices) n.heap)

unfoldable pub wakeup_user_device :
    String → List String → StreamingToken → Notifier → Option Notifier
wakeup_user_device user devices new n =
    with_heap n (wake_all new (streams_of_devices n (map (λ d. (user, d)) devices)) n.heap)
