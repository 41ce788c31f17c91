-- ===== src/Typing/Cache.antt =====
-- The state and the operations of `EDUCache` (eduserver/cache/cache.go). Times are in nanoseconds.
-- A timer is what `time.AfterFunc` returns: an identity and the two variables its function has
-- captured. A timer that is not stopped is running until it fires; its function then waits for
-- the lock, and `Stop` comes too late for it.
use dendrite.Base.{
  ℕ, suc, Bool, true, false, not, ◌&&◌, List, [], ◌∷◌, Option, none, some, String, ◌==◌, String_eq,
  ltb, nat_eq, if◌then◌else◌, keep, map,
}
use dendrite.Base.Int.{ℤ, pos, ◌+ℤ◌, sub_ℤ, ltb_ℤ}
use dendrite.Base.Map.{Map, lookup, insert, delete}

pub record Timer : Type 0 where
  pub id : ℕ
  pub user : String
  pub room : String

pub record RoomData : Type 0 where
  pub sync_position : ℕ
  pub user_set : Map String Timer

-- With the timers that the runtime keeps: the next identity, those running, and those whose
-- function has been started and waits for the lock.
pub record EduCache : Type 0 where
  pub latest_sync_position : ℕ
  pub rooms : Map String RoomData
  pub next : ℕ
  pub running : List Timer
  pub fired : List Timer

abbrev pub timer_eq : Timer → Timer → Bool
timer_eq x y = nat_eq x.id y.id && ((x.user == y.user) && (x.room == y.room))

unfoldable pub stop : Timer → List Timer → List Timer
stop x = keep (λ y. not (timer_eq x y))

abbrev pub new_room_data : EduCache → RoomData
new_room_data t = record { sync_position = t.latest_sync_position; user_set = [] }

abbrev pub new : EduCache
new = record { latest_sync_position = 0; rooms = []; next = 0; running = []; fired = [] }

abbrev pub get_expire_time : Option ℤ → ℤ → ℤ
get_expire_time (some expire) now = expire
get_expire_time none now = now +ℤ pos 10000000000

abbrev pub users_after : Option RoomData → ℕ → List String × Bool
users_after none position = ([], false)
users_after (some d) position =
    if ltb position d.sync_position then (map (λ p. p.0) d.user_set, true) else ([], false)

unfoldable pub get_typing_users_if_updated_after : String → ℕ → EduCache → List String × Bool
get_typing_users_if_updated_after room position t = users_after (lookup room t.rooms) position

unfoldable pub get_typing_users : String → EduCache → List String
get_typing_users room t = (get_typing_users_if_updated_after room 0 t).0

-- `time.AfterFunc`
abbrev pub after_func : String → String → EduCache → Timer × EduCache
after_func user room t =
    let x : Timer = record { id = t.next; user = user; room = room } in
    (x, record t { next = suc t.next; running = x ∷ t.running })

abbrev pub stop_old : Option Timer → List Timer → List Timer
stop_old none running = running
stop_old (some x) running = stop x running

abbrev pub moved_to : Option RoomData → EduCache → RoomData
moved_to none t = new_room_data t
moved_to (some d) t = record d { sync_position = t.latest_sync_position }

abbrev pub with_timer : String → Timer → RoomData → RoomData
with_timer user timer d = record d { user_set = insert user timer d.user_set }

unfoldable pub add_user : String → String → Timer → EduCache → EduCache
add_user user room timer t =
    let t1 : EduCache = record t { latest_sync_position = suc t.latest_sync_position } in
    let d : RoomData = moved_to (lookup room t1.rooms) t1 in
    record t1 {
      rooms = insert room (with_timer user timer d) t1.rooms;
      running = stop_old (lookup user d.user_set) t1.running;
    }

-- The second half of `RemoveUser`, when the user has a timer.
abbrev pub without_user : String → RoomData → EduCache → RoomData
without_user user d t = record {
  sync_position = suc t.latest_sync_position;
  user_set = delete user d.user_set;
}

abbrev pub removed : String → String → RoomData → Timer → EduCache → EduCache
removed user room d timer t = record t {
  latest_sync_position = suc t.latest_sync_position;
  rooms = insert room (without_user user d t) t.rooms;
  running = stop timer t.running;
}

abbrev pub remove_timer : String → String → RoomData → Option Timer → EduCache → EduCache
remove_timer user room d none t = t
remove_timer user room d (some timer) t = removed user room d timer t

abbrev pub remove_from : String → String → Option RoomData → EduCache → EduCache
remove_from user room none t = t
remove_from user room (some d) t = remove_timer user room d (lookup user d.user_set) t

unfoldable pub remove_user : String → String → EduCache → EduCache
remove_user user room t = remove_from user room (lookup room t.rooms) t

-- When the timer does not fire before the user is added.
unfoldable pub add_typing_user : String → String → Option ℤ → ℤ → EduCache → EduCache
add_typing_user user room expire now t =
    let (timer, t1) = after_func user room t in
    if ltb_ℤ (pos 0) (sub_ℤ (get_expire_time expire now) now)
    then add_user user room timer t1
    else t

-- The timer of a user who is typing in a room.
abbrev pub timer_in : String → Option RoomData → Option Timer
timer_in user none = none
timer_in user (some d) = lookup user d.user_set

unfoldable pub typing : String → String → EduCache → Option Timer
typing room user t = timer_in user (lookup room t.rooms)
