-- ===== src/Typing/Tests.antt =====
-- The theorems about typing at a concrete room: two users, one of them removed.
use dendrite.Base.{
  ◌≡◌, refl, true, false, [], ◌∷◌, none, some, String, ◌⊎◌, ◌&&◌, ◌==◌, String_eq, if◌then◌else◌,
}
use dendrite.Base.Int.{pos, sub_ℤ, ◌+ℤ◌}
use dendrite.Base.Map.{lookup, insert, delete}
use dendrite.Typing.Cache.{
  EduCache, Timer, new, after_func, add_user, remove_user, add_typing_user, typing,
  get_typing_users, get_typing_users_if_updated_after,
}
use dendrite.Typing.Users.{typing-add_user-remove_user}
use dendrite.Typing.Updates.{
  Run, start, after, adds, removes, get_typing_users_if_updated_after_complete, holds, expire, call,
}
use dendrite.Typing.Timers.{Run-IsTimed, IsTimed}
use dendrite.Typing.Race.{add_user-too_late}

abbrev r : String
r = "!r"

abbrev a : String
a = "@a:one"

abbrev b : String
b = "@b:two"

abbrev one_user : EduCache
one_user = add_typing_user a r (some (pos 5)) (pos 3) new

abbrev two_users : EduCache
two_users = add_typing_user b r none (pos 4) one_user

two_users_lem : get_typing_users r two_users ≡ a ∷ b ∷ []
unfolding get_typing_users get_typing_users_if_updated_after add_typing_user add_user lookup insert
    sub_ℤ ◌+ℤ◌
two_users_lem = refl

abbrev left : EduCache
left = remove_user a r two_users

left_lem : get_typing_users r left ≡ b ∷ []
unfolding get_typing_users get_typing_users_if_updated_after add_typing_user add_user remove_user
    lookup insert delete sub_ℤ ◌+ℤ◌
left_lem = refl

abbrev timer_b : Timer
timer_b = record { id = 1; user = b; room = r }

typing-add_user-remove_user_example :
    (typing r a (add_user b r timer_b two_users)
      ≡ (if (r == r) && (b == a) then some timer_b else typing r a two_users))
    × (typing r a (remove_user b r two_users)
        ≡ (if (r == r) && (b == a) then none else typing r a two_users))
typing-add_user-remove_user_example = typing-add_user-remove_user b r timer_b two_users r a

abbrev since_one : Run one_user left
since_one = after (after start (adds b r none (pos 4))) (removes a r)

get_typing_users_if_updated_after_complete_example :
    (lookup r left.rooms ≡ lookup r one_user.rooms)
    ⊎ (get_typing_users_if_updated_after r one_user.latest_sync_position left
        ≡ (get_typing_users r left, true))
get_typing_users_if_updated_after_complete_example =
    get_typing_users_if_updated_after_complete r one_user left since_one

abbrev since_new : Run new left
since_new =
    after (after (after start (adds a r (some (pos 5)) (pos 3))) (adds b r none (pos 4)))
      (removes a r)

Run-IsTimed_example : IsTimed left
Run-IsTimed_example = Run-IsTimed left since_new

add_user-too_late_example :
    let (x, t1) = after_func a r new in
    let t2 = add_user a r x (call x (expire x t1)) in
    (typing r a t2 ≡ some x) × (holds x t2.running ≡ false) × (holds x t2.fired ≡ false)
unfolding lookup
add_user-too_late_example = add_user-too_late a r new refl
