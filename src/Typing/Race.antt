-- ===== src/Typing/Race.antt =====
-- A timer that fires before its user has been added (eduserver/cache/cache.go).
use dendrite.Base.{
  ◌≡◌, refl, sym, ap, ◌∙◌, false, List, [], ◌∷◌, none, some, String, String_eq, arith, subst,
}
use dendrite.Base.Map.{lookup}
use dendrite.Typing.Cache.{
  EduCache, Timer, add_user, remove_user, stop, typing, stop_old, timer_in, after_func,
}
use dendrite.Typing.Users.{typing-add_user}
use dendrite.Typing.Updates.{holds, expire, call}
use dendrite.Typing.Stopping.{add_user-running}
use dendrite.Typing.Timers.{add_user-kept}

holds-stop_self : (x : Timer) (l : List Timer) → holds x (stop x l) ≡ false
unfolding stop
holds-stop_self x [] = refl
holds-stop_self x (y ∷ l) = ground (arith, holds-stop_self x l)

remove_user-missing :
    (user room : String) (t : EduCache) → lookup room t.rooms ≡ none → remove_user user room t ≡ t
unfolding remove_user
remove_user-missing user room t h = rw h

-- A timer that is neither running nor waiting stays so when it is stored.
store_stopped :
    (user room : String) (x : Timer) (t : EduCache)
    → lookup room t.rooms ≡ none
    → (typing room user (add_user user room x t) ≡ some x)
      × (holds x (add_user user room x t).running ≡ holds x t.running)
      × (holds x (add_user user room x t).fired ≡ holds x t.fired)
store_stopped user room x t h =
    let gone : typing room user t ≡ none = unfold typing in ap (timer_in user) h in
    (
      ground (
        arith,
        typing-add_user user room x t room user,
        (String_eq.beq_iff room room).1 refl,
        (String_eq.beq_iff user user).1 refl,
      ),
      ap (holds x) (add_user-running user room x t ∙ ap (λ o. stop_old o t.running) gone),
      ap (holds x) (add_user-kept user room x t).0,
    )

-- When the timer fires and its function runs before its user has been added, the user is listed
-- with a timer that will never remove them: it is neither running nor waiting. The cache before
-- may be any that does not know the room.
pub add_user-too_late :
    (user room : String) (t : EduCache)
    → lookup room t.rooms ≡ none
    → let (x, t1) = after_func user room t in
      let t2 = add_user user room x (call x (expire x t1)) in
      (typing room user t2 ≡ some x) × (holds x t2.running ≡ false) × (holds x t2.fired ≡ false)
add_user-too_late user room t h =
    let x : Timer = (after_func user room t).0 in
    let s : EduCache = record (expire x (after_func user room t).1) {
      fired = stop x (x ∷ t.fired);
    } in
    let stored = store_stopped user room x s h in
    subst
      (λ s.
        (typing room user (add_user user room x s) ≡ some x)
        × (holds x (add_user user room x s).running ≡ false)
        × (holds x (add_user user room x s).fired ≡ false))
      (sym (remove_user-missing user room s h))
      (
        stored.0,
        stored.1 ∙ holds-stop_self x (x ∷ t.running),
        stored.2 ∙ holds-stop_self x (x ∷ t.fired),
      )
