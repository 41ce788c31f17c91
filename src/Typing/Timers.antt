-- ===== src/Typing/Timers.antt =====
-- The timers that end a typing notification (eduserver/cache/cache.go).
use dendrite.Base.{
  ℕ, ◌<◌, ◌≡◌, refl, sym, ap, ◌∙◌, true, false, ◌&&◌, ◌||◌, Option, none, some, String, ◌==◌,
  String_eq, arith, subst, inl, inr, if◌then◌else◌, Bool-cases,
}
use mathlib.Core.Option.{some-injective}
use dendrite.Base.Int.{ℤ, pos, ltb_ℤ, sub_ℤ}
use dendrite.Base.Map.{lookup}
use dendrite.Typing.Cache.{
  EduCache, Timer, add_user, remove_user, add_typing_user, stop, timer_eq, typing, stop_old,
  get_expire_time, after_func, new,
}
use dendrite.Typing.Users.{typing-add_user, typing-remove_user}
use dendrite.Typing.Updates.{
  holds, expire, call, Step, adds, removes, expires, calls, Run, start, after,
}
use dendrite.Typing.Stopping.{
  holds-stop, not_eq_at, holds-stop_old, add_user-running, remove_user-running, remove_user-kept,
}

-- Every user who is typing has a timer that will still call `RemoveUser` for that user and room.
abbrev IsLive : Timer → EduCache → Type 0
IsLive x t = (holds x t.running || holds x t.fired) ≡ true

abbrev pub IsTimed : EduCache → Type 0
IsTimed t =
    (r u : String) (x : Timer)
    → typing r u t ≡ some x
    → (x.user ≡ u) × (x.room ≡ r) × (x.id < t.next) × IsLive x t

live :
    (x : Timer) (s t : EduCache)
    → (holds x s.running ≡ true → IsLive x t)
    → (holds x s.fired ≡ true → holds x t.fired ≡ true)
    → IsLive x s
    → IsLive x t
live x s t h k l = elim (Bool-cases (holds x s.running)) [
  | inl e ↦ h e
  | inr e ↦ ground (arith, e, l, k)
]

-- The timers that stay after the timer of one user in one room has been stopped.
IsLive-elsewhere :
    (x : Timer) (r u room user : String) (s t : EduCache)
    → IsTimed s
    → ((room == r) && (user == u)) ≡ false
    → typing r u s ≡ some x
    → t.running ≡ stop_old (typing room user s) s.running
    → (holds x s.fired ≡ true → holds x t.fired ≡ true)
    → IsLive x t
IsLive-elsewhere x r u room user s t h e k run f =
    live x s t
      (λ l.
        let here = h r u x k in
        let still =
          holds-stop_old x (typing room user s) s.running
            (λ z q.
              not_eq_at x z r u room user here.0 here.1 (h room user z q).0 (h room user z q).1 e)
            l in
        ground (arith, ap (holds x) run, still))
      f (h r u x k).3

remove_user-IsTimed :
    (user room : String) (t : EduCache) → IsTimed t → IsTimed (remove_user user room t)
remove_user-IsTimed user room t h r u x k = elim (Bool-cases ((room == r) && (user == u))) [
  | inl e ↦ ground (arith, k, typing-remove_user user room t r u, e)
  | inr e ↦
      let at_t : typing r u t ≡ some x =
        sym (typing-remove_user user room t r u ∙ ap (λ c. if c then none else typing r u t) e)
        ∙ k in
      let here = h r u x at_t in
      (
        here.0,
        here.1,
        ground (arith, here.2, (remove_user-kept user room t).1),
        IsLive-elsewhere x r u room user t (remove_user user room t) h e at_t
            (remove_user-running user room t)
            (λ f. ap (holds x) (remove_user-kept user room t).0 ∙ f),
      )
]

pub add_user-kept :
    (user room : String) (x : Timer) (t : EduCache)
    → ((add_user user room x t).fired ≡ t.fired) × ((add_user user room x t).next ≡ t.next)
unfolding add_user
add_user-kept user room x t = (refl, refl)

not_old : (x z : Timer) (n : ℕ) → x.id ≡ n → z.id < n → timer_eq x z ≡ false
not_old x z n h k = ground (arith, h, k)

timer_eq_refl : (x : Timer) → timer_eq x x ≡ true
timer_eq_refl x =
    ground
      (arith, (String_eq.beq_iff x.user x.user).1 refl, (String_eq.beq_iff x.room x.room).1 refl)

after_func-IsTimed :
    (user room : String) (t : EduCache) → IsTimed t → IsTimed (after_func user room t).1
unfolding typing
after_func-IsTimed user room t h r u x k =
    let here = h r u x k in
    (
      here.0,
      here.1,
      omega (arith, here.2),
      live x t (after_func user room t).1 (λ l. ground (arith, l)) (λ f. f) here.3,
    )

-- The new timer, once it is in its room.
new_IsLive :
    (user room : String) (t : EduCache)
    → IsTimed t
    → IsLive
        (after_func user room t).0
        (add_user user room (after_func user room t).0 (after_func user room t).1)
new_IsLive user room t h =
    let y : Timer = (after_func user room t).0 in
    let t1 : EduCache = (after_func user room t).1 in
    let still =
      holds-stop_old y (typing room user t1) t1.running
        (λ z q. not_old y z t.next refl (unfold typing in (h room user z q).2))
        (ground (arith, timer_eq_refl y)) in
    ground (arith, ap (holds y) (add_user-running user room y t1), still)

add_user-IsTimed :
    (user room : String) (t : EduCache)
    → IsTimed t
    → IsTimed (add_user user room (after_func user room t).0 (after_func user room t).1)
add_user-IsTimed user room t h r u x k =
    let y : Timer = (after_func user room t).0 in
    let t1 : EduCache = (after_func user room t).1 in
    let t2 : EduCache = add_user user room y t1 in
    let h1 = after_func-IsTimed user room t h in
    elim (Bool-cases ((room == r) && (user == u))) [
      | inl e ↦
          let at_new : some y ≡ some x =
            sym
              (typing-add_user user room y t1 r u ∙ ap (λ c. if c then some y else typing r u t1) e)
            ∙ k in
          subst (λ x. (x.user ≡ u) × (x.room ≡ r) × (x.id < t2.next) × IsLive x t2)
            (some-injective y x at_new)
            (
              ground (arith, e, String_eq.beq_iff user u),
              ground (arith, e, String_eq.beq_iff room r),
              ground (arith, (add_user-kept user room y t1).1),
              new_IsLive user room t h,
            )
      | inr e ↦
          let at_t : typing r u t1 ≡ some x =
            sym
              (typing-add_user user room y t1 r u ∙ ap (λ c. if c then some y else typing r u t1) e)
            ∙ k in
          let here = h1 r u x at_t in
          (
            here.0,
            here.1,
            ground (arith, here.2, (add_user-kept user room y t1).1),
            IsLive-elsewhere x r u room user t1 t2 h1 e at_t (add_user-running user room y t1)
                (λ f. ap (holds x) (add_user-kept user room y t1).0 ∙ f),
          )
    ]

add_typing_user-IsTimed :
    (user room : String) (until : Option ℤ) (now : ℤ) (t : EduCache)
    → IsTimed t
    → IsTimed (add_typing_user user room until now t)
unfolding add_typing_user
add_typing_user-IsTimed user room until now t h =
    elim (Bool-cases (ltb_ℤ (pos 0) (sub_ℤ (get_expire_time until now) now))) [
      | inl e ↦ rw e (add_user-IsTimed user room t h)
      | inr e ↦ rw e h
    ]

pub fires : (x y : Timer) (s : EduCache) → holds x s.running ≡ true → IsLive x (expire y s)
fires x y s l = elim (Bool-cases (timer_eq x y)) [
  | inl e ↦ ground (arith, e)
  | inr e ↦ ground (arith, holds-stop x y s.running e, l)
]

expire-IsTimed : (y : Timer) (s : EduCache) → IsTimed s → IsTimed (expire y s)
unfolding typing
expire-IsTimed y s h r u x k =
    let here = h r u x k in
    (
      here.0,
      here.1,
      here.2,
      live x s (expire y s) (λ l. fires x y s l) (λ f. ground (arith, f)) here.3,
    )

-- After the call nobody is listed under the user and the room of the timer, so that no timer that
-- is still needed has been taken off the list.
call-IsTimed : (y : Timer) (s : EduCache) → IsTimed s → IsTimed (call y s)
call-IsTimed y s h r u x k =
    let s' : EduCache = record s { fired = stop y s.fired } in
    elim (Bool-cases ((y.room == r) && (y.user == u))) [
      | inl e ↦ ground (arith, k, typing-remove_user y.user y.room s' r u, e)
      | inr e ↦
          let at_s' : typing r u s' ≡ some x =
            sym (
              typing-remove_user y.user y.room s' r u
              ∙ ap (λ c. if c then none else typing r u s') e)
            ∙ k in
          let at_s : typing r u s ≡ some x = unfold typing in at_s' in
          let here = h r u x at_s in
          (
            here.0,
            here.1,
            ground (arith, here.2, (remove_user-kept y.user y.room s').1),
            IsLive-elsewhere x r u y.room y.user s (call y s) h e at_s
                (unfold typing in remove_user-running y.user y.room s')
                (λ f.
                  ap (holds x) (remove_user-kept y.user y.room s').0
                  ∙ holds-stop x y s.fired
                      (not_eq_at x y r u y.room y.user here.0 here.1 refl refl e)
                  ∙ f),
          )
    ]

Step-IsTimed : (s t : EduCache) → IsTimed s → Step s t → IsTimed t
Step-IsTimed s _ h (adds user room until now) = add_typing_user-IsTimed user room until now s h
Step-IsTimed s _ h (removes user room) = remove_user-IsTimed user room s h
Step-IsTimed s _ h (expires y e) = expire-IsTimed y s h
Step-IsTimed s _ h (calls y e) = call-IsTimed y s h

-- In every state that the operations and the timers reach from an empty cache, in any order, a user
-- listed as typing in a room has a timer for that user and that room, which is running or has
-- fired and waits to remove the user, when no timer fires before its user has been added.
pub Run-IsTimed : (t : EduCache) → Run new t → IsTimed t
unfolding typing lookup
Run-IsTimed t run = from new t run (λ r u x k. ground (arith, k))
  where
    from : (s t : EduCache) → Run s t → IsTimed s → IsTimed t
    from s _ start h = h
    from s t' (after {t} run step) h = Step-IsTimed t t' (from s t run h) step
