-- ===== src/Typing/Stopping.antt =====
-- What the operations do to the running timers (eduserver/cache/cache.go).
use dendrite.Base.{
  suc, ◌≡◌, refl, ◌∙◌, true, false, ◌&&◌, List, [], ◌∷◌, Option, none, some, String, ◌==◌,
  String_eq, arith, inl, inr, Option-cases,
}
use dendrite.Base.Map.{lookup}
use dendrite.Typing.Cache.{
  EduCache, RoomData, Timer, add_user, remove_user, stop, timer_eq, typing, stop_old, timer_in,
  remove_from, moved_to,
}
use dendrite.Typing.Updates.{holds}

timer_eq_iff_false :
    (x y : Timer) → timer_eq x y ≡ true → (x.id ≡ y.id) × (x.user ≡ y.user) × (x.room ≡ y.room)
timer_eq_iff_false x y h =
    ground (arith, h, String_eq.beq_iff x.user y.user, String_eq.beq_iff x.room y.room)

timer_eq_trans : (x y z : Timer) → timer_eq x z ≡ true → timer_eq y z ≡ true → timer_eq x y ≡ true
timer_eq_trans x y z h k = ground (
  arith,
  h,
  k,
  String_eq.beq_iff x.user y.user,
  String_eq.beq_iff x.room y.room,
  String_eq.beq_iff x.user z.user,
  String_eq.beq_iff x.room z.room,
  String_eq.beq_iff y.user z.user,
  String_eq.beq_iff y.room z.room,
)

pub holds-stop :
    (x y : Timer) (l : List Timer) → timer_eq x y ≡ false → holds x (stop y l) ≡ holds x l
unfolding stop
holds-stop x y [] h = refl
holds-stop x y (z ∷ l) h = ground (arith, h, timer_eq_trans x y z, holds-stop x y l h)

pub not_eq_at :
    (x y : Timer) (r u r' u' : String)
    → x.user ≡ u
    → x.room ≡ r
    → y.user ≡ u'
    → y.room ≡ r'
    → ((r' == r) && (u' == u)) ≡ false
    → timer_eq x y ≡ false
not_eq_at x y r u r' u' a b c d e = ground (
  arith,
  a,
  b,
  c,
  d,
  e,
  String_eq.beq_iff x.user y.user,
  String_eq.beq_iff x.room y.room,
  String_eq.beq_iff r' r,
  String_eq.beq_iff u' u,
)

pub holds-stop_old :
    (x : Timer) (o : Option Timer) (l : List Timer)
    → ((z : Timer) → o ≡ some z → timer_eq x z ≡ false)
    → holds x l ≡ true
    → holds x (stop_old o l) ≡ true
holds-stop_old x none l h k = k
holds-stop_old x (some z) l h k = holds-stop x z l (h z refl) ∙ k

pub add_user-running :
    (user room : String) (x : Timer) (t : EduCache)
    → (add_user user room x t).running ≡ stop_old (typing room user t) t.running
unfolding add_user typing lookup
add_user-running user room x t = by_room (lookup room t.rooms)
  where
    by_room :
        (o : Option RoomData)
        → stop_old
            (lookup user
              (moved_to o
                (record t { latest_sync_position = suc t.latest_sync_position })).user_set)
            t.running
          ≡ stop_old (timer_in user o) t.running
    by_room none = refl
    by_room (some d) = refl

remove_from-running :
    (user room : String) (t : EduCache) (o : Option RoomData)
    → (remove_from user room o t).running ≡ stop_old (timer_in user o) t.running
remove_from-running user room t none = refl
remove_from-running user room t (some d) = elim (Option-cases (lookup user d.user_set)) [
  | inl e ↦ rw e refl
  | inr (x, e) ↦ rw e refl
]

pub remove_user-running :
    (user room : String) (t : EduCache)
    → (remove_user user room t).running ≡ stop_old (typing room user t) t.running
unfolding remove_user typing
remove_user-running user room t = remove_from-running user room t (lookup room t.rooms)

remove_from-kept :
    (user room : String) (t : EduCache) (o : Option RoomData)
    → ((remove_from user room o t).fired ≡ t.fired) × ((remove_from user room o t).next ≡ t.next)
remove_from-kept user room t none = (refl, refl)
remove_from-kept user room t (some d) = elim (Option-cases (lookup user d.user_set)) [
  | inl e ↦ rw e (refl, refl)
  | inr (x, e) ↦ rw e (refl, refl)
]

pub remove_user-kept :
    (user room : String) (t : EduCache)
    → ((remove_user user room t).fired ≡ t.fired) × ((remove_user user room t).next ≡ t.next)
unfolding remove_user
remove_user-kept user room t = remove_from-kept user room t (lookup room t.rooms)
