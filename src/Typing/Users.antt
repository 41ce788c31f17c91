-- ===== src/Typing/Users.antt =====
-- Who is listed as typing after each operation (eduserver/cache/cache.go).
use dendrite.Base.{
  ◌≡◌, refl, ap, ◌∙◌, Bool, true, false, ◌&&◌, Option, none, some, String, ◌==◌, String_eq, arith,
  if◌then◌else◌, inl, inr, Option-cases, Bool-cases, sym,
}
use dendrite.Base.Map.{lookup, insert, lookup-insert, lookup-delete}
use dendrite.Typing.Cache.{
  EduCache, Timer, RoomData, add_user, remove_user, typing, timer_in, with_timer, moved_to,
  without_user, remove_from,
}

timer_in-if :
    (u : String) (c : Bool) (x y : Option RoomData)
    → timer_in u (if c then x else y) ≡ (if c then timer_in u x else timer_in u y)
timer_in-if u true x y = refl
timer_in-if u false x y = refl

timer_in-with_timer :
    (user : String) (timer : Timer) (t : EduCache) (u : String) (o : Option RoomData)
    → timer_in u (some (with_timer user timer (moved_to o t)))
      ≡ (if user == u then some timer else timer_in u o)
unfolding lookup insert
timer_in-with_timer user timer t u none = refl
timer_in-with_timer user timer t u (some d) = lookup-insert user u timer d.user_set

same_room :
    (r room u user : String) (t : EduCache) (o : Option Timer) (x : Option Timer)
    → (room == r ≡ true → x ≡ (if user == u then o else timer_in u (lookup room t.rooms)))
    → (if room == r then x else timer_in u (lookup r t.rooms))
      ≡ (if (room == r) && (user == u) then o else timer_in u (lookup r t.rooms))
same_room r room u user t o x h = elim (Bool-cases (room == r)) [
  | inl e ↦ rw e (
      h e
      ∙ ap (λ s. if user == u then o else timer_in u (lookup s t.rooms))
          ((String_eq.beq_iff room r).0 e))
  | inr e ↦ rw e
]

pub typing-add_user :
    (user room : String) (timer : Timer) (t : EduCache) (r u : String)
    → typing r u (add_user user room timer t)
      ≡ (if (room == r) && (user == u) then some timer else typing r u t)
unfolding typing add_user
typing-add_user user room timer t r u =
    ap (timer_in u) (lookup-insert room r _ t.rooms)
    ∙ timer_in-if u (room == r) _ (lookup r t.rooms)
    ∙ same_room r room u user t (some timer) _
        (λ e. timer_in-with_timer user timer _ u (lookup room t.rooms))

absent :
    (user room r u : String) (t : EduCache)
    → timer_in user (lookup room t.rooms) ≡ none
    → timer_in u (lookup r t.rooms)
      ≡ (if (room == r) && (user == u) then none else timer_in u (lookup r t.rooms))
absent user room r u t h = ground (arith, h, String_eq.beq_iff room r, String_eq.beq_iff user u)

remove_from_step :
    (user room r u : String) (t : EduCache) (o : Option RoomData)
    → lookup room t.rooms ≡ o
    → timer_in u (lookup r (remove_from user room o t).rooms)
      ≡ (if (room == r) && (user == u) then none else timer_in u (lookup r t.rooms))
remove_from_step user room r u t none h = absent user room r u t (ap (timer_in user) h)
remove_from_step user room r u t (some d) h = elim (Option-cases (lookup user d.user_set)) [
  | inl e ↦ rw e (absent user room r u t (ap (timer_in user) h ∙ e))
  | inr (x, e) ↦ rw e (
      ap (timer_in u) (lookup-insert room r (without_user user d t) t.rooms)
      ∙ timer_in-if u (room == r) (some (without_user user d t)) (lookup r t.rooms)
      ∙ same_room r room u user t none _ (λ k.
        lookup-delete user u d.user_set
        ∙ ap (λ l. if user == u then none else timer_in u l) (sym h)))
]

pub typing-remove_user :
    (user room : String) (t : EduCache) (r u : String)
    → typing r u (remove_user user room t)
      ≡ (if (room == r) && (user == u) then none else typing r u t)
unfolding typing remove_user
typing-remove_user user room t r u = remove_from_step user room r u t (lookup room t.rooms) refl

-- Adding a user to a room makes that user's timer there the new one, and removing the user from the
-- room takes the timer away; neither changes any other user or any other room.
pub typing-add_user-remove_user :
    (user room : String) (timer : Timer) (t : EduCache) (r u : String)
    → (typing r u (add_user user room timer t)
        ≡ (if (room == r) && (user == u) then some timer else typing r u t))
      × (typing r u (remove_user user room t)
          ≡ (if (room == r) && (user == u) then none else typing r u t))
typing-add_user-remove_user user room timer t r u =
    (typing-add_user user room timer t r u, typing-remove_user user room t r u)
