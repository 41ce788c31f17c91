-- ===== src/Typing/Updates.antt =====
-- What a client sees that has read up to a sync position (eduserver/cache/cache.go).
use dendrite.Base.{
  ℕ, suc, ◌≤◌, ◌<◌, ◌≡◌, refl, sym, ap, ◌∙◌, Bool, true, false, List, [], ◌∷◌, Option, none, some,
  String, ◌==◌, String_eq, arith, ltb, ◌⊎◌, inl, inr, if◌then◌else◌, Bool-cases, Option-cases,
}
use dendrite.Base.Int.{ℤ, pos, ltb_ℤ, sub_ℤ}
use dendrite.Base.Map.{lookup, insert, lookup-insert}
use dendrite.Typing.Cache.{
  EduCache, RoomData, Timer, add_user, remove_user, add_typing_user, stop, timer_eq, with_timer,
  moved_to, without_user, remove_from, get_typing_users_if_updated_after, get_typing_users,
  users_after, get_expire_time, after_func,
}

abbrev pub holds : Timer → List Timer → Bool
holds x = dendrite.Base.any (timer_eq x)

-- A running timer fires.
abbrev pub expire : Timer → EduCache → EduCache
expire x t = record t { running = stop x t.running; fired = x ∷ t.fired }

-- The function of a timer that has fired.
abbrev pub call : Timer → EduCache → EduCache
call x t = remove_user x.user x.room (record t { fired = stop x t.fired })

-- One operation, or what a timer does.
pub data Step (s : EduCache) : EduCache → Type 0 where
  adds :
      (user room : String) (until : Option ℤ) (now : ℤ)
      → Step s (add_typing_user user room until now s)
  removes : (user room : String) → Step s (remove_user user room s)
  expires : (x : Timer) → holds x s.running ≡ true → Step s (expire x s)
  calls : (x : Timer) → holds x s.fired ≡ true → Step s (call x s)

pub data Run (s : EduCache) : EduCache → Type 0 where
  start : Run s s
  after : {t t' : EduCache} → Run s t → Step t t' → Run s t'

-- The room has changed after a position.
abbrev pub changed_after : ℕ → Option RoomData → Bool
changed_after p none = false
changed_after p (some d) = ltb p d.sync_position

abbrev IsTold : String → EduCache → EduCache → Type 0
IsTold r s t =
    (s.latest_sync_position ≤ t.latest_sync_position)
    × ((lookup r t.rooms ≡ lookup r s.rooms)
        ⊎ (changed_after s.latest_sync_position (lookup r t.rooms) ≡ true))

told_insert :
    (r room : String) (s : EduCache) (d : RoomData)
    → s.latest_sync_position < d.sync_position
    → (lookup r (insert room d s.rooms) ≡ lookup r s.rooms)
      ⊎ (changed_after s.latest_sync_position (lookup r (insert room d s.rooms)) ≡ true)
told_insert r room s d h = elim (Bool-cases (room == r)) [
  | inl e ↦ inr (
      ap (changed_after s.latest_sync_position)
        (lookup-insert room r d s.rooms ∙ ap (λ c. if c then some d else lookup r s.rooms) e)
      ∙ ground (arith, h))
  | inr e ↦
      inl (lookup-insert room r d s.rooms ∙ ap (λ c. if c then some d else lookup r s.rooms) e)
]

add_user-IsTold :
    (user room r : String) (x : Timer) (s : EduCache) → IsTold r s (add_user user room x s)
unfolding add_user
add_user-IsTold user room r x s =
    (omega arith, told_insert r room s _ (position (lookup room s.rooms)))
  where
    position :
        (o : Option RoomData)
        → s.latest_sync_position
          < (with_timer user x (
              moved_to o
                (record s { latest_sync_position = suc s.latest_sync_position }))).sync_position
    position none = omega arith
    position (some d) = omega arith

remove_from-IsTold :
    (user room r : String) (s : EduCache) (o : Option RoomData)
    → IsTold r s (remove_from user room o s)
remove_from-IsTold user room r s none = (omega arith, inl refl)
remove_from-IsTold user room r s (some d) = elim (Option-cases (lookup user d.user_set)) [
  | inl e ↦ rw e (omega arith, inl refl)
  | inr (x, e) ↦ rw e (omega arith, told_insert r room s (without_user user d s) (omega arith))
]

remove_user-IsTold : (user room r : String) (s : EduCache) → IsTold r s (remove_user user room s)
unfolding remove_user
remove_user-IsTold user room r s = remove_from-IsTold user room r s (lookup room s.rooms)

add_typing_user-IsTold :
    (user room r : String) (until : Option ℤ) (now : ℤ) (s : EduCache)
    → IsTold r s (add_typing_user user room until now s)
unfolding add_typing_user
add_typing_user-IsTold user room r until now s =
    elim (Bool-cases (ltb_ℤ (pos 0) (sub_ℤ (get_expire_time until now) now))) [
      | inl e ↦
          rw e (add_user-IsTold user room r (after_func user room s).0 (after_func user room s).1)
      | inr e ↦ rw e (omega arith, inl refl)
    ]

Step-IsTold : (r : String) (s t : EduCache) → Step s t → IsTold r s t
Step-IsTold r s _ (adds user room until now) = add_typing_user-IsTold user room r until now s
Step-IsTold r s _ (removes user room) = remove_user-IsTold user room r s
Step-IsTold r s _ (expires x h) = (omega arith, inl refl)
Step-IsTold r s _ (calls x h) =
    remove_user-IsTold x.user x.room r (record s { fired = stop x s.fired })

changed_later :
    (p q : ℕ) (o : Option RoomData) → p ≤ q → changed_after q o ≡ true → changed_after p o ≡ true
changed_later p q none h c = c
changed_later p q (some d) h c = ground arith

IsTold-trans : (r : String) (s t u : EduCache) → IsTold r s t → IsTold r t u → IsTold r s u
IsTold-trans r s t u h k = (
  omega (arith, h.0, k.0),
  elim k.1 [
    | inl e ↦ elim h.1 [
      | inl d ↦ inl (e ∙ d)
      | inr d ↦ inr (ap (changed_after s.latest_sync_position) e ∙ d)
    ]
    | inr e ↦
        inr (changed_later s.latest_sync_position t.latest_sync_position (lookup r u.rooms) h.0 e)
  ],
)

run-IsTold : (r : String) (s t : EduCache) → Run s t → IsTold r s t
run-IsTold r s _ start = (omega arith, inl refl)
run-IsTold r s t' (after {t} run step) =
    IsTold-trans r s t t' (run-IsTold r s t run) (Step-IsTold r t t' step)

users_after_told :
    (p : ℕ) (o : Option RoomData)
    → changed_after p o ≡ true
    → users_after o p ≡ ((users_after o 0).0, true)
users_after_told p none h = ground (arith, h)
users_after_told p (some d) h = ground (arith, h)

users_told :
    (r : String) (p : ℕ) (t : EduCache)
    → changed_after p (lookup r t.rooms) ≡ true
    → get_typing_users_if_updated_after r p t ≡ (get_typing_users r t, true)
unfolding get_typing_users_if_updated_after get_typing_users
users_told r p t h = users_after_told p (lookup r t.rooms) h

-- However the operations and the timers interleave after a client has read up to the latest sync
-- position, a room is as it was, or asking for what has changed after that position returns the
-- users who are typing there, with `updated` set.
pub get_typing_users_if_updated_after_complete :
    (r : String) (s t : EduCache)
    → Run s t
    → (lookup r t.rooms ≡ lookup r s.rooms)
      ⊎ (get_typing_users_if_updated_after r s.latest_sync_position t
          ≡ (get_typing_users r t, true))
get_typing_users_if_updated_after_complete r s t run = elim (run-IsTold r s t run).1 [
  | inl e ↦ inl e
  | inr e ↦ inr (users_told r s.latest_sync_position t e)
]
