-- ===== src/Sync/Notifier/Waiting.antt =====
-- That no request that waits is forgotten (syncapi/notifier/notifier.go).
use dendrite.Base.{
  ℕ, ◌+◌, ◌*◌, ◌^◌, ltb, ◌≡◌, refl, ap, sym, subst, ◌∙◌, Bool, true, false, ◌&&◌, ◌||◌, List, [],
  ◌∷◌, ◌++◌, Option, none, some, String, String_eq, ◌==◌, nat_eq, any, map, get_elem?, arith,
  if◌then◌else◌, Bool-cases, inl, inr,
}
use dendrite.Base.Map.{Map, lookup}
use dendrite.Sync.Token.{StreamingToken, apply_updates}
use dendrite.Sync.UserStream.{UserDeviceStream, is_closed}
use dendrite.Sync.Streams.Sound.{IsSound}
use dendrite.Sync.Streams.Woken.{IsHeard, wake_all-IsHeard}
use dendrite.Sync.Notifier.{
  Notifier, Event, PeekingDevice, or_empty, keys, joined_users, peeking_devices,
  remove_empty_user_streams, find_user_device_stream, fetch_user_streams, streams_of_users,
  streams_of_devices, with_heap, wakeup_users, add_joined_user, remove_joined_user,
}
use dendrite.Sync.Notifier.Handlers.{
  moved, on_membership, on_state_key, wakeup_for_event, on_new_event,
}
use dendrite.Sync.Notifier.Cleanup.{
  IsWaiting, find_same, find_inv, cleaned, find-remove_empty_user_streams,
}

any_append {ℓ} : {A : Type ℓ} (f : A → Bool) (l m : List A) → any f (l ++ m) ≡ (any f l || any f m)
any_append f [] m = refl
any_append f (x ∷ l) m = ground (arith, any_append f l m)

any_pointer :
    (device : String) (p : ℕ) (m : Map String ℕ)
    → lookup device m ≡ some p
    → any (nat_eq p) (map (λ e. e.1) m) ≡ true
unfolding lookup
any_pointer device p [] e = cc
any_pointer device p ((d, q) ∷ rest) e = ground (arith, e, any_pointer device p rest)

any_of_user :
    (n : Notifier) (user device : String) (p : ℕ)
    → find_user_device_stream n user device ≡ some p
    → any (nat_eq p) (fetch_user_streams n user) ≡ true
unfolding fetch_user_streams
any_of_user n user device p e =
    let (devices, f, g) = find_inv n user device p e in
    ap (λ o. any (nat_eq p) (map (λ e. e.1) (or_empty o))) f ∙ any_pointer device p devices g

-- The streams of the users hold the one of each device of each of them.
any-streams_of_users :
    (n : Notifier) (user device : String) (p : ℕ) (users : List String)
    → find_user_device_stream n user device ≡ some p
    → any (λ u. u == user) users ≡ true
    → any (nat_eq p) (streams_of_users n users) ≡ true
unfolding streams_of_users fetch_user_streams find_user_device_stream
any-streams_of_users n user device p [] e a = a
any-streams_of_users n user device p (u ∷ rest) e a =
    any_append (nat_eq p) (fetch_user_streams n u) (streams_of_users n rest)
    ∙ elim (Bool-cases (u == user)) [
      | inl same ↦
          let i = sym ((String_eq.beq_iff u user).0 same) in
          ground (
            arith,
            subst (λ v. any (nat_eq p) (fetch_user_streams n v) ≡ true) i
                (any_of_user n user device p e),
          )
      | inr other ↦
          ground (arith, any-streams_of_users n user device p rest e (ground (arith, other, a)))
    ]

-- The event invites the user, or is the join of the user.
abbrev pub is_invite_or_join : String → Option String → Option String → String → Bool
is_invite_or_join event_type none membership user = false
is_invite_or_join event_type (some target) none user = false
is_invite_or_join event_type (some target) (some membership) user =
    (event_type == "m.room.member")
    && (target == user)
    && ((membership == "invite") || (membership == "join"))

-- What a change of membership leaves alone.
abbrev IsSameFor : Notifier → Notifier → Type 0
IsSameFor n m = (m.heap ≡ n.heap) × (m.user_device_streams ≡ n.user_device_streams)

pub on_state_key-IsSameFor :
    (room event_type : String) (state_key membership : Option String) (users : List String)
    (n : Notifier)
    → IsSameFor n (on_state_key room event_type state_key membership users n).1
unfolding on_state_key on_membership add_joined_user remove_joined_user
on_state_key-IsSameFor room event_type none membership users n = (refl, refl)
on_state_key-IsSameFor room event_type (some target) none users n = (ground arith, ground arith)
on_state_key-IsSameFor room event_type (some target) (some membership) users n =
    (ground arith, ground arith)

any-on_state_key :
    (room event_type : String) (state_key membership : Option String) (users : List String)
    (n : Notifier) (user : String)
    → any (λ u. u == user) (on_state_key room event_type state_key membership users n).0
      ≡ (any (λ u. u == user) users || is_invite_or_join event_type state_key membership user)
unfolding on_state_key on_membership
any-on_state_key room event_type none membership users n user = ground arith
any-on_state_key room event_type (some target) none users n user = ground arith
any-on_state_key room event_type (some target) (some membership) users n user =
    ground (arith, any_append (λ u. u == user) users (target ∷ []))

-- The operation succeeds, keeps the device's stream in the map, and leaves the stream at the
-- position, with the channel that it had closed.
abbrev pub IsWokenTo :
    String → String → StreamingToken → ℕ → UserDeviceStream → Option Notifier → Type 0
IsWokenTo user device new p s r =
    (m : Notifier) × (t : UserDeviceStream) × (r ≡ some m)
    × (find_user_device_stream m user device ≡ some p)
    × (get_elem? m.heap.streams p ≡ some t)
    × (t.pos ≡ new)
    × (is_closed s.signal_channel m.heap.channels ≡ true)

wakeup_users-IsWokenTo :
    (users : List String) (devices : List PeekingDevice) (new : StreamingToken) (n : Notifier)
    (user device : String) (p : ℕ) (s : UserDeviceStream)
    → IsSound n.heap
    → find_user_device_stream n user device ≡ some p
    → get_elem? n.heap.streams p ≡ some s
    → any (λ u. u == user) users ≡ true
    → IsWokenTo user device new p s (wakeup_users users devices new n)
unfolding wakeup_users IsHeard
wakeup_users-IsWokenTo users devices new n user device p s sound e f a =
    let (g, h, _, (_, each)) =
      wake_all-IsHeard new (streams_of_users n users ++ streams_of_devices n devices) n.heap
        sound in
    let (t, at, to, shut) = each p s f in
    let named =
      any_append (nat_eq p) (streams_of_users n users) (streams_of_devices n devices)
      ∙ ground (arith, any-streams_of_users n user device p users e a) in
    (
      record n { heap = g },
      t,
      ap (with_heap n) h,
      find_same (record n { heap = g }) n user device refl ∙ e,
      at,
      to ∙ ap (λ b. if b then new else s.pos) named,
      shut ∙ named,
    )

wakeup_for_event-IsWokenTo :
    (ev : Event) (n : Notifier) (user device : String) (p : ℕ) (s : UserDeviceStream)
    → IsSound n.heap
    → find_user_device_stream n user device ≡ some p
    → get_elem? n.heap.streams p ≡ some s
    → (any (λ u. u == user) (joined_users ev.room_id n)
        || is_invite_or_join ev.event_type ev.state_key ev.membership user)
      ≡ true
    → IsWokenTo user device n.curr_pos p s (wakeup_for_event ev n)
unfolding wakeup_for_event
wakeup_for_event-IsWokenTo ev n user device p s sound e f named =
    let joined = joined_users ev.room_id n in
    let r = on_state_key ev.room_id ev.event_type ev.state_key ev.membership joined n in
    let (heap, streams) =
      on_state_key-IsSameFor ev.room_id ev.event_type ev.state_key ev.membership joined n in
    wakeup_users-IsWokenTo r.0 (peeking_devices ev.room_id n) n.curr_pos r.1 user device p s
      (subst IsSound (sym heap) sound) (find_same r.1 n user device streams ∙ e)
      (ap (λ h. get_elem? h.streams p) heap ∙ f)
      (any-on_state_key ev.room_id ev.event_type ev.state_key ev.membership joined n user ∙ named)

-- The clean-up changes neither the position, nor the streams, nor who has joined.
pub remove_empty_user_streams-rest :
    (now : ℕ) (n : Notifier)
    → (n.heap ≡ (remove_empty_user_streams now n).heap)
      × (n.curr_pos ≡ (remove_empty_user_streams now n).curr_pos)
      × (n.room_id_to_joined_users ≡ (remove_empty_user_streams now n).room_id_to_joined_users)
unfolding remove_empty_user_streams
remove_empty_user_streams-rest now n = rest (ltb now (n.last_clean_up_time + 60 * 10 ^ 9))
  where
    rest :
        (early : Bool)
        → (n.heap ≡ (cleaned now n early).heap)
          × (n.curr_pos ≡ (cleaned now n early).curr_pos)
          × (n.room_id_to_joined_users ≡ (cleaned now n early).room_id_to_joined_users)
    rest true = (refl, refl, refl)
    rest false = (refl, refl, refl)

pub on_new_event-IsWokenTo :
    (now : ℕ) (ev : Event) (room : String) (users : List String) (update : StreamingToken)
    (n : Notifier) (user device : String) (p : ℕ) (s : UserDeviceStream)
    → IsSound n.heap
    → find_user_device_stream n user device ≡ some p
    → IsWaiting n.heap p s
    → (any (λ u. u == user) (joined_users ev.room_id n)
        || is_invite_or_join ev.event_type ev.state_key ev.membership user)
      ≡ true
    → IsWokenTo user device
        (apply_updates n.curr_pos update)
        p
        s
        (on_new_event now (some ev) room users update n)
unfolding on_new_event find_user_device_stream joined_users
on_new_event-IsWokenTo now ev room users update n user device p s sound e w named =
    let m = moved update n in
    let (heap, at, joined) = remove_empty_user_streams-rest now m in
    let c = remove_empty_user_streams now m in
    subst (λ new. IsWokenTo user device new p s (wakeup_for_event ev c)) (sym at)
      (wakeup_for_event-IsWokenTo ev c user device p s (subst IsSound heap sound)
        (find-remove_empty_user_streams now m user device p s e w)
        (ap (λ h. get_elem? h.streams p) (sym heap) ∙ w.0)
        (ap
            (λ j.
              any (λ u. u == user) (keys (or_empty (lookup ev.room_id j)))
              || is_invite_or_join ev.event_type ev.state_key ev.membership user)
            (sym joined)
          ∙ named))
