-- ===== src/Sync/UserStream/Wakes.antt =====
-- Which channels are closed when (syncapi/notifier/userstream.go).
use dendrite.Base.{
  ℕ, ◌+◌, ◌%◌, ◌^◌, ◌<◌, ◌≡◌, refl, ap, sym, subst, ◌∙◌, Bool, true, false, ◌&&◌, ◌||◌, not, List,
  [], ◌∷◌, Option, none, some, nat_eq, any, All, arith, if◌then◌else◌, Bool-cases, inl, inr,
}
use dendrite.Sync.Token.{StreamingToken, is_after}
use dendrite.Sync.UserStream.{
  Channels, UserDeviceStream, Listener, is_closed, make_channel, close_channel, get_listener,
  broadcast, get_notify_channel, close,
}

-- What one of the goroutines does with the stream while it holds the lock.
pub data Action : Type 0 where
  listens : Action
  broadcasts : StreamingToken → Action
  asks : StreamingToken → Action
  closes : ℕ → Listener → Action

abbrev pub is_broadcast : Action → Bool
is_broadcast (broadcasts new) = true
is_broadcast _ = false

unfoldable pub act : Action → UserDeviceStream → Channels → Option (UserDeviceStream × Channels)
unfolding get_listener get_notify_channel close
act listens s cs = some ((get_listener s).1, cs)
act (broadcasts new) s cs = broadcast new s cs
act (asks since) s cs = some (s, (get_notify_channel since s cs).1)
act (closes now l) s cs = some ((close now l s).1, cs)

-- An interleaving of the goroutines is an order of their actions.
unfoldable pub run :
    List Action → UserDeviceStream → Channels → Option (UserDeviceStream × Channels)
unfolding act
run [] s cs = some (s, cs)
run (a ∷ rest) s cs = elim (act a s cs) [ none ↦ none | some (t, ds) ↦ run rest t ds ]

-- The channel of the stream exists and is open.
unfoldable pub IsOpen : UserDeviceStream → Channels → Type 0
IsOpen s cs =
    (s.signal_channel < cs.next)
    × (is_closed s.signal_channel cs ≡ false)
    × All (λ c. c < cs.next) cs.closed

pub below_weaken : (n : ℕ) (l : List ℕ) → All (λ c. c < n) l → All (λ c. c < n + 1) l
below_weaken n [] a = a
below_weaken n (c ∷ rest) (h, a) = (omega (arith, h), below_weaken n rest a)

pub fresh_not_closed : (n : ℕ) (l : List ℕ) → All (λ c. c < n) l → any (nat_eq n) l ≡ false
fresh_not_closed n [] a = refl
fresh_not_closed n (c ∷ rest) (h, a) = ground (arith, h, fresh_not_closed n rest a)

close_channel-opened :
    (c : ℕ) (cs : Channels)
    → is_closed c cs ≡ false
    → close_channel c cs ≡ some (record cs { closed = c ∷ cs.closed })
unfolding close_channel
close_channel-opened c cs op =
    ap (λ b. if b then none else some (record cs { closed = c ∷ cs.closed })) op

pub broadcast-opened :
    (new : StreamingToken) (s : UserDeviceStream) (cs : Channels)
    → is_closed s.signal_channel cs ≡ false
    → broadcast new s cs
      ≡ some (
        record s { pos = new; signal_channel = cs.next },
        record { next = cs.next + 1; closed = s.signal_channel ∷ cs.closed },
      )
unfolding broadcast make_channel
broadcast-opened new s cs op = rw (broadcast, close_channel-opened s.signal_channel cs op) refl

-- With a channel more, which is closed.
abbrev pub with_closed : Channels → Channels
with_closed cs = record { next = cs.next + 1; closed = cs.next ∷ cs.closed }

pub get_notify_channel-behind :
    (since : StreamingToken) (s : UserDeviceStream) (cs : Channels)
    → is_after s.pos since ≡ true
    → get_notify_channel since s cs ≡ (cs.next, with_closed cs)
unfolding get_notify_channel make_channel
get_notify_channel-behind since s cs e =
    ap (λ b. if b then (cs.next, with_closed cs) else (s.signal_channel, cs)) e

pub get_notify_channel-up_to_date :
    (since : StreamingToken) (s : UserDeviceStream) (cs : Channels)
    → is_after s.pos since ≡ false
    → get_notify_channel since s cs ≡ (s.signal_channel, cs)
unfolding get_notify_channel make_channel
get_notify_channel-up_to_date since s cs e =
    ap (λ b. if b then (cs.next, with_closed cs) else (s.signal_channel, cs)) e

pub close-signal_channel :
    (now : ℕ) (l : Listener) (s : UserDeviceStream)
    → (close now l s).1.signal_channel ≡ s.signal_channel
unfolding close
close-signal_channel now l s = ground arith

-- What an action on an open stream does to a channel that exists.
IsKept : Action → UserDeviceStream → Channels → ℕ → UserDeviceStream → Channels → Type 0
IsKept a s cs c t ds =
    (act a s cs ≡ some (t, ds))
    × IsOpen t ds
    × (c < ds.next)
    × (is_closed c ds ≡ (is_closed c cs || (nat_eq c s.signal_channel && is_broadcast a)))
    × (nat_eq c t.signal_channel ≡ (nat_eq c s.signal_channel && not (is_broadcast a)))

with_closed-IsOpen :
    (s : UserDeviceStream) (cs : Channels) → IsOpen s cs → IsOpen s (with_closed cs)
unfolding IsOpen is_closed
with_closed-IsOpen s cs (below, op, all) = (
  omega (arith, below),
  ground (arith, op, below),
  (omega arith, below_weaken cs.next cs.closed all),
)

act-IsKept :
    (a : Action) (s : UserDeviceStream) (cs : Channels) (c : ℕ)
    → IsOpen s cs
    → c < cs.next
    → (t : UserDeviceStream) × (ds : Channels) × IsKept a s cs c t ds
unfolding act IsOpen is_closed get_listener get_notify_channel broadcast close make_channel
    close_channel IsKept
act-IsKept listens s cs c (below, op, all) h = (
  record s { num_waiting = (s.num_waiting + 1) % 2 ^ 64 },
  cs,
  (refl, (below, op, all), h, ground arith, ground arith),
)
act-IsKept (broadcasts new) s cs c (below, op, all) h = (
  record s { pos = new; signal_channel = cs.next },
  record { next = cs.next + 1; closed = s.signal_channel ∷ cs.closed },
  (
    broadcast-opened new s cs op,
    (
      omega arith,
      ground (arith, below, fresh_not_closed cs.next cs.closed all),
      (omega (arith, below), below_weaken cs.next cs.closed all),
    ),
    omega (arith, h),
    ground (arith, op, h),
    ground (arith, h),
  ),
)
act-IsKept (asks since) s cs c (below, op, all) h = elim (Bool-cases (is_after s.pos since)) [
  | inl e ↦ (
    s,
    with_closed cs,
    (
      ap (λ r. some (s, r.1)) (get_notify_channel-behind since s cs e),
      with_closed-IsOpen s cs (below, op, all),
      omega (arith, h),
      ground (arith, h),
      ground arith,
    ),
  )
  | inr e ↦ (
    s,
    cs,
    (
      ap (λ r. some (s, r.1)) (get_notify_channel-up_to_date since s cs e),
      (below, op, all),
      h,
      ground arith,
      ground arith,
    ),
  )
]
act-IsKept (closes now l) s cs c (below, op, all) h = (
  (close now l s).1,
  cs,
  (
    refl,
    (
      subst (λ n. n < cs.next) (sym (close-signal_channel now l s)) below,
      subst (λ n. is_closed n cs ≡ false) (sym (close-signal_channel now l s)) op,
      all,
    ),
    h,
    ground arith,
    ap (nat_eq c) (close-signal_channel now l s) ∙ ground arith,
  ),
)

run_of_act :
    (a : Action) (rest : List Action) (s : UserDeviceStream) (cs : Channels) {t : UserDeviceStream}
    {ds : Channels}
    → act a s cs ≡ some (t, ds)
    → run (a ∷ rest) s cs ≡ run rest t ds
unfolding run
run_of_act a rest s cs e = ap (λ o. elim o [ none ↦ none | some (t, ds) ↦ run rest t ds ]) e

-- After any interleaving a channel is closed if it was, or if it was the channel of the stream and
-- something was broadcast.
run-closed :
    (actions : List Action) (s : UserDeviceStream) (cs : Channels) (c : ℕ)
    → IsOpen s cs
    → c < cs.next
    → (t : UserDeviceStream) × (ds : Channels) × (run actions s cs ≡ some (t, ds))
      × (is_closed c ds
          ≡ (is_closed c cs || (nat_eq c s.signal_channel && any is_broadcast actions)))
unfolding run IsKept
run-closed [] s cs c opened h = (s, cs, refl, ground arith)
run-closed (a ∷ rest) s cs c opened h =
    let (t, ds, (e, o, k, shut, same)) = act-IsKept a s cs c opened h in
    let (u, es, f, ends) = run-closed rest t ds c o k in
    (u, es, run_of_act a rest s cs e ∙ f, ground (arith, shut, same, ends))

-- What becomes of a channel that was handed out, with the channels as they are then.
abbrev IsWoken : StreamingToken → List Action → UserDeviceStream → ℕ × Channels → Type 0
IsWoken since actions s r =
    (t : UserDeviceStream) × (ds : Channels) × (run actions s r.1 ≡ some (t, ds))
    × (is_closed r.0 ds ≡ (is_after s.pos since || any is_broadcast actions))

-- No wake-up is lost or made up. From an open stream, whatever the goroutines do after one has asked
-- for a channel, in any order, no closed channel is closed again, and that channel is closed exactly
-- when the stream was already after the position that was asked about, or something was broadcast.
pub get_notify_channel-is_closed :
    (since : StreamingToken) (actions : List Action) (s : UserDeviceStream) (cs : Channels)
    → IsOpen s cs
    → (t : UserDeviceStream) × (ds : Channels) × (run actions s (get_notify_channel since s cs).1
        ≡ some (t, ds))
      × (is_closed (get_notify_channel since s cs).0 ds
          ≡ (is_after s.pos since || any is_broadcast actions))
unfolding IsOpen is_closed
get_notify_channel-is_closed since actions s cs opened = elim (Bool-cases (is_after s.pos since)) [
  | inl e ↦ subst (IsWoken since actions s) (sym (get_notify_channel-behind since s cs e)) (
      let (t, ds, f, k) =
        run-closed actions s (with_closed cs) cs.next (with_closed-IsOpen s cs opened)
          (omega arith) in
      (t, ds, f, k ∙ ground (arith, e)))
  | inr e ↦ subst (IsWoken since actions s) (sym (get_notify_channel-up_to_date since s cs e)) (
      let (t, ds, f, k) = run-closed actions s cs s.signal_channel opened opened.0 in
      (t, ds, f, k ∙ ground (arith, e, opened)))
]
