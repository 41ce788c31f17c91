-- ===== src/Sync/Streams/Sound.antt =====
-- That streams keep channels of their own when one is woken (syncapi/notifier/notifier.go).
use dendrite.Base.{
  ℕ, zero, suc, ◌+◌, ◌<◌, ◌≡◌, ◌≢◌, ◌⊎◌, ap, sym, ◌∙◌, List, [], ◌∷◌, none, some, get_elem?, nat_eq,
  nat_eq_iff, All, arith, if◌then◌else◌, Bool-cases, inl, inr,
}
use dendrite.Sync.Token.{StreamingToken}
use dendrite.Sync.UserStream.{UserDeviceStream, is_closed, broadcast}
use dendrite.Sync.UserStream.Wakes.{IsOpen, broadcast-opened, below_weaken, fresh_not_closed}
use dendrite.Sync.Streams.{Heap, write, written, wake}

pub get_elem?-write {ℓ} :
    {A : Type ℓ} (l : List A) (p q : ℕ) (new : A) {old : A}
    → get_elem? l p ≡ some old
    → get_elem? (write p new l) q ≡ (if nat_eq p q then some new else get_elem? l q)
unfolding write
get_elem?-write [] p q new e = cc
get_elem?-write (x ∷ xs) zero zero new e = ground arith
get_elem?-write (x ∷ xs) zero (suc q) new e = ground arith
get_elem?-write (x ∷ xs) (suc p) zero new e = ground arith
get_elem?-write (x ∷ xs) (suc p) (suc q) new e = ground (arith, get_elem?-write xs p q new e)

-- Every stream has a channel of its own, which exists and is opened.
unfoldable pub IsSound : Heap → Type 0
IsSound h =
    ((p : ℕ) (s : UserDeviceStream) → get_elem? h.streams p ≡ some s → IsOpen s h.channels)
    × ((p q : ℕ) (s t : UserDeviceStream)
        → get_elem? h.streams p ≡ some s
        → get_elem? h.streams q ≡ some t
        → s.signal_channel ≡ t.signal_channel
        → p ≡ q)
    × All (λ c. c < h.channels.next) h.channels.closed

abbrev pub rewoken : StreamingToken → UserDeviceStream → Heap → UserDeviceStream
rewoken new s h = record s { pos = new; signal_channel = h.channels.next }

-- The heap after one stream was woken.
abbrev pub woken : StreamingToken → ℕ → UserDeviceStream → Heap → Heap
woken new p s h = record {
  streams = write p (rewoken new s h) h.streams;
  channels = record { next = h.channels.next + 1; closed = s.signal_channel ∷ h.channels.closed };
}

pub wake-some :
    (new : StreamingToken) (p : ℕ) (s : UserDeviceStream) (h : Heap)
    → IsSound h
    → get_elem? h.streams p ≡ some s
    → wake new p h ≡ some (woken new p s h)
unfolding wake IsSound IsOpen
wake-some new p s h (opened, own, all) e =
    ap
      (λ o. elim o [
        | none ↦ some h
        | some s ↦ elim (broadcast new s h.channels) [
          | none ↦ none
          | some r ↦ some (written p h.streams r)
        ]
      ])
      e
    ∙ ap (λ o. elim o [ none ↦ none | some r ↦ some (written p h.streams r) ])
        (broadcast-opened new s h.channels (opened p s e).1)

-- A stream that is found after another one was woken is the woken one, or was found before.
found_before :
    (new : StreamingToken) (p q : ℕ) (s u : UserDeviceStream) (h : Heap)
    → get_elem? h.streams p ≡ some s
    → get_elem? (woken new p s h).streams q ≡ some u
    → ((p ≡ q) × (u.signal_channel ≡ h.channels.next))
      ⊎ ((p ≢ q) × (get_elem? h.streams q ≡ some u))
found_before new p q s u h e f = elim (Bool-cases (nat_eq p q)) [
  | inl same ↦ inl (
    (nat_eq_iff p q).0 same,
    signal_of u (
        sym f
        ∙ get_elem?-write h.streams p q (rewoken new s h) e
        ∙ ap (λ b. if b then some (rewoken new s h) else get_elem? h.streams q) same),
  )
  | inr other ↦ inr (
    ground (arith, other),
    sym (
          get_elem?-write h.streams p q (rewoken new s h) e
          ∙ ap (λ b. if b then some (rewoken new s h) else get_elem? h.streams q) other)
        ∙ f,
  )
]
  where
    signal_of :
        (u : UserDeviceStream)
        → some u ≡ some (rewoken new s h)
        → u.signal_channel ≡ h.channels.next
    signal_of u e = cc

pub woken-IsSound :
    (new : StreamingToken) (p : ℕ) (s : UserDeviceStream) (h : Heap)
    → IsSound h
    → get_elem? h.streams p ≡ some s
    → IsSound (woken new p s h)
unfolding IsSound IsOpen is_closed
woken-IsSound new p s h (opened, own, all) e = (
  (λ q u f. elim (found_before new p q s u h e f) [
    | inl (_, c) ↦ (
      omega (arith, c),
      ground (arith, c, (opened p s e).0, fresh_not_closed h.channels.next h.channels.closed all),
      bounded,
    )
    | inr (other, g) ↦ (
      omega (arith, (opened q u g).0),
      ground (arith, opened q u g, own p q s u e g, other),
      bounded,
    )
  ]),
  (λ q r u v f g same. elim (found_before new p q s u h e f) [
    | inl (i, c) ↦ elim (found_before new p r s v h e g) [
      | inl (j, d) ↦ sym i ∙ j
      | inr (j, d) ↦ omega (arith, (opened r v d).0, c, same)
    ]
    | inr (i, c) ↦ elim (found_before new p r s v h e g) [
      | inl (j, d) ↦ omega (arith, (opened q u c).0, d, same)
      | inr (j, d) ↦ own q r u v c d same
    ]
  ]),
  bounded,
)
  where
    bounded : All (λ c. c < h.channels.next + 1) (s.signal_channel ∷ h.channels.closed)
    bounded = (ground (arith, (opened p s e).0), below_weaken h.channels.next h.channels.closed all)
