-- ===== src/Sync/Streams/Woken.antt =====
-- What waking streams does to each stream and to its channel (syncapi/notifier/notifier.go).
use dendrite.Base.{
  ℕ, ◌≡◌, refl, ap, sym, subst, ◌∙◌, Bool, true, false, ◌||◌, List, [], ◌∷◌, Option, none, some,
  get_elem?, nat_eq, nat_eq_iff, any, arith, if◌then◌else◌, Bool-cases, Option-cases, inl, inr,
}
use dendrite.Sync.Token.{StreamingToken}
use dendrite.Sync.UserStream.{UserDeviceStream, is_closed, broadcast}
use dendrite.Sync.UserStream.Wakes.{IsOpen}
use dendrite.Sync.Streams.{Heap, written, wake, wake_all}
use dendrite.Sync.Streams.Sound.{get_elem?-write, IsSound, rewoken, woken, wake-some, woken-IsSound}

wake-none :
    (new : StreamingToken) (p : ℕ) (h : Heap) → get_elem? h.streams p ≡ none → wake new p h ≡ some h
unfolding wake
wake-none new p h e =
    ap
      (λ o. elim o [
        | none ↦ some h
        | some s ↦ elim (broadcast new s h.channels) [
          | none ↦ none
          | some r ↦ some (written p h.streams r)
        ]
      ])
      e

sound_open :
    (h : Heap) (q : ℕ) (s : UserDeviceStream)
    → IsSound h
    → get_elem? h.streams q ≡ some s
    → is_closed s.signal_channel h.channels ≡ false
unfolding IsSound IsOpen
sound_open h q s sound e = (sound.0 q s e).1

apart :
    (l : List UserDeviceStream) (p q : ℕ) (s : UserDeviceStream)
    → get_elem? l p ≡ none
    → get_elem? l q ≡ some s
    → nat_eq q p ≡ false
apart l p q s e f = elim (Bool-cases (nat_eq q p)) [
  | inl same ↦ elim (clash (sym e ∙ ap (get_elem? l) (sym ((nat_eq_iff q p).0 same)) ∙ f)) [ ]
  | inr other ↦ other
]
  where
    clash : ◌≡◌ {A = Option UserDeviceStream} none (some s) → ⊥
    clash c = cc

-- What becomes of a stream that is woken or not.
abbrev pub IsHeardBy : StreamingToken → Bool → ℕ → UserDeviceStream → Heap → Type 0
IsHeardBy new woke q s g =
    (t : UserDeviceStream) × (get_elem? g.streams q ≡ some t)
    × (t.pos ≡ (if woke then new else s.pos))
    × (is_closed s.signal_channel g.channels ≡ woke)

-- Nothing that is closed is opened, every stream that is among the pointers is at the new position
-- and its channel is closed, and every other is as it was, its channel open.
unfoldable pub IsHeard : StreamingToken → List ℕ → Heap → Heap → Type 0
IsHeard new ps h g =
    ((c : ℕ) → is_closed c h.channels ≡ true → is_closed c g.channels ≡ true)
    × ((q : ℕ) (s : UserDeviceStream)
        → get_elem? h.streams q ≡ some s
        → IsHeardBy new (any (nat_eq q) ps) q s g)

nat_eq_flip : (a b : ℕ) → nat_eq a b ≡ nat_eq b a
nat_eq_flip a b = ground arith

at_same :
    (l : List UserDeviceStream) (p q : ℕ) {s u : UserDeviceStream}
    → get_elem? l p ≡ some s
    → get_elem? l q ≡ some u
    → q ≡ p
    → s ≡ u
at_same l p q e f same = cc

still_closed :
    (new : StreamingToken) (p : ℕ) (s : UserDeviceStream) (h : Heap) (c : ℕ)
    → is_closed c h.channels ≡ true
    → is_closed c (woken new p s h).channels ≡ true
unfolding is_closed
still_closed new p s h c k = ground (arith, k)

closed_now :
    (new : StreamingToken) (p : ℕ) (s u : UserDeviceStream) (h : Heap)
    → s ≡ u
    → is_closed u.signal_channel (woken new p s h).channels ≡ true
unfolding is_closed
closed_now new p s u h e =
    subst (λ v. is_closed v.signal_channel (woken new p s h).channels ≡ true) e (ground arith)

-- From the heap after one stream was woken.
heard_after :
    (new : StreamingToken) (p : ℕ) (rest : List ℕ) (s : UserDeviceStream) (h g : Heap)
    → get_elem? h.streams p ≡ some s
    → IsHeard new rest (woken new p s h) g
    → (q : ℕ) (u : UserDeviceStream) → get_elem? h.streams q ≡ some u
    → IsHeardBy new (any (nat_eq q) (p ∷ rest)) q u g
unfolding IsHeard is_closed
heard_after new p rest s h g e (more, each) q u found = elim (Bool-cases (nat_eq q p)) [
  | inl same ↦
      let (t, at, to, _) = each q (rewoken new s h) (
        get_elem?-write h.streams p q (rewoken new s h) e
        ∙ ap (λ b. if b then some (rewoken new s h) else get_elem? h.streams q)
            (nat_eq_flip p q ∙ same)) in
      subst (λ b. IsHeardBy new (b || any (nat_eq q) rest) q u g) (sym same)
        (
          t,
          at,
          to ∙ ground arith,
          more u.signal_channel
              (closed_now new p s u h (at_same h.streams p q e found ((nat_eq_iff q p).0 same))),
        )
  | inr other ↦
      subst (λ b. IsHeardBy new (b || any (nat_eq q) rest) q u g) (sym other)
        (each q u (
          get_elem?-write h.streams p q (rewoken new s h) e
          ∙ ap (λ b. if b then some (rewoken new s h) else get_elem? h.streams q)
              (nat_eq_flip p q ∙ other)
          ∙ found))
]

-- Waking does not panic.
pub wake_all-IsHeard :
    (new : StreamingToken) (ps : List ℕ) (h : Heap)
    → IsSound h
    → (g : Heap) × (wake_all new ps h ≡ some g) × IsSound g × IsHeard new ps h g
unfolding wake_all IsHeard
wake_all-IsHeard new [] h sound =
    (h, refl, sound, (λ c k. k, λ q s e. (s, e, refl, sound_open h q s sound e)))
wake_all-IsHeard new (p ∷ rest) h sound = elim (Option-cases (get_elem? h.streams p)) [
  | inl e ↦
      let (g, f, sound', (more, each)) = wake_all-IsHeard new rest h sound in
      (
        g,
        ap (λ o. elim o [ none ↦ none | some g ↦ wake_all new rest g ]) (wake-none new p h e) ∙ f,
        sound',
        (
          more,
          λ q s found.
              subst (λ b. IsHeardBy new (b || any (nat_eq q) rest) q s g)
                (sym (apart h.streams p q s e found)) (each q s found),
        ),
      )
  | inr (s, e) ↦
      let (g, f, sound', (more, each)) =
        wake_all-IsHeard new rest (woken new p s h) (woken-IsSound new p s h sound e) in
      (
        g,
        ap (λ o. elim o [ none ↦ none | some g ↦ wake_all new rest g ])
              (wake-some new p s h sound e)
            ∙ f,
        sound',
        (λ c k. more c (still_closed new p s h c k), heard_after new p rest s h g e (more, each)),
      )
]
