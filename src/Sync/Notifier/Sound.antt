-- ===== src/Sync/Notifier/Sound.antt =====
-- That no operation panics, since every stream keeps an open channel of its own
-- (syncapi/notifier/notifier.go, syncapi/notifier/userstream.go).
use dendrite.Base.{
  ℕ, zero, suc, ◌+◌, ◌<◌, ◌≡◌, ◌⊎◌, refl, ap, sym, subst, ◌∙◌, Bool, false, List, [], ◌∷◌, ◌++◌,
  some, some_inj, String_eq, nat_eq, nat_eq_iff, length, All, get_elem?, arith, if◌then◌else◌,
  Bool-cases, inl, inr,
}
use dendrite.Sync.UserStream.{UserDeviceStream, is_closed}
use dendrite.Sync.UserStream.Wakes.{IsOpen, below_weaken, fresh_not_closed, with_closed}
use dendrite.Sync.Streams.{Heap, write}
use dendrite.Sync.Streams.Sound.{IsSound, get_elem?-write}

-- Two streams with the same channel are one, also after a stream is written back with the channel it
-- had.
pub written-IsSound :
    (h : Heap) (p : ℕ) (s t : UserDeviceStream)
    → IsSound h
    → get_elem? h.streams p ≡ some s
    → t.signal_channel ≡ s.signal_channel
    → IsSound (record { streams = write p t h.streams; channels = h.channels })
unfolding IsSound IsOpen
written-IsSound h p s t (opened, own, all) e same = (
  (λ q u f. let (v, g, k) = before q u f in subst (λ c. IsOpenAt c) (sym k) (opened q v g)),
  (λ q r u v f g k.
      let (u', f', i) = before q u f in
      let (v', g', j) = before r v g in own q r u' v' f' g' (sym i ∙ k ∙ j)),
  all,
)
  where
    IsOpenAt : ℕ → Type 0
    IsOpenAt c =
        (c < h.channels.next)
        × (is_closed c h.channels ≡ false)
        × All (λ c. c < h.channels.next) h.channels.closed

    at :
        (q : ℕ) {b : Bool}
        → nat_eq p q ≡ b
        → get_elem? (write p t h.streams) q ≡ (if b then some t else get_elem? h.streams q)
    at q k =
        get_elem?-write h.streams p q t e ∙ ap (λ b. if b then some t else get_elem? h.streams q) k

    before :
        (q : ℕ) (u : UserDeviceStream)
        → get_elem? (write p t h.streams) q ≡ some u
        → (v : UserDeviceStream) × (get_elem? h.streams q ≡ some v)
          × (u.signal_channel ≡ v.signal_channel)
    before q u f = elim (Bool-cases (nat_eq p q)) [
      | inl k ↦ (
        s,
        ap (get_elem? h.streams) (sym ((nat_eq_iff p q).0 k)) ∙ e,
        sym (ap (λ w. w.signal_channel) (some_inj (sym (at q k) ∙ f))) ∙ same,
      )
      | inr k ↦ (u, sym (at q k) ∙ f, refl)
    ]

-- A channel that is made and closed at once belongs to no stream.
pub with_closed-IsSound :
    (h : Heap)
    → IsSound h
    → IsSound (record { streams = h.streams; channels = with_closed h.channels })
unfolding IsSound IsOpen is_closed
with_closed-IsSound h (opened, own, all) = (
  (λ q u f. (omega (arith, (opened q u f).0), ground (arith, (opened q u f)), bounded)),
  own,
  bounded,
)
  where
    bounded : All (λ c. c < h.channels.next + 1) (h.channels.next ∷ h.channels.closed)
    bounded = (omega arith, below_weaken h.channels.next h.channels.closed all)

get_elem?-append_one :
    (l : List UserDeviceStream) (s u : UserDeviceStream) (q : ℕ)
    → get_elem? (l ++ s ∷ []) q ≡ some u
    → ((q ≡ length l) × (s ≡ u)) ⊎ (get_elem? l q ≡ some u)
get_elem?-append_one [] s u zero e = inl (refl, some_inj e)
get_elem?-append_one [] s u (suc q) e = inr e
get_elem?-append_one (x ∷ l) s u zero e = inr e
get_elem?-append_one (x ∷ l) s u (suc q) e = elim (get_elem?-append_one l s u q e) [
  | inl (i, j) ↦ inl (ap suc i, j)
  | inr i ↦ inr i
]

-- A stream that is made with a channel that is made.
pub append-IsSound :
    (h : Heap) (s : UserDeviceStream)
    → IsSound h
    → s.signal_channel ≡ h.channels.next
    → IsSound (record {
      streams = h.streams ++ s ∷ [];
      channels = record { next = h.channels.next + 1; closed = h.channels.closed };
    })
unfolding IsSound IsOpen is_closed
append-IsSound h s (opened, own, all) e = (
  (λ q u f. elim (get_elem?-append_one h.streams s u q f) [
    | inl (_, j) ↦
        let c = sym (ap (λ w. w.signal_channel) j) ∙ e in
        (
          omega (arith, c),
          ground (arith, c, fresh_not_closed h.channels.next h.channels.closed all),
          bounded,
        )
    | inr g ↦ (omega (arith, (opened q u g).0), (opened q u g).1, bounded)
  ]),
  (λ q r u v f g k. elim (get_elem?-append_one h.streams s u q f) [
    | inl (i, j) ↦ elim (get_elem?-append_one h.streams s v r g) [
      | inl (i', _) ↦ i ∙ sym i'
      | inr g' ↦ omega (arith, (opened r v g').0, k, sym (ap (λ w. w.signal_channel) j) ∙ e)
    ]
    | inr f' ↦ elim (get_elem?-append_one h.streams s v r g) [
      | inl (_, j) ↦ omega (arith, (opened q u f').0, k, sym (ap (λ w. w.signal_channel) j) ∙ e)
      | inr g' ↦ own q r u v f' g' k
    ]
  ]),
  bounded,
)
  where
    bounded : All (λ c. c < h.channels.next + 1) h.channels.closed
    bounded = below_weaken h.channels.next h.channels.closed all
