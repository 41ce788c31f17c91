-- ===== src/Sync/Notifier/Cleanup.antt =====
-- What the clean-up of the notifier keeps (syncapi/notifier/notifier.go).
use dendrite.Base.{
  ℕ, ◌+◌, ◌*◌, ◌^◌, ltb, then_branch, else_branch, ◌<◌, ◌≡◌, refl, ap, sym, subst, ◌∙◌, Bool, false,
  [], ◌∷◌, Option, none, some, some_inj, String, String_eq, ◌==◌, get_elem?, arith, if◌then◌else◌,
  Bool-cases, Option-cases, inl, inr,
}
use dendrite.Base.Map.{Map, lookup}
use dendrite.Sync.UserStream.{UserDeviceStream, time_of_last_non_empty}
use dendrite.Sync.Streams.{Heap}
use dendrite.Sync.Notifier.{
  Notifier, is_nil, is_stale, kept_devices, kept_users, remove_empty_user_streams,
  find_user_device_stream,
}

-- Somebody waits on the stream of a pointer.
abbrev pub IsWaiting : Heap → ℕ → UserDeviceStream → Type 0
IsWaiting h p s = (get_elem? h.streams p ≡ some s) × (0 < s.num_waiting)

waiting_not_stale :
    (now : ℕ) (h : Heap) (p : ℕ) (s : UserDeviceStream) → IsWaiting h p s → is_stale now h p ≡ false
unfolding is_stale time_of_last_non_empty
waiting_not_stale now h p s (e, w) =
    ap
      (λ o. elim o [
        | none ↦ false
        | some s ↦ ltb (time_of_last_non_empty now s + 5 * 60 * 10 ^ 9) now
      ])
      e
    ∙ ground (arith, w)

lookup-kept_devices :
    (now : ℕ) (h : Heap) (device : String) (p : ℕ) (m : Map String ℕ)
    → is_stale now h p ≡ false
    → lookup device m ≡ some p
    → lookup device (kept_devices now h m) ≡ some p
unfolding lookup kept_devices
lookup-kept_devices now h device p [] k e = e
lookup-kept_devices now h device p ((d, q) ∷ rest) k e =
    ground (arith, k, e, lookup-kept_devices now h device p rest k)

absurd_none {ℓ} : {A : Type ℓ} {a : A} → ◌≡◌ {A = Option A} none (some a) → ⊥
absurd_none e = cc

-- The pointer of a device among those of its user.
abbrev at_device : String → Option (Map String ℕ) → Option ℕ
at_device device none = none
at_device device (some devices) = lookup device devices

found_not_nil :
    (device : String) (p : ℕ) (m : Map String ℕ) → lookup device m ≡ some p → is_nil m ≡ false
unfolding lookup
found_not_nil device p [] e = cc
found_not_nil device p (d ∷ rest) e = refl

-- A user with a device that is kept is kept.
lookup-kept_users :
    (now : ℕ) (h : Heap) (user device : String) (p : ℕ) (devices : Map String ℕ)
    (m : Map String (Map String ℕ))
    → is_stale now h p ≡ false
    → lookup device devices ≡ some p
    → lookup user m ≡ some devices
    → lookup user (kept_users now h m) ≡ some (kept_devices now h devices)
unfolding lookup kept_users
lookup-kept_users now h user device p devices [] k e f = cc
lookup-kept_users now h user device p devices ((u, ds) ∷ rest) k e f =
    elim (Bool-cases (u == user)) [
      | inl same ↦
          subst
            (λ x.
              lookup user (kept_users now h ((u, x) ∷ rest)) ≡ some (kept_devices now h devices))
            (sym (some_inj (then_branch (u == user) (lookup user rest) same f)))
            (ground (
              arith,
              same,
              found_not_nil device p (kept_devices now h devices)
                  (lookup-kept_devices now h device p devices k e),
            ))
      | inr other ↦
          let g = else_branch (u == user) (some ds) other f in
          ground (arith, other, lookup-kept_users now h user device p devices rest k e g)
    ]

pub find_same :
    (m n : Notifier) (user device : String)
    → m.user_device_streams ≡ n.user_device_streams
    → find_user_device_stream m user device ≡ find_user_device_stream n user device
unfolding find_user_device_stream
find_same m n user device e = ap (λ s. at_device device (lookup user s)) e

pub find_inv :
    (n : Notifier) (user device : String) (p : ℕ)
    → find_user_device_stream n user device ≡ some p
    → (devices : Map String ℕ) × (lookup user n.user_device_streams ≡ some devices)
      × (lookup device devices ≡ some p)
unfolding find_user_device_stream
find_inv n user device p e = elim (Option-cases (lookup user n.user_device_streams)) [
  | inl f ↦ elim (absurd_none (sym (ap (at_device device) f) ∙ e)) [ ]
  | inr (devices, f) ↦ (devices, f, sym (ap (at_device device) f) ∙ e)
]

abbrev pub cleaned : ℕ → Notifier → Bool → Notifier
cleaned now n early = if early then n else record n {
  last_clean_up_time = now;
  user_device_streams = kept_users now n.heap n.user_device_streams;
}

-- The clean-up keeps the stream of a device on which somebody waits.
pub find-remove_empty_user_streams :
    (now : ℕ) (n : Notifier) (user device : String) (p : ℕ) (s : UserDeviceStream)
    → find_user_device_stream n user device ≡ some p
    → IsWaiting n.heap p s
    → find_user_device_stream (remove_empty_user_streams now n) user device ≡ some p
unfolding find_user_device_stream remove_empty_user_streams
find-remove_empty_user_streams now n user device p s e w =
    let (devices, f, g) = find_inv n user device p e in
    let fresh = waiting_not_stale now n.heap p s w in
    elim (Bool-cases (ltb now (n.last_clean_up_time + 60 * 10 ^ 9))) [
      | inl early ↦ ap (λ b. find_user_device_stream (cleaned now n b) user device) early ∙ e
      | inr late ↦
          ap (λ b. find_user_device_stream (cleaned now n b) user device) late
          ∙ ap (at_device device)
              (lookup-kept_users now n.heap user device p devices n.user_device_streams fresh g f)
          ∙ lookup-kept_devices now n.heap device p devices fresh g
    ]
