-- ===== src/Backfill/Holds.antt =====
-- Predicates on the variables of `ScanEventTree` (roomserver/internal/helpers/helpers.go).
use dendrite.Base.{
  ◌≡◌, true, List, [], ◌∷◌, ◌++◌, Option, some, arith, String, String_eq, ◌==◌, Result, err, ok,
  ◌>>=◌, All, inl, inr, Bool-cases, subst,
}
use dendrite.Backfill.Scan.{Event, Walk, seen, Returned}

-- The events that the database returns have IDs that it was asked for.
abbrev pub AnswersAsked : (List String → Option (List Event)) → Type 0
AnswersAsked events_from_ids =
    (asked : List String) (events : List Event)
    → events_from_ids asked ≡ some events
    → All (λ ev. seen asked ev.event_id ≡ true) events

pub All-append {ℓ κ} :
    {A : Type ℓ} (P : A → Type κ) (l : List A) (a : A) → All P l → P a → All P (l ++ (a ∷ []))
All-append P [] a h k = (k, tt)
All-append P (x ∷ l) a h k = (h.0, All-append P l a h.1 k)

pub All-seen :
    (P : String → Type 0) (ids : List String) (id : String) → All P ids → seen ids id ≡ true → P id
All-seen P [] id h k = ground (arith, k)
All-seen P (x ∷ ids) id h k = elim (Bool-cases (x == id)) [
  | inl e ↦ subst P ((String_eq.beq_iff x id).0 e) h.0
  | inr e ↦ All-seen P ids id h.1 (ground (arith, e, k))
]

abbrev pub Holds : (Walk → Type 0) → Result Returned Walk → Type 0
Holds P (err r) = P r.0
Holds P (ok w) = P w

pub bind-Holds :
    (P : Walk → Type 0) (r : Result Returned Walk) (f : Walk → Result Returned Walk)
    → Holds P r
    → ((w : Walk) → P w → Holds P (f w))
    → Holds P (r >>= f)
bind-Holds P (err r) f h g = h
bind-Holds P (ok w) f h g = g w h

pub some_inj : {A : Type 0} {x y : A} → some x ≡ some y → x ≡ y
some_inj e = cc
