-- ===== src/Backfill/Weight.antt =====
-- What does not grow in a round of `ScanEventTree` (roomserver/internal/helpers/helpers.go).
use dendrite.Base.{
  ℕ, suc, ◌+◌, ◌≤◌, ◌≡◌, Bool, true, false, not, List, [], ◌∷◌, Option, none, some, arith, String,
  String_eq, ◌==◌, Result, err, ok, ◌>>=◌, keep, length, length-append, All, inl, inr, Bool-cases,
  subst, sym,
}
use dendrite.Backfill.Scan.{Event, Walk, seen, Returned, note}

-- How many of the IDs have not been visited.
abbrev pub unseen : List String → List String → ℕ
unseen ids visited = length (keep (λ x. not (seen visited x)) ids)

unseen-more :
    (ids visited : List String) (pre : String) → unseen ids (pre ∷ visited) ≤ unseen ids visited
unseen-more [] visited pre = omega arith
unseen-more (x ∷ ids) visited pre = ground (arith, unseen-more ids visited pre)

pub unseen-less :
    (ids visited : List String) (pre : String)
    → seen ids pre ≡ true
    → seen visited pre ≡ false
    → suc (unseen ids (pre ∷ visited)) ≤ unseen ids visited
unseen-less [] visited pre h k = ground (arith, h)
unseen-less (x ∷ ids) visited pre h k = elim (Bool-cases (x == pre)) [
  | inl e ↦
      let same : x ≡ pre = (String_eq.beq_iff x pre).0 e in
      let before : seen visited x ≡ false = subst (λ y. seen visited y ≡ false) (sym same) k in
      let after : (pre == x) ≡ true = (String_eq.beq_iff pre x).1 (sym same) in
      rw (before, after) (ground (arith, unseen-more ids visited pre))
  | inr e ↦ ground (
    arith,
    e,
    h,
    unseen-less ids visited pre (ground (arith, e, h)) k,
    unseen-more ids visited pre,
  )
]

-- What the loops of a round do not let grow.
abbrev pub weight : List String → Walk → ℕ
weight ids w = unseen ids w.visited + length w.next

-- The IDs have all the parents of the event.
abbrev pub HasParents : List String → Event → Type 0
HasParents ids ev = All (λ pre. seen ids pre ≡ true) ev.prev_event_ids

abbrev pub KnowsParents : List String → (List String → Option (List Event)) → Type 0
KnowsParents ids events_from_ids =
    (asked : List String) (events : List Event)
    → events_from_ids asked ≡ some events
    → All (HasParents ids) events

abbrev pub KeepsWeight : List String → ℕ → Result Returned Walk → Type 0
KeepsWeight ids n (err r) = Unit
KeepsWeight ids n (ok w) = weight ids w ≤ n

pub note-KeepsWeight :
    (ids : List String) (pre : String) (w : Walk) (n : ℕ) (answer : Option Bool)
    → suc (weight ids w) ≤ n
    → KeepsWeight ids n (note pre w answer)
note-KeepsWeight ids pre w n none h = tt
note-KeepsWeight ids pre w n (some true) h = omega (arith, h, length-append w.next (pre ∷ []))
note-KeepsWeight ids pre w n (some false) h = omega (arith, h)

pub bind-KeepsWeight :
    (ids : List String) (n : ℕ) (r : Result Returned Walk) (f : Walk → Result Returned Walk)
    → KeepsWeight ids n r
    → ((w : Walk) → weight ids w ≤ n → KeepsWeight ids n (f w))
    → KeepsWeight ids n (r >>= f)
bind-KeepsWeight ids n (err x) f h g = tt
bind-KeepsWeight ids n (ok w) f h g = g w h
