-- ===== src/RoomState/Difference.antt =====
-- The comparison of two snapshots in `DifferenceBetweeenStateSnapshots` (roomserver/state/state.go).
use dendrite.Base.{
  ◌≡◌, refl, sym, ap, ◌∙◌, Bool, true, false, not, List, [], ◌∷◌, arith, if◌then◌else◌, All, inl,
  inr, Bool-cases, keep, any,
}
use dendrite.Base.Sort.{All-imp}
use dendrite.RoomState.Entries.{StateEntry, entry_eq, entry_less, IsAscending}

pub record Changes : Type 0 where
  pub removed : List StateEntry
  pub added : List StateEntry

abbrev removing : StateEntry → Changes → Changes
removing e c = record c { removed = e ∷ c.removed }

abbrev adding : StateEntry → Changes → Changes
adding e c = record c { added = e ∷ c.added }

-- The loop over the rest of the old and of the new entries.
unfoldable pub merge : List StateEntry → List StateEntry → Changes
merge [] new = record { removed = []; added = new }
merge (o ∷ old) [] = record { removed = o ∷ old; added = [] }
merge (o ∷ old) (n ∷ new) =
    let both = merge old new in
    let gone = removing o (merge old (n ∷ new)) in
    let fresh = adding n (merge (o ∷ old) new) in
    if entry_eq o n then both else if entry_less o n then gone else fresh

abbrev pub contains : StateEntry → List StateEntry → Bool
contains e = any (λ x. entry_eq x e)

-- The entries of the first list that the second does not have.
abbrev pub missing : List StateEntry → List StateEntry → List StateEntry
missing l m = keep (λ e. not (contains e m)) l

not_contains :
    (e : StateEntry) (l : List StateEntry)
    → All (λ x. entry_less e x ≡ true) l
    → contains e l ≡ false
not_contains e [] h = refl
not_contains e (x ∷ l) h = ground (arith, not_contains e l h.1, h.0)

missing-cons :
    (n : StateEntry) (l new : List StateEntry)
    → All (λ x. entry_less n x ≡ true) l
    → missing l (n ∷ new) ≡ missing l new
missing-cons n [] new h = refl
missing-cons n (x ∷ l) new h = ground (arith, missing-cons n l new h.1, h.0)

missing-nil : (l : List StateEntry) → missing l [] ≡ l
missing-nil [] = refl
missing-nil (x ∷ l) = ap (◌∷◌ x) (missing-nil l)

less_than-All :
    (o n : StateEntry) (l : List StateEntry)
    → entry_less o n ≡ true
    → All (λ x. entry_less n x ≡ true) l
    → All (λ x. entry_less o x ≡ true) l
less_than-All o n l h = All-imp (λ x k. ground arith) l

missing-drop :
    (o : StateEntry) (old m : List StateEntry)
    → contains o m ≡ true
    → missing (o ∷ old) m ≡ missing old m
missing-drop o old m h = rw h

missing-keep :
    (o : StateEntry) (old m : List StateEntry)
    → contains o m ≡ false
    → missing (o ∷ old) m ≡ o ∷ missing old m
missing-keep o old m h = rw h

merge_both :
    (o n : StateEntry) (old new : List StateEntry)
    → entry_eq o n ≡ true
    → merge (o ∷ old) (n ∷ new) ≡ merge old new
unfolding merge
merge_both o n old new e = rw e

merge_gone :
    (o n : StateEntry) (old new : List StateEntry)
    → entry_eq o n ≡ false
    → entry_less o n ≡ true
    → merge (o ∷ old) (n ∷ new) ≡ removing o (merge old (n ∷ new))
unfolding merge
merge_gone o n old new e l = rw (e, l)

merge_fresh :
    (o n : StateEntry) (old new : List StateEntry)
    → entry_eq o n ≡ false
    → entry_less o n ≡ false
    → merge (o ∷ old) (n ∷ new) ≡ adding n (merge (o ∷ old) new)
unfolding merge
merge_fresh o n old new e l = rw (e, l)

changes_eq :
    {r s a b : List StateEntry}
    → r ≡ s
    → a ≡ b
    → ◌≡◌ {A = Changes} (record { removed = r; added = a }) (record { removed = s; added = b })
changes_eq p q = λ i. record { removed = p i; added = q i }

eq_less : (o n x : StateEntry) → entry_eq o n ≡ true → entry_less o x ≡ true → entry_less n x ≡ true
eq_less o n x e h = ground arith

not_eq_not_less :
    (o n : StateEntry) → entry_eq o n ≡ false → entry_less o n ≡ false → entry_less n o ≡ true
not_eq_not_less o n e h = ground arith

contains_head :
    (o n : StateEntry) (l : List StateEntry) → entry_eq o n ≡ true → contains n (o ∷ l) ≡ true
contains_head o n l e = rw e

entry_eq_sym : (o n : StateEntry) → entry_eq o n ≡ true → entry_eq n o ≡ true
entry_eq_sym o n e = ground arith

-- On ascending lists the loop of `DifferenceBetweeenStateSnapshots` finds exactly the entries
-- of the old list that are not in the new one, and the entries of the new list that are not in
-- the old one, both in order.
pub merge-missing :
    (old new : List StateEntry)
    → IsAscending old
    → IsAscending new
    → merge old new ≡ record { removed = missing old new; added = missing new old }
unfolding merge
merge-missing [] new ho hn = ground (arith, missing-nil new)
merge-missing (o ∷ old) [] ho hn = ground (arith, missing-nil old)
merge-missing (o ∷ old) (n ∷ new) ho hn = elim (Bool-cases (entry_eq o n)) [
  | inl e ↦
      merge_both o n old new e
      ∙ merge-missing old new ho.1 hn.1
      ∙ changes_eq
          (sym (
            missing-drop o old (n ∷ new) (contains_head n o new (entry_eq_sym o n e))
            ∙ missing-cons n old new (All-imp (λ x. eq_less o n x e) old ho.0)))
          (sym (
            missing-drop n new (o ∷ old) (contains_head o n old e)
            ∙ missing-cons o new old (All-imp (λ x. eq_less n o x (entry_eq_sym o n e)) new hn.0)))
  | inr e ↦ elim (Bool-cases (entry_less o n)) [
    | inl l ↦
        merge_gone o n old new e l
        ∙ ap (removing o) (merge-missing old (n ∷ new) ho.1 hn)
        ∙ changes_eq
            (sym (
              missing-keep o old (n ∷ new)
                (not_contains o (n ∷ new) (l, less_than-All o n new l hn.0))))
            (sym (missing-cons o (n ∷ new) old (l, less_than-All o n new l hn.0)))
    | inr l ↦
        let below = not_eq_not_less o n e l in
        merge_fresh o n old new e l
        ∙ ap (adding n) (merge-missing (o ∷ old) new ho hn.1)
        ∙ changes_eq (sym (missing-cons n (o ∷ old) new (below, less_than-All n o old below ho.0)))
            (sym (
              missing-keep n new (o ∷ old)
                (not_contains n (o ∷ old) (below, less_than-All n o old below ho.0))))
  ]
]
