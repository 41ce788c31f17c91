-- ===== src/Extremities/Valid.antt =====
-- The maps of `calculateLatest` (roomserver/internal/input/input_latest_events.go).
use dendrite.Base.{
  ◌≡◌, refl, sym, ap, ◌∙◌, Bool, false, ◌||◌, List, [], ◌∷◌, Option, none, some, String, ◌==◌,
  String_eq, any, arith, if◌then◌else◌, inl, inr, Bool-cases, All,
}
use dendrite.Base.Map.{lookup, insert, delete, lookup-insert, lookup-delete}
use dendrite.Extremities.Latest.{
  StateAtEventAndReference, PreviousEvents, Refs, id_of, is_referenced, existing_refs,
  existing_prevs, delete_all, values,
}

-- The last entry for an event in a list of extremities, or what is given.
abbrev pub last_with :
    String
    → List StateAtEventAndReference
    → Option StateAtEventAndReference
    → Option StateAtEventAndReference
last_with id [] o = o
last_with id (e ∷ l) o = last_with id l (if id_of e == id then some e else o)

-- The first entry for an event.
abbrev pub extremity : String → List StateAtEventAndReference → Option StateAtEventAndReference
extremity id [] = none
extremity id (e ∷ l) = if id_of e == id then some e else extremity id l

abbrev pub mentions : String → List String → Bool
mentions id = any (λ j. j == id)

-- Every entry stands under its own event ID.
abbrev IsKeyed : Refs → Type 0
IsKeyed = All (λ p. p.0 ≡ id_of p.1)

pub lookup-existing_refs :
    (id : String) (l : List StateAtEventAndReference) (m : Refs)
    → lookup id (existing_refs l m) ≡ last_with id l (lookup id m)
unfolding existing_refs
lookup-existing_refs id [] m = refl
lookup-existing_refs id (e ∷ l) m =
    lookup-existing_refs id l (insert (id_of e) e m)
    ∙ ap (last_with id l) (lookup-insert (id_of e) id e m)

insert-IsKeyed :
    (e : StateAtEventAndReference) (m : Refs) → IsKeyed m → IsKeyed (insert (id_of e) e m)
unfolding insert
insert-IsKeyed e [] h = (refl, tt)
insert-IsKeyed e ((j, f) ∷ m) h = elim (Bool-cases (j == id_of e)) [
  | inl q ↦ rw q (refl, h.1)
  | inr q ↦ rw q (h.0, insert-IsKeyed e m h.1)
]

pub existing_refs-IsKeyed :
    (l : List StateAtEventAndReference) (m : Refs) → IsKeyed m → IsKeyed (existing_refs l m)
unfolding existing_refs
existing_refs-IsKeyed [] m h = h
existing_refs-IsKeyed (e ∷ l) m h =
    existing_refs-IsKeyed l (insert (id_of e) e m) (insert-IsKeyed e m h)

delete-IsKeyed : (id : String) (m : Refs) → IsKeyed m → IsKeyed (delete id m)
unfolding delete
delete-IsKeyed id [] h = tt
delete-IsKeyed id ((j, f) ∷ m) h = elim (Bool-cases (j == id)) [
  | inl q ↦ rw q (delete-IsKeyed id m h.1)
  | inr q ↦ rw q (h.0, delete-IsKeyed id m h.1)
]

pub delete_all-IsKeyed : (ids : List String) (m : Refs) → IsKeyed m → IsKeyed (delete_all ids m)
unfolding delete_all
delete_all-IsKeyed [] m h = h
delete_all-IsKeyed (id ∷ ids) m h = delete_all-IsKeyed ids (delete id m) (delete-IsKeyed id m h)

lookup-delete_all :
    (id : String) (ids : List String) (m : Refs)
    → lookup id (delete_all ids m) ≡ (if mentions id ids then none else lookup id m)
unfolding delete_all
lookup-delete_all id [] m = refl
lookup-delete_all id (j ∷ ids) m =
    lookup-delete_all id ids (delete j m) ∙ ground (arith, lookup-delete j id m)

pub extremity-values : (id : String) (m : Refs) → IsKeyed m → extremity id (values m) ≡ lookup id m
unfolding values lookup
extremity-values id [] h = refl
extremity-values id ((j, f) ∷ m) h = ground (arith, h.0, extremity-values id m h.1)

-- Whether an entry that may be there is referenced.
abbrev pub referenced : PreviousEvents → Option StateAtEventAndReference → Bool
referenced t none = false
referenced t (some e) = is_referenced t e.event_reference

-- No event has two entries.
abbrev IsUnique : Refs → Type 0
IsUnique [] = Unit
IsUnique ((j, f) ∷ m) = (lookup j m ≡ none) × IsUnique m

insert-IsUnique :
    (k : String) (e : StateAtEventAndReference) (m : Refs) → IsUnique m → IsUnique (insert k e m)
unfolding insert
insert-IsUnique k e [] h = (unfold lookup in refl, tt)
insert-IsUnique k e ((j, f) ∷ m) h = elim (Bool-cases (j == k)) [
  | inl q ↦ rw q (ap (λ i. lookup i m) (sym ((String_eq.beq_iff j k).0 q)) ∙ h.0, h.1)
  | inr q ↦ rw q (
    lookup-insert k j e m ∙ ground (arith, q, h.0, String_eq.beq_iff k j, String_eq.beq_iff j k),
    insert-IsUnique k e m h.1,
  )
]

existing_refs-IsUnique :
    (l : List StateAtEventAndReference) (m : Refs) → IsUnique m → IsUnique (existing_refs l m)
unfolding existing_refs
existing_refs-IsUnique [] m h = h
existing_refs-IsUnique (e ∷ l) m h =
    existing_refs-IsUnique l (insert (id_of e) e m) (insert-IsUnique (id_of e) e m h)

mentions-existing_prevs :
    (id : String) (t : PreviousEvents) (m : Refs)
    → IsKeyed m
    → IsUnique m
    → mentions id (existing_prevs t m) ≡ referenced t (lookup id m)
unfolding existing_prevs lookup
mentions-existing_prevs id t [] k u = refl
mentions-existing_prevs id t ((j, f) ∷ m) k u = ground (
  arith,
  k.0,
  u.0,
  ap (λ i. lookup i m),
  String_eq.beq_iff j id,
  mentions-existing_prevs id t m k.1 u.1,
)

abbrev pub kept :
    String
    → PreviousEvents
    → List String
    → Option StateAtEventAndReference
    → Option StateAtEventAndReference
kept id t prevs o = if mentions id prevs || referenced t o then none else o

pub lookup-valid :
    (id : String) (t : PreviousEvents) (prevs : List String) (l : List StateAtEventAndReference)
    → let refs = existing_refs l [] in
      lookup id (delete_all (existing_prevs t refs) (delete_all prevs refs))
      ≡ kept id t prevs (last_with id l none)
lookup-valid id t prevs l =
    let refs : Refs = existing_refs l [] in
    let found : lookup id refs ≡ last_with id l none =
      unfold lookup in lookup-existing_refs id l [] in
    lookup-delete_all id (existing_prevs t refs) (delete_all prevs refs)
    ∙ ground (
      arith,
      lookup-delete_all id prevs refs,
      mentions-existing_prevs id t refs (existing_refs-IsKeyed l [] tt)
          (existing_refs-IsUnique l [] tt),
      found,
    )

pub extremity-cons :
    (id new_id : String) (e : StateAtEventAndReference) (l : List StateAtEventAndReference)
    → id_of e ≡ new_id
    → extremity id (e ∷ l) ≡ (if new_id == id then some e else extremity id l)
extremity-cons id new_id e l h = ap (λ i. if i == id then some e else extremity id l) h
