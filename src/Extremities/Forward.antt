-- ===== src/Extremities/Forward.antt =====
-- What the new set of forward extremities holds
-- (roomserver/internal/input/input_latest_events.go).
use dendrite.Base.{
  ◌≡◌, refl, ap, ◌∙◌, Bool, true, false, ◌||◌, List, [], ◌∷◌, none, some, String, ◌==◌, String_eq,
  arith, if◌then◌else◌, inl, inr, Bool-cases, Option-cases,
}
use dendrite.Base.Map.{lookup}
use dendrite.Extremities.Latest.{
  StateAtEventAndReference, EventReference, PreviousEvents, Refs, id_of, is_some, is_referenced,
  existing_refs, existing_prevs, delete_all, values, calculate_latest,
}
use dendrite.Extremities.Valid.{
  last_with, extremity, lookup-existing_refs, existing_refs-IsKeyed, delete_all-IsKeyed,
  extremity-values, kept, lookup-valid, extremity-cons,
}

calculate_new :
    (t : PreviousEvents) (old : List StateAtEventAndReference) (event : EventReference)
    (prevs : List String) (new : StateAtEventAndReference)
    → last_with event.event_id old none ≡ none
    → is_referenced t event ≡ false
    → calculate_latest t old event prevs new ≡ (
      new
          ∷ values (
              delete_all
                (existing_prevs t (existing_refs old []))
                (delete_all prevs (existing_refs old []))),
      true,
    )
unfolding calculate_latest lookup
calculate_new t old event prevs new h k = rw (lookup-existing_refs event.event_id old [], h, k)

-- When the event is not among the old extremities and not referenced, the new set has the event
-- itself, and of the old extremities exactly those that the event does not name among its
-- previous events and that the table of previous events does not have.
pub calculate_latest-extremity :
    (t : PreviousEvents) (old : List StateAtEventAndReference) (event : EventReference)
    (prevs : List String) (new : StateAtEventAndReference) (id : String)
    → last_with event.event_id old none ≡ none
    → is_referenced t event ≡ false
    → id_of new ≡ event.event_id
    → let (latest, changed) = calculate_latest t old event prevs new in
      (changed ≡ true)
      × (extremity id latest
          ≡ (if event.event_id == id then some new else kept id t prevs (last_with id old none)))
calculate_latest-extremity t old event prevs new id h k e =
    let refs : Refs = existing_refs old [] in
    rw (calculate_new t old event prevs new h k) (
      refl,
      extremity-cons id event.event_id new _ e
          ∙ ap (λ o. if event.event_id == id then some new else o)
              (extremity-values id _ (
                  delete_all-IsKeyed (existing_prevs t refs) _
                    (delete_all-IsKeyed prevs refs (existing_refs-IsKeyed old [] tt)))
                ∙ lookup-valid id t prevs old),
    )

calculate_known :
    (t : PreviousEvents) (old : List StateAtEventAndReference) (event : EventReference)
    (prevs : List String) (new e : StateAtEventAndReference)
    → last_with event.event_id old none ≡ some e
    → calculate_latest t old event prevs new ≡ (old, false)
unfolding calculate_latest lookup
calculate_known t old event prevs new e h = rw (lookup-existing_refs event.event_id old [], h)

calculate_referenced :
    (t : PreviousEvents) (old : List StateAtEventAndReference) (event : EventReference)
    (prevs : List String) (new : StateAtEventAndReference)
    → is_referenced t event ≡ true
    → calculate_latest t old event prevs new ≡ (old, false)
unfolding calculate_latest
calculate_referenced t old event prevs new k =
    elim (Bool-cases (is_some (lookup event.event_id (existing_refs old [])))) [
      | inl e ↦ rw e refl
      | inr e ↦ rw (e, k) refl
    ]

calculate_latest-same :
    (t : PreviousEvents) (old : List StateAtEventAndReference) (event : EventReference)
    (prevs : List String) (new : StateAtEventAndReference)
    → (is_some (last_with event.event_id old none) || is_referenced t event) ≡ true
    → calculate_latest t old event prevs new ≡ (old, false)
calculate_latest-same t old event prevs new h =
    elim (Option-cases (last_with event.event_id old none)) [
      | inl e ↦ calculate_referenced t old event prevs new (ground (arith, e, h))
      | inr (f, e) ↦ calculate_known t old event prevs new f e
    ]

last_with-is_some :
    (id : String) (l : List StateAtEventAndReference) (e : StateAtEventAndReference)
    → is_some (last_with id l (some e)) ≡ true
last_with-is_some id [] e = refl
last_with-is_some id (f ∷ l) e = elim (Bool-cases (id_of f == id)) [
  | inl q ↦ rw q (last_with-is_some id l f)
  | inr q ↦ rw q (last_with-is_some id l e)
]

head_known :
    (id : String) (e : StateAtEventAndReference) (l : List StateAtEventAndReference)
    → id_of e ≡ id
    → is_some (last_with id (e ∷ l) none) ≡ true
head_known id e l h = rw ((String_eq.beq_iff (id_of e) id).1 h) (last_with-is_some id l e)

again :
    (t : PreviousEvents) (event : EventReference) (prevs : List String)
    (new : StateAtEventAndReference) (r : List StateAtEventAndReference × Bool)
    → (is_some (last_with event.event_id r.0 none) || is_referenced t event) ≡ true
    → calculate_latest t r.0 event prevs new ≡ (r.0, false)
again t event prevs new r h = calculate_latest-same t r.0 event prevs new h

-- The same event a second time, with the same table of previous events, leaves the extremities as
-- the first time left them, and is reported as no change.
pub calculate_latest-calculate_latest :
    (t : PreviousEvents) (old : List StateAtEventAndReference) (event : EventReference)
    (prevs : List String) (new : StateAtEventAndReference)
    → id_of new ≡ event.event_id
    → let (latest, changed) = calculate_latest t old event prevs new in
      calculate_latest t latest event prevs new ≡ (latest, false)
calculate_latest-calculate_latest t old event prevs new e =
    elim (Bool-cases (is_some (last_with event.event_id old none) || is_referenced t event)) [
      | inl known ↦ again t event prevs new (calculate_latest t old event prevs new) (
          ap (λ r. is_some (last_with event.event_id r.0 none) || is_referenced t event)
            (calculate_latest-same t old event prevs new known)
          ∙ known)
      | inr fresh ↦ again t event prevs new (calculate_latest t old event prevs new) (
          ap (λ r. is_some (last_with event.event_id r.0 none) || is_referenced t event)
            (calculate_new t old event prevs new (not_known fresh) (not_referenced fresh))
          ∙ ap (λ b. b || is_referenced t event)
              (head_known event.event_id new (valid (existing_refs old [])) e))
    ]
  where
    valid : Refs → List StateAtEventAndReference
    valid refs = values (delete_all (existing_prevs t refs) (delete_all prevs refs))

    not_known :
        (is_some (last_with event.event_id old none) || is_referenced t event) ≡ false
        → last_with event.event_id old none ≡ none
    not_known h = ground (arith, h)

    not_referenced :
        (is_some (last_with event.event_id old none) || is_referenced t event) ≡ false
        → is_referenced t event ≡ false
    not_referenced h = ground (arith, h)
