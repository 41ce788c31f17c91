-- ===== src/Federation/Stored.antt =====
-- What stays in the tables of waiting PDUs (federationsender/storage/shared/storage_pdus.go).
use dendrite.Base.{
  ℕ, ◌≡◌, refl, ap, ◌∙◌, Bool, true, false, List, [], ◌∷◌, ◌++◌, some, String, String_eq, ℕ_eq,
  ◌==◌, ◌&&◌, arith, inl, inr, Bool-cases,
}
use dendrite.Base.Map.{Map, lookup, lookup-delete}
use dendrite.Federation.Store.{
  Store, has_row, among, associate, unreferenced, delete_rows, delete_unreferenced, clean,
}

has_row-append :
    (server : String) (nid : ℕ) (rows more : List (String × ℕ))
    → has_row server nid rows ≡ true
    → has_row server nid (rows ++ more) ≡ true
unfolding has_row
has_row-append server nid [] more h = ground (arith, h)
has_row-append server nid (r ∷ rows) more h = ground (arith, h, has_row-append server nid rows more)

has_row-delete_rows :
    (server : String) (nid : ℕ) (nids : List ℕ) (rows : List (String × ℕ))
    → among nid nids ≡ false
    → has_row server nid rows ≡ true
    → has_row server nid (delete_rows server nids rows) ≡ true
unfolding has_row delete_rows
has_row-delete_rows server nid nids [] a h = h
has_row-delete_rows server nid nids ((s, n) ∷ rows) a h = ground (
  arith,
  a,
  h,
  ap (λ k. among k nids) {x = n} {y = nid},
  has_row-delete_rows server nid nids rows a,
)

referenced :
    (server : String) (nid : ℕ) (rows : List (String × ℕ))
    → has_row server nid rows ≡ true
    → unreferenced nid rows ≡ false
unfolding has_row
referenced server nid [] h = ground (arith, h)
referenced server nid ((s, n) ∷ rows) h = ground (arith, h, referenced server nid rows)

lookup-delete_unreferenced :
    {P : Type 0} (rows : List (String × ℕ)) (server : String) (nid : ℕ) (nids : List ℕ)
    (json : Map ℕ P)
    → has_row server nid rows ≡ true
    → lookup nid (delete_unreferenced rows nids json) ≡ lookup nid json
unfolding delete_unreferenced
lookup-delete_unreferenced rows server nid [] json h = refl
lookup-delete_unreferenced rows server nid (n ∷ nids) json h =
    let rest = delete_unreferenced rows nids json in
    let ih = lookup-delete_unreferenced rows server nid nids json h in
    elim (Bool-cases (unreferenced n rows)) [
      | inl e ↦ rw e (
          lookup-delete n nid rest
          ∙ ground (
            arith,
            ih,
            e,
            referenced server nid rows h,
            ap (λ k. unreferenced k rows) {x = n} {y = nid},
          ))
      | inr e ↦ rw e ih
    ]

gone :
    (s other server : String) (b : Bool)
    → ((s == other) && b) ≡ true
    → (other == server) ≡ false
    → (s == server) ≡ false
gone s other server b e d =
    let same : (s == other) ≡ true = ground (arith, e) in
    ap (λ x. x == server) ((String_eq.beq_iff s other).0 same) ∙ d

has_row-delete_others :
    (server other : String) (nid : ℕ) (nids : List ℕ) (rows : List (String × ℕ))
    → (other == server) ≡ false
    → has_row server nid rows ≡ true
    → has_row server nid (delete_rows other nids rows) ≡ true
unfolding has_row delete_rows
has_row-delete_others server other nid nids [] d h = h
has_row-delete_others server other nid nids ((s, n) ∷ rows) d h =
    elim (Bool-cases ((s == other) && among n nids)) [
      | inl e ↦ rw e (
          has_row-delete_others server other nid nids rows d
            (ground (arith, h, gone s other server (among n nids) e d)))
      | inr e ↦ rw e (ground (arith, h, has_row-delete_others server other nid nids rows d))
    ]

module _ {P : Type 0} where
  -- The row of a server for a payload is there, with its payload.
  abbrev pub IsStored : String → ℕ → P → Store P → Type 0
  IsStored server nid p s = (has_row server nid s.rows ≡ true) × (lookup nid s.json ≡ some p)

  pub associate-IsStored :
      (server : String) (nid : ℕ) (p : P) (other : String) (n : ℕ) (s : Store P)
      → IsStored server nid p s
      → IsStored server nid p (associate other n s).0
  unfolding associate
  associate-IsStored server nid p other n s h = elim (Bool-cases (has_row other n s.rows)) [
    | inl e ↦ rw e h
    | inr e ↦ rw e (has_row-append server nid s.rows ((other, n) ∷ []) h.0, h.1)
  ]

  pub clean-IsStored :
      (server : String) (nid : ℕ) (p : P) (nids : List ℕ) (s : Store P)
      → among nid nids ≡ false
      → IsStored server nid p s
      → IsStored server nid p (clean server nids s)
  unfolding clean
  clean-IsStored server nid p [] s a h = h
  clean-IsStored server nid p (n ∷ nids) s a h =
      let kept = has_row-delete_rows server nid (n ∷ nids) s.rows a h.0 in
      (
        kept,
        lookup-delete_unreferenced (delete_rows server (n ∷ nids) s.rows) server nid (n ∷ nids)
              s.json kept
            ∙ h.1,
      )

  -- The clean-up of another server deletes no payload that this one still refers to.
  pub clean_other-IsStored :
      (server other : String) (nid : ℕ) (p : P) (nids : List ℕ) (s : Store P)
      → (other == server) ≡ false
      → IsStored server nid p s
      → IsStored server nid p (clean other nids s)
  unfolding clean
  clean_other-IsStored server other nid p [] s d h = h
  clean_other-IsStored server other nid p (n ∷ nids) s d h =
      let kept = has_row-delete_others server other nid (n ∷ nids) s.rows d h.0 in
      (
        kept,
        lookup-delete_unreferenced (delete_rows other (n ∷ nids) s.rows) server nid (n ∷ nids)
              s.json kept
            ∙ h.1,
      )
