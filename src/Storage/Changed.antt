-- ===== src/Storage/Changed.antt =====
-- `DifferenceBetweeenStateSnapshots` (roomserver/state/state.go) on the tables.
use dendrite.Base.{
  ℕ, ◌≡◌, sym, ap, ◌∙◌, subst, List, [], ◌∷◌, some, arith, nat_eq, nat_eq_iff, ◌⊎◌, inl, inr,
  Bool-cases, Option-cases, Result, err, ok, >>=-eq-ok, ok_inj, then_branch, else_branch,
}
use dendrite.RoomState.Entries.{StateEntry, HasUniqueKeys, HasUniqueKeys-IsAscending}
use dendrite.RoomState.Difference.{Changes, missing, merge-missing}
use dendrite.RoomState.Lookup.{StateBlockNidList, StateEntryList}
use dendrite.RoomState.Load.{and_then, gather, clobber, load_state_at_snapshot}
use dendrite.RoomState.Combined.{IsUnique, clobber-last_event}
use dendrite.Storage.Tables.{Tables, Failure, panicked, Outside}
use dendrite.Storage.Add.{state_block_nids, state_entries}
use dendrite.Storage.Calculate.{
  or_panic, load_from, load_snapshot, load_unless_zero, difference_between_state_snapshots,
}

module _ (o : Outside) (documented : IsUnique o.unique_by_key) where
  clobbered :
      (entries : List StateEntryList) (nids : List ℕ) (state : List StateEntry)
      → or_panic (load_state_at_snapshot o.unique_by_key entries nids) ≡ ok state
      → HasUniqueKeys state
  unfolding load_state_at_snapshot
  clobbered entries nids state e = elim (Option-cases (gather entries nids)) [
    | inl n ↦
        let wrong : ◌≡◌ {A = Result Failure (List StateEntry)} (err panicked) (ok state) =
          sym (ap (λ g. or_panic (and_then g λ full. some (clobber o.unique_by_key full))) n) ∙ e in
        ground (arith, wrong)
    | inr (full, n) ↦
        let it : clobber o.unique_by_key full ≡ state =
          ok_inj
            (sym (ap (λ g. or_panic (and_then g λ f. some (clobber o.unique_by_key f))) n) ∙ e) in
        subst HasUniqueKeys it (clobber-last_event o.unique_by_key documented full).0
  ]

  load_snapshot-HasUniqueKeys :
      (t : Tables) (nid : ℕ) (state : List StateEntry)
      → load_snapshot o t nid ≡ ok state
      → HasUniqueKeys state
  unfolding load_snapshot
  load_snapshot-HasUniqueKeys t nid state e =
      let lists = >>=-eq-ok (state_block_nids t (nid ∷ [])) (load_from o t) e in
      from_lists lists.0 lists.2
    where
      from_lists : (l : List StateBlockNidList) → load_from o t l ≡ ok state → HasUniqueKeys state
      from_lists [] h = ground (arith, h)
      from_lists (list ∷ l) h =
          let entries =
            >>=-eq-ok (state_entries o t list.state_block_nids)
              (λ x. or_panic (load_state_at_snapshot o.unique_by_key x list.state_block_nids)) h in
          clobbered entries.0 list.state_block_nids state entries.2

  load_unless_zero-HasUniqueKeys :
      (t : Tables) (nid : ℕ) (state : List StateEntry)
      → load_unless_zero o t nid ≡ ok state
      → HasUniqueKeys state
  load_unless_zero-HasUniqueKeys t nid state e = elim (Bool-cases (nat_eq nid 0)) [
    | inl z ↦ subst HasUniqueKeys (ok_inj (then_branch _ _ z e)) tt
    | inr z ↦ load_snapshot-HasUniqueKeys t nid state (else_branch _ _ z e)
  ]

  -- The two snapshots are the same and nothing differs, or the changes are what the states of both
  -- have that the other has not.
  abbrev pub IsDifference : Tables → ℕ → ℕ → Changes → Type 0
  IsDifference t old new changes =
      ((old ≡ new) × (changes ≡ record { removed = []; added = [] }))
      ⊎ ((a : List StateEntry) × (b : List StateEntry) × (load_unless_zero o t old ≡ ok a)
          × (load_unless_zero o t new ≡ ok b)
          × (changes ≡ record { removed = missing a b; added = missing b a }))

  -- Whenever `DifferenceBetweeenStateSnapshots` returns no error, it has found what the states of
  -- the two snapshots, as `LoadStateAtSnapshot` returns them, have that the other has not, where 0
  -- stands for an empty state; if both are the same snapshot, it has found nothing.
  pub difference_between_state_snapshots-IsDifference :
      (t : Tables) (old new : ℕ) (changes : Changes)
      → difference_between_state_snapshots o t old new ≡ ok changes
      → IsDifference t old new changes
  unfolding difference_between_state_snapshots
  difference_between_state_snapshots-IsDifference t old new changes e =
      elim (Bool-cases (nat_eq old new)) [
        | inl same ↦ inl ((nat_eq_iff old new).0 same, sym (ok_inj (then_branch _ _ same e)))
        | inr other ↦
            let a = >>=-eq-ok (load_unless_zero o t old) _ (else_branch _ _ other e) in
            let b = >>=-eq-ok (load_unless_zero o t new) _ a.2 in
            let ascends = λ (nid : ℕ) (l : List StateEntry) (h : load_unless_zero o t nid ≡ ok l).
              HasUniqueKeys-IsAscending l (load_unless_zero-HasUniqueKeys t nid l h) in
            inr (
              a.0,
              b.0,
              a.1,
              b.1,
              sym (ok_inj b.2) ∙ merge-missing a.0 b.0 (ascends old a.0 a.1) (ascends new b.0 b.1),
            )
      ]
