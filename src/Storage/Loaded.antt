-- ===== src/Storage/Loaded.antt =====
-- What `LoadStateAtSnapshot` (roomserver/state/state.go) reads from sound tables.
use dendrite.Base.{
  ℕ, ◌<◌, ◌≡◌, refl, ap, sym, subst, false, List, [], ◌∷◌, ◌++◌, some, map, arith, ltb, nat_eq, All,
  inl, inr, Bool-cases, ok, keep, length,
}
use dendrite.Base.Sort.{IsSorted, All-imp}
use dendrite.RoomState.Entries.{StateEntry}
use dendrite.RoomState.Lookup.{StateEntryList, first_with, lookups-first_with}
use dendrite.RoomState.Load.{gather}
use dendrite.Storage.Tables.{BlockRow, Tables, Outside, among, bulk_select_state_event_by_nid}
use dendrite.Storage.Add.{entry_lists}
use dendrite.Storage.Ascending.{Ascends}

-- PostgreSQL returns each of the rows once. The statement that selects blocks asks for no order.
abbrev pub ReturnsAll : Outside → Type 0
ReturnsAll o = (rows : List BlockRow) → length (o.returned rows) ≡ length rows

-- The rows as `StateEntries` reads them: it gives their events to the NIDs that it has asked for, one
-- after the other.
abbrev pub labelled : List ℕ → List BlockRow → List BlockRow
labelled [] rows = []
labelled (n ∷ nids) [] = []
labelled (n ∷ nids) (r ∷ rows) = record r { state_block_nid = n } ∷ labelled nids rows

pub labelled-nids :
    (nids : List ℕ) (rows : List BlockRow)
    → length rows ≡ length nids
    → map (λ r. r.state_block_nid) (labelled nids rows) ≡ nids
labelled-nids [] rows h = refl
labelled-nids (n ∷ nids) [] h = ground (arith, h)
labelled-nids (n ∷ nids) (r ∷ rows) h = ap (◌∷◌ n) (labelled-nids nids rows (omega (arith, h)))

pub labelled-event_nids :
    (nids : List ℕ) (rows : List BlockRow)
    → length rows ≡ length nids
    → map (λ r. r.event_nids) (labelled nids rows) ≡ map (λ r. r.event_nids) rows
labelled-event_nids [] [] h = refl
labelled-event_nids [] (r ∷ rows) h = ground (arith, h)
labelled-event_nids (n ∷ nids) [] h = refl
labelled-event_nids (n ∷ nids) (r ∷ rows) h =
    ap (◌∷◌ r.event_nids) (labelled-event_nids nids rows (omega (arith, h)))

All-of_map :
    {A B : Type 0} (P : B → Type 0) (f : A → B) (l : List A)
    → All P (map f l)
    → All (λ a. P (f a)) l
All-of_map P f [] h = tt
All-of_map P f (a ∷ l) h = (h.0, All-of_map P f l h.1)

Ascends-of_map : {A : Type 0} (id : A → ℕ) (l : List A) → Ascends (λ n. n) (map id l) → Ascends id l
Ascends-of_map id [] h = tt
Ascends-of_map id (a ∷ l) h = (All-of_map (λ n. id a < n) id l h.0, Ascends-of_map id l h.1)

pub labelled-Ascends :
    (nids : List ℕ) (rows : List BlockRow)
    → length rows ≡ length nids
    → Ascends (λ n. n) nids
    → Ascends (λ r. r.state_block_nid) (labelled nids rows)
labelled-Ascends nids rows h a =
    Ascends-of_map (λ r. r.state_block_nid) (labelled nids rows)
      (subst (Ascends (λ n. n)) (sym (labelled-nids nids rows h)) a)

module _ {A : Type 0} (id : A → ℕ) where
  none_with :
      (n : ℕ) (l : List A) → All (λ a. n < id a) l → keep (λ a. among (n ∷ []) (id a)) l ≡ []
  none_with n [] h = refl
  none_with n (a ∷ l) h =
      let other : nat_eq (id a) n ≡ false = ground (arith, h.0) in rw other (none_with n l h.1)

  pub keep-first_with :
      (n : ℕ) (l : List A) (a : A)
      → Ascends id l
      → first_with id n l ≡ some a
      → keep (λ x. among (n ∷ []) (id x)) l ≡ a ∷ []
  keep-first_with n [] a h e = ground (arith, e)
  keep-first_with n (x ∷ l) a h e = elim (Bool-cases (nat_eq (id x) n)) [
    | inl t ↦
        let same : id x ≡ n = ground (arith, t) in
        let it : x ≡ a = ground (arith, t, e) in
        rw (t, none_with n l (All-imp (λ y q. omega (arith, q, same)) l h.0), it) refl
    | inr t ↦ rw t (keep-first_with n l a h.1 (ground (arith, t, e)))
  ]

  pub length-map : (l : List A) → length (map id l) ≡ length l
  length-map [] = refl
  length-map (a ∷ l) = omega (arith, length-map l)

-- The entries of a block.
abbrev pub entry_list : Tables → BlockRow → StateEntryList
entry_list t r = record {
  state_block_nid = r.state_block_nid;
  state_entries = bulk_select_state_event_by_nid t r.event_nids;
}

-- The entries of blocks, one block after the other.
abbrev pub entries_of : Tables → List BlockRow → List StateEntry
entries_of t [] = []
entries_of t (r ∷ rows) = bulk_select_state_event_by_nid t r.event_nids ++ entries_of t rows

pub entries_of-labelled :
    (t : Tables) (nids : List ℕ) (rows : List BlockRow)
    → length rows ≡ length nids
    → entries_of t (labelled nids rows) ≡ entries_of t rows
entries_of-labelled t [] [] h = refl
entries_of-labelled t [] (r ∷ rows) h = ground (arith, h)
entries_of-labelled t (n ∷ nids) [] h = refl
entries_of-labelled t (n ∷ nids) (r ∷ rows) h =
    ap (◌++◌ (bulk_select_state_event_by_nid t r.event_nids))
      (entries_of-labelled t nids rows (omega (arith, h)))

abbrev pub blocks_with : Tables → List ℕ → List BlockRow
blocks_with t nids = keep (λ r. among nids r.state_block_nid) t.blocks

module _ (t : Tables) where
  pub entry_lists-map :
      (rows : List BlockRow)
      → entry_lists t (map (λ r. r.state_block_nid) rows) (map (λ r. r.event_nids) rows)
        ≡ ok (map (entry_list t) rows)
  unfolding entry_lists
  entry_lists-map [] = refl
  entry_lists-map (r ∷ rows) = rw (entry_lists-map rows) refl

  pub entry_lists_ascend :
      (rows : List BlockRow)
      → Ascends (λ r. r.state_block_nid) rows
      → IsSorted (λ a b. ltb a.state_block_nid b.state_block_nid) (map (entry_list t) rows)
  entry_lists_ascend [] h = tt
  entry_lists_ascend (r ∷ rows) h = (behind r rows h.0, entry_lists_ascend rows h.1)
    where
      behind :
          (r : BlockRow) (rows : List BlockRow)
          → All (λ x. r.state_block_nid < x.state_block_nid) rows
          → All (λ x. ltb x.state_block_nid r.state_block_nid ≡ false) (map (entry_list t) rows)
      behind r [] h = tt
      behind r (x ∷ rows) h = (ground (arith, h.0), behind r rows h.1)

  abbrev IsIn : List StateEntryList → BlockRow → Type 0
  IsIn lists r = first_with (λ l. l.state_block_nid) r.state_block_nid lists ≡ some (entry_list t r)

  pub entries_found :
      (rows : List BlockRow)
      → Ascends (λ r. r.state_block_nid) rows
      → All (IsIn (map (entry_list t) rows)) rows
  entries_found [] h = tt
  entries_found (r ∷ rows) h = (ground arith, All-both rows h.0 (entries_found rows h.1))
    where
      All-both :
          (l : List BlockRow)
          → All (λ x. r.state_block_nid < x.state_block_nid) l
          → All (IsIn (map (entry_list t) rows)) l
          → All (IsIn (map (entry_list t) (r ∷ rows))) l
      All-both [] a b = tt
      All-both (x ∷ l) a b = (ground (arith, a.0, b.0), All-both l a.1 b.1)

  pub gather-map :
      (lists : List StateEntryList) (rows : List BlockRow)
      → IsSorted (λ a b. ltb a.state_block_nid b.state_block_nid) lists
      → All (IsIn lists) rows
      → gather lists (map (λ r. r.state_block_nid) rows) ≡ some (entries_of t rows)
  unfolding gather
  gather-map lists [] s h = refl
  gather-map lists (r ∷ rows) s h =
      let found = lookups-first_with {V = ℕ} r.state_block_nid [] lists [] tt s tt in
      rw (found.1, h.0, gather-map lists rows s h.1) refl
