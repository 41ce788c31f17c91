-- ===== src/Storage/Sound.antt =====
-- What the tables of state blocks and snapshots keep true of each other
-- (roomserver/storage/postgres/state_block_table.go and state_snapshot_table.go).
use dendrite.Base.{
  ℕ, ◌<◌, ◌≡◌, refl, true, ◌||◌, List, [], ◌∷◌, ◌++◌, some, map, arith, nat_eq, All, inl, inr,
  Bool-cases,
}
use dendrite.Base.Sort.{stable_sort}
use dendrite.Storage.Tables.{
  BlockRow, SnapshotRow, Tables, Outside, among, conflicting_block, conflicting_snapshot,
  with_event_nids, with_room_nid,
}
use dendrite.Storage.Ascending.{distinct, Ascends, by_id}

abbrev pub block_nids : Tables → List ℕ
block_nids t = map (λ r. r.state_block_nid) t.blocks

-- NIDs of blocks that are there, ascending.
abbrev pub IsStored : Tables → List ℕ → Type 0
IsStored t nids = Ascends (λ n. n) nids × All (λ n. among (block_nids t) n ≡ true) nids

-- The NIDs of both tables ascend and are less than the next values of their sequences, and each
-- snapshot lists the NIDs of blocks that are there, ascending.
abbrev pub IsSound : Tables → Type 0
IsSound t =
    (Ascends (λ r. r.state_block_nid) t.blocks
      × All (λ r. r.state_block_nid < t.next_block_nid) t.blocks)
    × (Ascends (λ r. r.state_snapshot_nid) t.snapshots
        × All (λ r. r.state_snapshot_nid < t.next_snapshot_nid) t.snapshots)
    × All (λ r. IsStored t r.state_block_nids) t.snapshots

-- What `util.SortAndUnique` is documented to do with numeric IDs.
abbrev pub SortsNids : Outside → Type 0
SortsNids o =
    (l : List ℕ)
    → o.sort_and_unique_nids l ≡ distinct (by_id (λ n. n)) (stable_sort (by_id (λ n. n)) l)

module _ {A : Type 0} where
  pub All-map :
      (P : A → Type 0) (f : A → A) (l : List A)
      → ((a : A) → P a → P (f a))
      → All P l
      → All P (map f l)
  All-map P f [] g h = tt
  All-map P f (a ∷ l) g h = (g a h.0, All-map P f l g h.1)

  pub All-append_one : (P : A → Type 0) (l : List A) (a : A) → All P l → P a → All P (l ++ (a ∷ []))
  All-append_one P [] a h p = (p, tt)
  All-append_one P (x ∷ l) a h p = (h.0, All-append_one P l a h.1 p)

  pub map-same :
      (id : A → ℕ) (f : A → A) (l : List A)
      → ((a : A) → id (f a) ≡ id a)
      → map id (map f l) ≡ map id l
  map-same id f [] g = refl
  map-same id f (a ∷ l) g = rw (g a, map-same id f l g) refl

  pub Ascends-map :
      (id : A → ℕ) (f : A → A) (l : List A)
      → ((a : A) → id (f a) ≡ id a)
      → Ascends id l
      → Ascends id (map f l)
  Ascends-map id f [] g h = tt
  Ascends-map id f (a ∷ l) g h = (
    rw (g a) (All-map (λ y. id a < id y) f l (λ x q. omega (arith, g x, q)) h.0),
    Ascends-map id f l g h.1,
  )

  pub among-map_append :
      (id : A → ℕ) (l m : List A) (n : ℕ)
      → among (map id (l ++ m)) n ≡ (among (map id l) n || among (map id m) n)
  among-map_append id [] m n = refl
  among-map_append id (a ∷ l) m n = ground (arith, among-map_append id l m n)

pub with_event_nids_nid :
    (h : ℕ) (nids : List ℕ) (r : BlockRow)
    → (with_event_nids h nids r).state_block_nid ≡ r.state_block_nid
with_event_nids_nid h nids r = elim (Bool-cases (nat_eq r.state_block_hash h)) [
  | inl e ↦ rw e refl
  | inr e ↦ rw e refl
]

pub with_room_nid_nid :
    (h room : ℕ) (r : SnapshotRow)
    → (with_room_nid h room r).state_snapshot_nid ≡ r.state_snapshot_nid
with_room_nid_nid h room r = elim (Bool-cases (nat_eq r.state_snapshot_hash h)) [
  | inl e ↦ rw e refl
  | inr e ↦ rw e refl
]

pub with_room_nid_nids :
    (h room : ℕ) (r : SnapshotRow) → (with_room_nid h room r).state_block_nids ≡ r.state_block_nids
with_room_nid_nids h room r = elim (Bool-cases (nat_eq r.state_snapshot_hash h)) [
  | inl e ↦ rw e refl
  | inr e ↦ rw e refl
]

pub conflicting_block-among :
    (h : ℕ) (rows : List BlockRow) (nid : ℕ)
    → conflicting_block h rows ≡ some nid
    → among (map (λ r. r.state_block_nid) rows) nid ≡ true
unfolding conflicting_block
conflicting_block-among h [] nid e = ground (arith, e)
conflicting_block-among h (r ∷ rows) nid e = ground (arith, e, conflicting_block-among h rows nid)

pub conflicting_snapshot-among :
    (h : ℕ) (rows : List SnapshotRow) (nid : ℕ)
    → conflicting_snapshot h rows ≡ some nid
    → among (map (λ r. r.state_snapshot_nid) rows) nid ≡ true
unfolding conflicting_snapshot
conflicting_snapshot-among h [] nid e = ground (arith, e)
conflicting_snapshot-among h (r ∷ rows) nid e =
    ground (arith, e, conflicting_snapshot-among h rows nid)
