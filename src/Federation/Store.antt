-- ===== src/Federation/Store.antt =====
-- What waits for each server in the database: the tables federationsender_queue_pdus (or ..._edus)
-- and federationsender_queue_json (federationsender/storage/shared/storage_pdus.go and
-- storage_edus.go, federationsender/storage/postgres/queue_pdus_table.go). The JSON table is one
-- for PDUs and EDUs, but each of its rows belongs to one of the two; a `Store` has the rows of
-- one. `P` is the payload that a row's JSON stands for. A store call that fails changes nothing.
use dendrite.Base.{
  ℕ, Bool, not, ◌&&◌, List, [], ◌∷◌, ◌++◌, Option, none, some, String, ◌==◌, String_eq, ℕ_eq,
  nat_eq, any, keep, take, if◌then◌else◌,
}
use dendrite.Base.Map.{Map, lookup, delete}

pub record Store (P : Type 0) : Type 0 where
  -- server_name and json_nid
  pub rows : List (String × ℕ)
  pub json : Map ℕ P

abbrev pub row_eq : String → ℕ → String × ℕ → Bool
row_eq server nid (s, n) = (s == server) && nat_eq n nid

unfoldable pub has_row : String → ℕ → List (String × ℕ) → Bool
has_row server nid = any (row_eq server nid)

abbrev pub among : ℕ → List ℕ → Bool
among nid = any (nat_eq nid)

-- SelectQueuePDUs without the limit
unfoldable pub nids_of : String → List (String × ℕ) → List ℕ
nids_of server [] = []
nids_of server ((s, n) ∷ rows) =
    let rest = nids_of server rows in if s == server then n ∷ rest else rest

-- SelectQueuePDUReferenceJSONCount, as a test for zero
abbrev pub unreferenced : ℕ → List (String × ℕ) → Bool
unreferenced nid rows = not (any (λ r. nat_eq r.1 nid) rows)

-- DeleteQueuePDUs
unfoldable pub delete_rows : String → List ℕ → List (String × ℕ) → List (String × ℕ)
delete_rows server nids = keep (λ r. not ((r.0 == server) && among r.1 nids))

module _ {P : Type 0} where
  abbrev pub associated : Bool → String → ℕ → Store P → Store P
  associated taken server nid s =
      if taken then s else record s { rows = s.rows ++ ((server, nid) ∷ []) }

  -- AssociatePDUWithDestination, and whether it succeeded; the index of the table is unique.
  unfoldable pub associate : String → ℕ → Store P → Store P × Bool
  associate server nid s =
      let taken = has_row server nid s.rows in (associated taken server nid s, not taken)

  abbrev with_payload : Option P → ℕ → List (ℕ × P) → List (ℕ × P)
  with_payload none nid l = l
  with_payload (some p) nid l = (nid, p) ∷ l

  unfoldable pub payloads : Map ℕ P → List ℕ → List (ℕ × P)
  payloads json [] = []
  payloads json (nid ∷ nids) = with_payload (lookup nid json) nid (payloads json nids)

  -- GetPendingPDUs
  unfoldable pub get_pending : String → ℕ → Store P → List (ℕ × P)
  get_pending server limit s = payloads s.json (take limit (nids_of server s.rows))

  unfoldable pub delete_unreferenced : List (String × ℕ) → List ℕ → Map ℕ P → Map ℕ P
  delete_unreferenced rows [] json = json
  delete_unreferenced rows (nid ∷ nids) json =
      let rest = delete_unreferenced rows nids json in
      if unreferenced nid rows then delete nid rest else rest

  -- CleanPDUs; without receipts it fails.
  unfoldable pub clean : String → List ℕ → Store P → Store P
  clean server [] s = s
  clean server (nid ∷ nids) s =
      let rows = delete_rows server (nid ∷ nids) s.rows in
      record { rows = rows; json = delete_unreferenced rows (nid ∷ nids) s.json }
