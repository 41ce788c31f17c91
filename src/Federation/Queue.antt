-- ===== src/Federation/Queue.antt =====
-- `destinationQueue` (federationsender/queue/destinationqueue.go). The queue of a destination, the
-- worker of which goes through `backgroundSend`; each function here is what happens without
-- another goroutine between. A `Bool` argument named `..._ok` says whether a call of the database
-- succeeds. A loop over the map of GetPendingPDUs goes in the order of the rows.
use dendrite.Base.{
  ℕ, ◌-◌, Bool, true, false, ◌&&◌, List, [], ◌∷◌, ◌++◌, Option, none, some, String, ◌==◌, String_eq,
  take, drop, length, ltb, if◌then◌else◌,
}
use dendrite.Base.Int.{ℤ}
use dendrite.Federation.Statistics.{ServerStatistics, failure, success}
use dendrite.Federation.Store.{Store, associate, get_pending, clean, among}

abbrev pub max_pdus_per_transaction : ℕ
max_pdus_per_transaction = 50

abbrev pub max_edus_per_transaction : ℕ
max_edus_per_transaction = 50

abbrev pub max_pdus_in_memory : ℕ
max_pdus_in_memory = 128

abbrev pub max_edus_in_memory : ℕ
max_edus_in_memory = 128

pub record Transaction (P E : Type 0) : Type 0 where
  pub transaction_id : String
  pub pdus : List (ℕ × P)
  pub edus : List (ℕ × E)

-- A queued PDU or EDU is its receipt's NID and its payload. `in_flight` is the transaction that
-- the worker waits for, and the last two fields are the receipts in the transactions that the
-- destination has accepted.
pub record Queue (P E : Type 0) : Type 0 where
  pub pdu_store : Store P
  pub edu_store : Store E
  pub running : Bool
  pub overflowed : Bool
  pub statistics : ServerStatistics
  pub transaction_id : String
  pub pending_pdus : List (ℕ × P)
  pub pending_edus : List (ℕ × E)
  pub in_flight : Option (Transaction P E)
  pub accepted_pdus : List ℕ
  pub accepted_edus : List ℕ

module _ {A : Type 0} where
  abbrev pub receipts : List (ℕ × A) → List ℕ
  receipts [] = []
  receipts ((nid, p) ∷ l) = nid ∷ receipts l

  -- What of the fetched is not in memory yet, by the receipts noted before.
  unfoldable pub not_got : List ℕ → List (ℕ × A) → List (ℕ × A)
  not_got got [] = []
  not_got got ((nid, a) ∷ l) =
      let rest = not_got got l in if among nid got then rest else (nid, a) ∷ rest

  unfoldable pub refill : String → ℕ → Bool → Store A → List (ℕ × A) → List (ℕ × A)
  refill destination max ok store pending =
      let capacity = max - length pending in
      if ltb 0 capacity && ok
      then pending ++ not_got (receipts pending) (get_pending destination capacity store)
      else pending

  abbrev pub is_empty : List A → Bool
  is_empty [] = true
  is_empty (x ∷ l) = false

  abbrev pub cleaned : String → Bool → List ℕ → Store A → Store A
  cleaned destination ok nids store = if ok then clean destination nids store else store

abbrev pub projected_id : String → String → String
projected_id id fresh = if id == "" then fresh else id

module _ {P E : Type 0} where
  -- The second half, while holding the lock; the waking of the worker is `start_worker`.
  unfoldable pub enqueue_pdu : ℕ → P → Queue P E → Queue P E
  enqueue_pdu nid pdu q =
      if q.statistics.blacklisted
      then q
      else if ltb (length q.pending_pdus) max_pdus_in_memory
      then record q { pending_pdus = q.pending_pdus ++ ((nid, pdu) ∷ []) }
      else record q { overflowed = true }

  unfoldable pub enqueue_edu : ℕ → E → Queue P E → Queue P E
  enqueue_edu nid edu q =
      if q.statistics.blacklisted
      then q
      else if ltb (length q.pending_edus) max_edus_in_memory
      then record q { pending_edus = q.pending_edus ++ ((nid, edu) ∷ []) }
      else record q { overflowed = true }

  -- The start of `backgroundSend`.
  unfoldable pub start_worker : Queue P E → Queue P E
  start_worker q = if q.running then q else record q { running = true; overflowed = true }

  -- The idle timeout.
  unfoldable pub stop_worker : Queue P E → Queue P E
  stop_worker q = record q { running = false }

  -- When `BackoffInfo` says that the server is blacklisted.
  unfoldable pub give_up : Queue P E → Queue P E
  give_up q = record q { pending_pdus = []; pending_edus = []; running = false }

  -- From the choice of the PDUs and EDUs to the call of `SendTransaction`; `fresh` is the ID made
  -- from the time and the success count.
  unfoldable pub send_transaction : String → Queue P E → Queue P E
  send_transaction fresh q =
      let pdus = take max_pdus_per_transaction q.pending_pdus in
      let edus = take max_edus_per_transaction q.pending_edus in
      let id = projected_id q.transaction_id fresh in
      let t : Transaction P E = record { transaction_id = id; pdus = pdus; edus = edus } in
      record q {
        transaction_id = id;
        in_flight = if is_empty pdus && is_empty edus then none else some t;
      }

  -- After `SendTransaction` has returned an error.
  unfoldable pub transaction_failed : ℕ → ℤ → Queue P E → Queue P E
  transaction_failed limit now q = record q {
    statistics = (failure limit now q.statistics).1;
    in_flight = none;
  }

module _ {P E : Type 0} (destination : String) where
  -- The first half of `sendEvent`, and whether it succeeded.
  unfoldable pub associate_pdu : ℕ → Queue P E → Queue P E × Bool
  associate_pdu nid q =
      let (store, ok) = associate destination nid q.pdu_store in
      (record q { pdu_store = store }, ok)

  unfoldable pub associate_edu : ℕ → Queue P E → Queue P E × Bool
  associate_edu nid q =
      let (store, ok) = associate destination nid q.edu_store in
      (record q { edu_store = store }, ok)

  unfoldable pub get_pending_from_database : Bool → Bool → Queue P E → Queue P E
  get_pending_from_database pdus_ok edus_ok q =
      let pdus = refill destination max_pdus_in_memory pdus_ok q.pdu_store q.pending_pdus in
      let edus = refill destination max_edus_in_memory edus_ok q.edu_store q.pending_edus in
      let room = ltb (length pdus) max_pdus_in_memory && ltb (length edus) max_edus_in_memory in
      record q {
        pending_pdus = pdus;
        pending_edus = edus;
        overflowed = if room then false else q.overflowed;
      }

  abbrev pub done : Bool → Bool → Option (Transaction P E) → Queue P E → Queue P E
  done pdus_ok edus_ok none q = q
  done pdus_ok edus_ok (some t) q = record q {
    pdu_store = cleaned destination pdus_ok (receipts t.pdus) q.pdu_store;
    edu_store = cleaned destination edus_ok (receipts t.edus) q.edu_store;
    statistics = success q.statistics;
    transaction_id = "";
    pending_pdus = drop (length t.pdus) q.pending_pdus;
    pending_edus = drop (length t.edus) q.pending_edus;
    in_flight = none;
    accepted_pdus = receipts t.pdus ++ q.accepted_pdus;
    accepted_edus = receipts t.edus ++ q.accepted_edus;
  }

  -- After `SendTransaction` has returned without an error.
  unfoldable pub transaction_accepted : Bool → Bool → Queue P E → Queue P E
  transaction_accepted pdus_ok edus_ok q = done pdus_ok edus_ok q.in_flight q
