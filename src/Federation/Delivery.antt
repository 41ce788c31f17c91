-- ===== src/Federation/Delivery.antt =====
-- What the worker of a destination does to the PDUs that wait
-- (federationsender/queue/destinationqueue.go).
use dendrite.Base.{
  ℕ, ◌≡◌, sym, ap, ◌∙◌, subst, Bool, true, false, List, [], ◌∷◌, ◌++◌, Option, none, some, String,
  String_eq, ◌==◌, ℕ_eq, arith, ◌⊎◌, inl, inr, Bool-cases,
}
use dendrite.Base.Int.{ℤ}
use dendrite.Federation.Store.{Store, among, associate, clean}
use dendrite.Federation.Queue.{
  Queue, Transaction, receipts, associate_pdu, associate_edu, enqueue_pdu, enqueue_edu,
  start_worker, stop_worker, get_pending_from_database, give_up, send_transaction,
  transaction_accepted, transaction_failed, cleaned, done,
}
use dendrite.Federation.Stored.{IsStored, associate-IsStored, clean-IsStored, clean_other-IsStored}

-- `AssociatePDUWithDestination` and `CleanPDUs` for any server, on the tables that the destinations
-- share.
abbrev pub others_associated : {P E : Type 0} → String → ℕ → Queue P E → Queue P E
others_associated other nid q = record q { pdu_store = (associate other nid q.pdu_store).0 }

abbrev pub others_cleaned : {P E : Type 0} → String → List ℕ → Queue P E → Queue P E
others_cleaned other nids q = record q { pdu_store = clean other nids q.pdu_store }

-- What goroutines may do to a queue: the callers of `sendEvent` and `sendEDU`, and the worker,
-- which does nothing else while a transaction is in flight. The queues of the other destinations
-- write to the same tables.
pub data Step {P E : Type 0} (destination : String) (q : Queue P E) : Queue P E → Type 0 where
  associates_pdu : (nid : ℕ) → Step destination q (associate_pdu destination nid q).0
  associates_edu : (nid : ℕ) → Step destination q (associate_edu destination nid q).0
  enqueues_pdu : (nid : ℕ) (pdu : P) → Step destination q (enqueue_pdu nid pdu q)
  enqueues_edu : (nid : ℕ) (edu : E) → Step destination q (enqueue_edu nid edu q)
  starts : Step destination q (start_worker q)
  stops : q.in_flight ≡ none → Step destination q (stop_worker q)
  fetches :
      (pdus_ok edus_ok : Bool)
      → q.in_flight ≡ none
      → Step destination q (get_pending_from_database destination pdus_ok edus_ok q)
  gives_up : q.in_flight ≡ none → Step destination q (give_up q)
  sends : (fresh : String) → q.in_flight ≡ none → Step destination q (send_transaction fresh q)
  accepts :
      (pdus_ok edus_ok : Bool)
      → Step destination q (transaction_accepted destination pdus_ok edus_ok q)
  fails : (limit : ℕ) (now : ℤ) → Step destination q (transaction_failed limit now q)
  others_associate : (other : String) (nid : ℕ) → Step destination q (others_associated other nid q)
  others_clean :
      (other : String) (nids : List ℕ)
      → (other == destination) ≡ false
      → Step destination q (others_cleaned other nids q)

pub data Run {P E : Type 0} (destination : String) (q : Queue P E) : Queue P E → Type 0 where
  start : Run destination q q
  after : {r t : Queue P E} → Run destination q r → Step destination r t → Run destination q t

-- A PDU is still in the database, or a transaction with it has been accepted.
abbrev pub IsSafe : {P E : Type 0} → String → ℕ → P → Queue P E → Type 0
IsSafe server nid p q = IsStored server nid p q.pdu_store ⊎ (among nid q.accepted_pdus ≡ true)

among-append_left : (nid : ℕ) (l m : List ℕ) → among nid l ≡ true → among nid (l ++ m) ≡ true
among-append_left nid [] m h = ground (arith, h)
among-append_left nid (x ∷ l) m h = ground (arith, h, among-append_left nid l m)

among-append_right : (nid : ℕ) (l m : List ℕ) → among nid m ≡ true → among nid (l ++ m) ≡ true
among-append_right nid [] m h = h
among-append_right nid (x ∷ l) m h = ground (arith, among-append_right nid l m h)

cleaned-IsStored :
    {P : Type 0} (destination : String) (nid : ℕ) (p : P) (ok : Bool) (nids : List ℕ) (s : Store P)
    → among nid nids ≡ false
    → IsStored destination nid p s
    → IsStored destination nid p (cleaned destination ok nids s)
cleaned-IsStored destination nid p true nids s a h = clean-IsStored destination nid p nids s a h
cleaned-IsStored destination nid p false nids s a h = h

module _ {P E : Type 0} (destination : String) (nid : ℕ) (p : P) where
  IsSafe-keep :
      (q r : Queue P E)
      → r.pdu_store ≡ q.pdu_store
      → r.accepted_pdus ≡ q.accepted_pdus
      → IsSafe destination nid p q
      → IsSafe destination nid p r
  IsSafe-keep q r e f (inl s) = inl (subst (IsStored destination nid p) (sym e) s)
  IsSafe-keep q r e f (inr a) = inr (ap (among nid) f ∙ a)

  enqueue_pdu-IsSafe :
      (n : ℕ) (pdu : P) (q : Queue P E)
      → IsSafe destination nid p q
      → IsSafe destination nid p (enqueue_pdu n pdu q)
  unfolding enqueue_pdu
  enqueue_pdu-IsSafe n pdu q h = IsSafe-keep q (enqueue_pdu n pdu q) (ground arith) (ground arith) h

  enqueue_edu-IsSafe :
      (n : ℕ) (edu : E) (q : Queue P E)
      → IsSafe destination nid p q
      → IsSafe destination nid p (enqueue_edu n edu q)
  unfolding enqueue_edu
  enqueue_edu-IsSafe n edu q h = IsSafe-keep q (enqueue_edu n edu q) (ground arith) (ground arith) h

  start_worker-IsSafe :
      (q : Queue P E) → IsSafe destination nid p q → IsSafe destination nid p (start_worker q)
  unfolding start_worker
  start_worker-IsSafe q h = IsSafe-keep q (start_worker q) (ground arith) (ground arith) h

  done-IsSafe :
      (pdus_ok edus_ok : Bool) (t : Option (Transaction P E)) (q : Queue P E)
      → IsSafe destination nid p q
      → IsSafe destination nid p (done destination pdus_ok edus_ok t q)
  done-IsSafe a b none q h = h
  done-IsSafe a b (some t) q (inr h) =
      inr (among-append_right nid (receipts t.pdus) q.accepted_pdus h)
  done-IsSafe a b (some t) q (inl s) = elim (Bool-cases (among nid (receipts t.pdus))) [
    | inl e ↦ inr (among-append_left nid (receipts t.pdus) q.accepted_pdus e)
    | inr e ↦ inl (cleaned-IsStored destination nid p a (receipts t.pdus) q.pdu_store e s)
  ]

  transaction_accepted-IsSafe :
      (pdus_ok edus_ok : Bool) (q : Queue P E)
      → IsSafe destination nid p q
      → IsSafe destination nid p (transaction_accepted destination pdus_ok edus_ok q)
  unfolding transaction_accepted
  transaction_accepted-IsSafe a b q h = done-IsSafe a b q.in_flight q h

  associate_pdu-IsSafe :
      (n : ℕ) (q : Queue P E)
      → IsSafe destination nid p q
      → IsSafe destination nid p (associate_pdu destination n q).0
  unfolding associate_pdu
  associate_pdu-IsSafe n q (inl s) =
      inl (associate-IsStored destination nid p destination n q.pdu_store s)
  associate_pdu-IsSafe n q (inr a) = inr a

  Step-IsSafe :
      (q r : Queue P E)
      → IsSafe destination nid p q
      → Step destination q r
      → IsSafe destination nid p r
  unfolding associate_edu stop_worker give_up send_transaction transaction_failed
      get_pending_from_database
  Step-IsSafe q _ h (associates_pdu n) = associate_pdu-IsSafe n q h
  Step-IsSafe q _ h (associates_edu n) = h
  Step-IsSafe q _ h (enqueues_pdu n pdu) = enqueue_pdu-IsSafe n pdu q h
  Step-IsSafe q _ h (enqueues_edu n edu) = enqueue_edu-IsSafe n edu q h
  Step-IsSafe q _ h starts = start_worker-IsSafe q h
  Step-IsSafe q _ h (stops e) = h
  Step-IsSafe q _ h (fetches a b e) = h
  Step-IsSafe q _ h (gives_up e) = h
  Step-IsSafe q _ h (sends fresh e) = h
  Step-IsSafe q _ h (accepts a b) = transaction_accepted-IsSafe a b q h
  Step-IsSafe q _ h (fails limit now) = h
  Step-IsSafe q _ (inl s) (others_associate other n) =
      inl (associate-IsStored destination nid p other n q.pdu_store s)
  Step-IsSafe q _ (inr a) (others_associate other n) = inr a
  Step-IsSafe q _ (inl s) (others_clean other nids d) =
      inl (clean_other-IsStored destination other nid p nids q.pdu_store d s)
  Step-IsSafe q _ (inr a) (others_clean other nids d) = inr a

  -- However the calls of `sendEvent` and `sendEDU` interleave with the worker and with what the
  -- queues of other destinations write to the shared tables, and whether or not the database's
  -- calls succeed: a PDU that is associated with the destination stays in the database with its
  -- payload until the destination has accepted a transaction that has it.
  pub Run-IsSafe :
      (q r : Queue P E)
      → Run destination q r
      → IsStored destination nid p q.pdu_store
      → IsSafe destination nid p r
  Run-IsSafe q _ start h = inl h
  Run-IsSafe q r (after {r = m} run step) h = Step-IsSafe m r (Run-IsSafe q m run h) step
