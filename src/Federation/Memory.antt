-- ===== src/Federation/Memory.antt =====
-- What the queue of a destination holds in memory
-- (federationsender/queue/destinationqueue.go).
use dendrite.Base.{
  ℕ, ◌≤◌, ◌≡◌, subst, Bool, true, false, ◌&&◌, List, [], ◌∷◌, ◌++◌, Option, none, some, String,
  arith, take, drop, length, ltb, if◌then◌else◌, inl, inr, Bool-cases, length-append,
}
use dendrite.Federation.Queue.{
  Queue, Transaction, receipts, not_got, refill, associate_pdu, associate_edu, enqueue_pdu,
  enqueue_edu, start_worker, stop_worker, get_pending_from_database, give_up, send_transaction,
  transaction_accepted, transaction_failed, done,
}
use dendrite.Federation.Delivery.{
  Step, Run, associates_pdu, associates_edu, others_associate, others_clean, enqueues_pdu,
  enqueues_edu, starts, stops, fetches, gives_up, sends, accepts, fails, start, after,
}
use dendrite.Federation.Ahead.{
  length-refill, IsAhead, append-IsAhead, take-IsAhead, drop-IsAhead, length-drop, append-nil,
}

module _ {P E : Type 0} where
  abbrev pub Flies : Option (Transaction P E) → List (ℕ × P) → List (ℕ × E) → Type 0
  Flies none pdus edus = Unit
  Flies (some t) pdus edus = IsAhead t.pdus pdus × IsAhead t.edus edus

  -- At most 128 of each kind are in memory, at most 50 of each are in flight, and those in flight
  -- are the first of those in memory.
  abbrev pub IsBounded : Queue P E → Type 0
  IsBounded q =
      (length q.pending_pdus ≤ 128)
      × (length q.pending_edus ≤ 128)
      × Flies q.in_flight q.pending_pdus q.pending_edus

  Flies-append :
      (t : Option (Transaction P E)) (pdus more : List (ℕ × P)) (edus more_edus : List (ℕ × E))
      → Flies t pdus edus
      → Flies t (pdus ++ more) (edus ++ more_edus)
  Flies-append none pdus more edus more_edus h = tt
  Flies-append (some t) pdus more edus more_edus h =
      (append-IsAhead t.pdus pdus more h.0, append-IsAhead t.edus edus more_edus h.1)

  enqueue_pdu-IsBounded :
      (nid : ℕ) (pdu : P) (q : Queue P E) → IsBounded q → IsBounded (enqueue_pdu nid pdu q)
  unfolding enqueue_pdu
  enqueue_pdu-IsBounded nid pdu q h = elim (Bool-cases q.statistics.blacklisted) [
    | inl b ↦ rw b h
    | inr b ↦ elim (Bool-cases (ltb (length q.pending_pdus) 128)) [
      | inl e ↦
          rw (b, e)
            (
              ground (arith, e, length-append q.pending_pdus ((nid, pdu) ∷ [])),
              h.1,
              subst (Flies q.in_flight (q.pending_pdus ++ ((nid, pdu) ∷ [])))
                  (append-nil q.pending_edus)
                  (Flies-append q.in_flight q.pending_pdus ((nid, pdu) ∷ []) q.pending_edus [] h.2),
            )
      | inr e ↦ rw (b, e) h
    ]
  ]

  enqueue_edu-IsBounded :
      (nid : ℕ) (edu : E) (q : Queue P E) → IsBounded q → IsBounded (enqueue_edu nid edu q)
  unfolding enqueue_edu
  enqueue_edu-IsBounded nid edu q h = elim (Bool-cases q.statistics.blacklisted) [
    | inl b ↦ rw b h
    | inr b ↦ elim (Bool-cases (ltb (length q.pending_edus) 128)) [
      | inl e ↦
          rw (b, e)
            (
              h.0,
              ground (arith, e, length-append q.pending_edus ((nid, edu) ∷ [])),
              subst (λ l. Flies q.in_flight l (q.pending_edus ++ ((nid, edu) ∷ [])))
                  (append-nil q.pending_pdus)
                  (Flies-append q.in_flight q.pending_pdus [] q.pending_edus ((nid, edu) ∷ []) h.2),
            )
      | inr e ↦ rw (b, e) h
    ]
  ]

  start_worker-IsBounded : (q : Queue P E) → IsBounded q → IsBounded (start_worker q)
  unfolding start_worker
  start_worker-IsBounded q h = elim (Bool-cases q.running) [ inl e ↦ rw e h | inr e ↦ rw e h ]

  idle-Flies :
      (t : Option (Transaction P E)) (pdus : List (ℕ × P)) (edus : List (ℕ × E))
      → t ≡ none
      → Flies t pdus edus
  idle-Flies none pdus edus h = tt
  idle-Flies (some t) pdus edus h = cc

  send_transaction-IsBounded :
      (fresh : String) (q : Queue P E) → IsBounded q → IsBounded (send_transaction fresh q)
  unfolding send_transaction
  send_transaction-IsBounded fresh q h = (
    h.0,
    h.1,
    sent (
        dendrite.Federation.Queue.is_empty (take 50 q.pending_pdus)
        && dendrite.Federation.Queue.is_empty (take 50 q.pending_edus)),
  )
    where
      sent :
          (empty : Bool)
          → Flies
              (if empty
                then none
                else some (record {
                  transaction_id = dendrite.Federation.Queue.projected_id q.transaction_id fresh;
                  pdus = take 50 q.pending_pdus;
                  edus = take 50 q.pending_edus;
                }))
              q.pending_pdus
              q.pending_edus
      sent true = tt
      sent false = (take-IsAhead q.pending_pdus, take-IsAhead q.pending_edus)

  done-IsBounded :
      (destination : String) (pdus_ok edus_ok : Bool) (t : Option (Transaction P E)) (q : Queue P E)
      → IsBounded q
      → IsBounded (done destination pdus_ok edus_ok t q)
  done-IsBounded destination a b none q h = h
  done-IsBounded destination a b (some t) q h = (
    omega (arith, h.0, length-drop (length t.pdus) q.pending_pdus),
    omega (arith, h.1, length-drop (length t.edus) q.pending_edus),
    tt,
  )

  Step-IsBounded :
      (destination : String) (q r : Queue P E) → IsBounded q → Step destination q r → IsBounded r
  unfolding associate_pdu associate_edu stop_worker give_up transaction_failed
      get_pending_from_database transaction_accepted
  Step-IsBounded d q _ h (associates_pdu n) = h
  Step-IsBounded d q _ h (associates_edu n) = h
  Step-IsBounded d q _ h (others_associate other n) = h
  Step-IsBounded d q _ h (others_clean other nids e) = h
  Step-IsBounded d q _ h (enqueues_pdu n pdu) = enqueue_pdu-IsBounded n pdu q h
  Step-IsBounded d q _ h (enqueues_edu n edu) = enqueue_edu-IsBounded n edu q h
  Step-IsBounded d q _ h starts = start_worker-IsBounded q h
  Step-IsBounded d q _ h (stops e) = h
  Step-IsBounded d q _ h (fetches a b e) = (
    length-refill d 128 a q.pdu_store q.pending_pdus h.0,
    length-refill d 128 b q.edu_store q.pending_edus h.1,
    idle-Flies q.in_flight _ _ e,
  )
  Step-IsBounded d q _ h (gives_up e) = (omega arith, omega arith, idle-Flies q.in_flight [] [] e)
  Step-IsBounded d q _ h (sends fresh e) = send_transaction-IsBounded fresh q h
  Step-IsBounded d q _ h (accepts a b) = done-IsBounded d a b q.in_flight q h
  Step-IsBounded d q _ h (fails limit now) = (h.0, h.1, tt)

  -- In every state that a queue reaches from one that keeps to the bounds, at most 128 PDUs and 128
  -- EDUs are in memory, a transaction has at most 50 of each, and what is in flight is still at the
  -- head of what is in memory.
  pub Run-IsBounded :
      (destination : String) (q r : Queue P E) → Run destination q r → IsBounded q → IsBounded r
  Run-IsBounded d q _ start h = h
  Run-IsBounded d q r (after {r = m} run step) h =
      Step-IsBounded d m r (Run-IsBounded d q m run h) step

  done-pending :
      (destination : String) (pdus_ok edus_ok : Bool) (t : Transaction P E)
      (o : Option (Transaction P E)) (q : Queue P E)
      → o ≡ some t
      → Flies o q.pending_pdus q.pending_edus
      → (q.pending_pdus ≡ t.pdus ++ (done destination pdus_ok edus_ok o q).pending_pdus)
        × (q.pending_edus ≡ t.edus ++ (done destination pdus_ok edus_ok o q).pending_edus)
  done-pending d a b t none q e f = cc
  done-pending d a b t (some u) q e f =
      subst
        (λ t.
          (q.pending_pdus ≡ t.pdus ++ drop (length u.pdus) q.pending_pdus)
          × (q.pending_edus ≡ t.edus ++ drop (length u.edus) q.pending_edus))
        (mathlib.Core.Option.some-injective u t e)
        (drop-IsAhead u.pdus q.pending_pdus f.0, drop-IsAhead u.edus q.pending_edus f.1)

  -- When a transaction is accepted, what leaves the memory is exactly what the transaction has, in its
  -- order, in every state that keeps to the bounds.
  pub transaction_accepted-pending :
      (destination : String) (pdus_ok edus_ok : Bool) (t : Transaction P E) (q : Queue P E)
      → IsBounded q
      → q.in_flight ≡ some t
      → (q.pending_pdus
          ≡ t.pdus ++ (transaction_accepted destination pdus_ok edus_ok q).pending_pdus)
        × (q.pending_edus
            ≡ t.edus ++ (transaction_accepted destination pdus_ok edus_ok q).pending_edus)
  unfolding transaction_accepted
  transaction_accepted-pending d a b t q h e = done-pending d a b t q.in_flight q e h.2
