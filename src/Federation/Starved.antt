-- ===== src/Federation/Starved.antt =====
-- When the queue of a destination stops asking the database
-- (federationsender/queue/destinationqueue.go).
use dendrite.Base.{
  ℕ, ◌-◌, ◌<◌, ◌≡◌, refl, Bool, true, false, ◌&&◌, List, [], ◌∷◌, String, arith, length, ltb, inl,
  inr, Bool-cases,
}
use dendrite.Federation.Store.{Store, among, get_pending}
use dendrite.Federation.Queue.{Queue, receipts, not_got, refill, get_pending_from_database}
use dendrite.Federation.Ahead.{append-nil}

module _ {A : Type 0} where
  -- All that is fetched is in memory already.
  abbrev pub covered : List ℕ → List (ℕ × A) → Bool
  covered got [] = true
  covered got ((nid, a) ∷ l) = among nid got && covered got l

  not_got-nil : (got : List ℕ) (l : List (ℕ × A)) → covered got l ≡ true → not_got got l ≡ []
  unfolding not_got
  not_got-nil got [] h = refl
  not_got-nil got ((n, a) ∷ l) h = ground (arith, h, not_got-nil got l)

  refill-same :
      (destination : String) (max : ℕ) (s : Store A) (pending : List (ℕ × A))
      → covered (receipts pending) (get_pending destination (max - length pending) s) ≡ true
      → refill destination max true s pending ≡ pending
  unfolding refill
  refill-same destination max s pending h = elim (Bool-cases (ltb 0 (max - length pending))) [
    | inl e ↦
        rw (e, not_got-nil (receipts pending) (get_pending destination (max - length pending) s) h)
          (append-nil pending)
    | inr e ↦ rw e
  ]

module _ {P E : Type 0} where
  -- When there is room in memory for both kinds, and the rows that the database returns for the room
  -- left are those already in memory, then nothing is fetched and the queue stops asking the
  -- database, however many rows it has besides.
  pub get_pending_from_database-starves :
      (destination : String) (q : Queue P E)
      → length q.pending_pdus < 128
      → length q.pending_edus < 128
      → covered
          (receipts q.pending_pdus)
          (get_pending destination (128 - length q.pending_pdus) q.pdu_store)
        ≡ true
      → covered
          (receipts q.pending_edus)
          (get_pending destination (128 - length q.pending_edus) q.edu_store)
        ≡ true
      → get_pending_from_database destination true true q ≡ record q { overflowed = false }
  unfolding get_pending_from_database
  get_pending_from_database-starves d q p e hp he =
      let room : ltb (length q.pending_pdus) 128 ≡ true = ground (arith, p) in
      let edu_room : ltb (length q.pending_edus) 128 ≡ true = ground (arith, e) in
      rw (
        refill-same d 128 q.pdu_store q.pending_pdus hp,
        refill-same d 128 q.edu_store q.pending_edus he,
        room,
        edu_room,
      )
