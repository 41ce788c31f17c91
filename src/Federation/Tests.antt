-- ===== src/Federation/Tests.antt =====
-- The theorems about sending to other servers, at a server that fails twice and at small queues.
use dendrite.Base.{
  ℕ, suc, zero, ◌*◌, ◌^◌, ◌≡◌, refl, true, false, List, [], ◌∷◌, ◌++◌, none, String, arith, leb,
  String_eq,
}
use dendrite.Base.Int.{ℤ, pos, ◌+ℤ◌}
use dendrite.Base.Map.{lookup}
use dendrite.Federation.Statistics.{ServerStatistics, at, for_server, failure, success}
use dendrite.Federation.Backoff.{fail_times, fail_times-blacklisted, failure-doubles}
use dendrite.Federation.Stuck.{Event, fails, wait_ends, happens, success-after_blacklist}
use dendrite.Federation.Store.{has_row, associate, nids_of, get_pending, payloads}
use dendrite.Federation.Queue.{
  Queue, Transaction, associate_pdu, enqueue_pdu, start_worker, send_transaction,
  transaction_accepted, get_pending_from_database,
}
use dendrite.Federation.Delivery.{
  Run, IsSafe, Run-IsSafe, start, after, enqueues_pdu, starts, sends, others_associate,
  others_clean, others_associated, others_cleaned,
}
use dendrite.Federation.Memory.{IsBounded, Run-IsBounded, transaction_accepted-pending}
use dendrite.Federation.Starved.{get_pending_from_database-starves}

abbrev fresh : ServerStatistics
fresh = for_server false

abbrev hourly : ℕ → ℤ
hourly n = pos (3600000000000 * n)

fail_times-blacklisted_example :
    let f = fail_times 2 hourly 2 (success fresh) in
    (f.backoff_count ≡ 2) × (f.blacklisted ≡ leb 2 2)
unfolding for_server
fail_times-blacklisted_example =
    fail_times-blacklisted 2 hourly 2 fresh (omega arith) (omega arith) (omega arith) refl

failure-doubles_lem : (failure 16 (pos 5) fresh).0 ≡ (at (pos 5 +ℤ pos (1000000000 * 2 ^ 1)), false)
unfolding for_server
failure-doubles_lem =
    failure-doubles 16 (pos 5) 0 fresh (omega arith) (omega arith) refl refl refl
      (λ until h. ground (arith, h))

abbrev later : List Event
later = fails (pos 20) ∷ wait_ends ∷ fails (pos 30) ∷ []

success-after_blacklist_example :
    let t = happens 1 later (success (failure 1 (pos 5) fresh).1) in
    (t.blacklisted ≡ false) × (t.backoff_count ≡ 0)
unfolding for_server
success-after_blacklist_example = success-after_blacklist 1 (pos 5) later fresh refl refl refl

abbrev empty : Queue String String
empty = record {
  pdu_store = record { rows = []; json = (4, "pdu") ∷ [] };
  edu_store = record { rows = []; json = [] };
  running = false;
  overflowed = false;
  statistics = fresh;
  transaction_id = "";
  pending_pdus = [];
  pending_edus = [];
  in_flight = none;
  accepted_pdus = [];
  accepted_edus = [];
}

abbrev here : String
here = "one.example"

abbrev associated : Queue String String
associated = (associate_pdu here 4 empty).0

abbrev sent : Queue String String
sent = send_transaction "1-0" (start_worker (enqueue_pdu 4 "pdu" associated))

sending : Run here associated sent
unfolding associate_pdu start_worker enqueue_pdu for_server
sending = after (after (after start (enqueues_pdu 4 "pdu")) starts) (sends "1-0" refl)

abbrev accepted : Queue String String
accepted = transaction_accepted here true true sent

-- Another server has accepted the same PDU in the meantime, and cleans up.
abbrev shared : Queue String String
shared = others_cleaned "two.example" (4 ∷ []) (others_associated "two.example" 4 sent)

sharing : Run here associated shared
sharing =
    after (after sending (others_associate "two.example" 4))
      (others_clean "two.example" (4 ∷ []) refl)

Run-IsSafe_example : IsSafe here 4 "pdu" shared
unfolding associate_pdu associate lookup has_row
Run-IsSafe_example = Run-IsSafe here 4 "pdu" associated shared sharing (refl, refl)

Run-IsBounded_example : IsBounded sent
unfolding associate_pdu
Run-IsBounded_example = Run-IsBounded here associated sent sending (omega arith, omega arith, tt)

abbrev one_pdu : Transaction String String
one_pdu = record { transaction_id = "1-0"; pdus = (4, "pdu") ∷ []; edus = [] }

transaction_accepted-pending_example :
    (sent.pending_pdus ≡ one_pdu.pdus ++ (transaction_accepted here true true sent).pending_pdus)
    × (sent.pending_edus ≡ one_pdu.edus ++ (transaction_accepted here true true sent).pending_edus)
unfolding send_transaction start_worker enqueue_pdu associate_pdu for_server
transaction_accepted-pending_example =
    transaction_accepted-pending here true true one_pdu sent Run-IsBounded_example refl

-- `n` PDUs, the last numbered first.
abbrev numbered : ℕ → ℕ → List (ℕ × String)
numbered from zero = []
numbered from (suc n) = (from, "pdu") ∷ numbered (suc from) n

abbrev rows_of : List (ℕ × String) → List (String × ℕ)
rows_of [] = []
rows_of ((nid, p) ∷ l) = (here, nid) ∷ rows_of l

-- 200 PDUs wait, the first 100 of them in memory.
abbrev overflowing : Queue String String
overflowing = record empty {
  pdu_store = record { rows = rows_of (numbered 1 200); json = numbered 1 200 };
  overflowed = true;
  pending_pdus = numbered 1 100;
}

get_pending_from_database-starves_example :
    get_pending_from_database here true true overflowing ≡ record overflowing { overflowed = false }
unfolding nids_of payloads get_pending lookup
get_pending_from_database-starves_example =
    get_pending_from_database-starves here overflowing (omega arith) (omega arith) refl refl
