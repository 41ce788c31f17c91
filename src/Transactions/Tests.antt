-- ===== src/Transactions/Tests.antt =====
-- The theorem about the cache of transactions at a response that one round of cleaning leaves.
use dendrite.Base.{◌≡◌, refl, List, [], ◌∷◌, some, ℕ}
use dendrite.Base.Map.{lookup, insert}
use dendrite.Transactions.{
  Operation, add, tick, run, recent, fetch_transaction, fetch_transaction-recent, add_transaction,
  clean,
}

abbrev history : List (Operation ℕ)
history = tick ∷ add "token" "m2" 4 ∷ add "token" "m1" 3 ∷ []

still_there : fetch_transaction "token" "m1" (run history) ≡ some 3
unfolding fetch_transaction add_transaction clean lookup insert
still_there = refl

fetch_transaction-recent_example :
    fetch_transaction "token" "m1" (run history) ≡ recent 1 "token" "m1" history
fetch_transaction-recent_example = fetch_transaction-recent "token" "m1" history
