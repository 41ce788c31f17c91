-- ===== src/Transactions.antt =====
-- The cache of responses to transactions (internal/transactions/transactions.go). The ticker of
-- `cacheCleanService` is a `clean` among the operations.
use dendrite.Base.{
  ℕ, zero, suc, ◌≡◌, refl, ap, ◌∙◌, Bool, true, false, List, [], ◌∷◌, Option, none, some, String,
  ◌==◌, String_eq, Pair_eq, arith, if◌then◌else◌, Eq,
}
use dendrite.Base.Map.{Map, lookup, insert, lookup-insert}
mod Tests

-- `CacheKey`: the access token and the transaction ID
abbrev pub CacheKey : Type 0
CacheKey = String × String

abbrev pub same_key : CacheKey → CacheKey → Bool
same_key a b = a == b

-- `V` is the type of the responses.
pub record Cache (V : Type 0) : Type 0 where
  pub front : Map CacheKey V
  pub back : Map CacheKey V

module _ {V : Type 0} where
  abbrev pub new : Cache V
  new = record { front = []; back = [] }

  abbrev or_else : Option V → Option V → Option V
  or_else (some v) o = some v
  or_else none o = o

  unfoldable pub fetch_transaction : String → String → Cache V → Option V
  fetch_transaction access_token txn_id t =
      or_else (lookup (access_token, txn_id) t.front) (lookup (access_token, txn_id) t.back)

  unfoldable pub add_transaction : String → String → V → Cache V → Cache V
  add_transaction access_token txn_id res t = record t {
    front = insert (access_token, txn_id) res t.front;
  }

  -- One round of the loop in `cacheCleanService`.
  unfoldable pub clean : Cache V → Cache V
  clean t = record { front = []; back = t.front }

-- What has been done to a cache, the last operation first.
pub data Operation (V : Type 0) : Type 0 where
  add : String → String → V → Operation V
  tick : Operation V

module _ {V : Type 0} where
  abbrev pub apply : Operation V → Cache V → Cache V
  apply (add token txn res) t = add_transaction token txn res t
  apply tick t = clean t

  abbrev pub run : List (Operation V) → Cache V
  run [] = new
  run (o ∷ history) = apply o (run history)

  -- The last response added for a key, when at most so many rounds of cleaning came after it.
  abbrev pub recent : ℕ → String → String → List (Operation V) → Option V
  recent rounds token txn [] = none
  recent rounds token txn (add token' txn' res ∷ history) =
      let rest = recent rounds token txn history in
      if same_key (token', txn') (token, txn) then some res else rest
  recent zero token txn (tick ∷ history) = none
  recent (suc rounds) token txn (tick ∷ history) = recent rounds token txn history

  front-recent :
      (token txn : String) (history : List (Operation V))
      → lookup (token, txn) (run history).front ≡ recent 0 token txn history
  unfolding add_transaction clean lookup
  front-recent token txn [] = refl
  front-recent token txn (add token' txn' res ∷ history) =
      lookup-insert (token', txn') (token, txn) res (run history).front
      ∙ ground (arith, front-recent token txn history)
  front-recent token txn (tick ∷ history) = refl

  or_else-if :
      (c : Bool) (v : V) (o p : Option V)
      → or_else (if c then some v else o) p ≡ (if c then some v else or_else o p)
  or_else-if true v o p = refl
  or_else-if false v o p = refl

  -- Whatever was added and however often the cache was cleaned, a fetch finds the last response that
  -- was added for the token and the transaction, if there was at most one round of cleaning
  -- since, and otherwise nothing.
  pub fetch_transaction-recent :
      (token txn : String) (history : List (Operation V))
      → fetch_transaction token txn (run history) ≡ recent 1 token txn history
  unfolding fetch_transaction add_transaction clean
  fetch_transaction-recent token txn [] = unfold lookup in refl
  fetch_transaction-recent token txn (add token' txn' res ∷ history) =
      ap (λ o. or_else o (lookup (token, txn) (run history).back))
        (lookup-insert (token', txn') (token, txn) res (run history).front)
      ∙ or_else-if (same_key (token', txn') (token, txn)) res _ _
      ∙ ap (λ o. if same_key (token', txn') (token, txn) then some res else o)
          (fetch_transaction-recent token txn history)
  fetch_transaction-recent token txn (tick ∷ history) =
      unfold lookup in front-recent token txn history
