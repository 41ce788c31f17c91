-- ===== src/Federation/Ahead.antt =====
-- The lists of the queue of a destination (federationsender/queue/destinationqueue.go).
use dendrite.Base.{
  ℕ, zero, suc, ◌+◌, ◌-◌, ◌≤◌, ◌<◌, ◌≡◌, refl, sym, ap, ◌∙◌, subst, Bool, true, false, not, ◌&&◌,
  ◌||◌, List, [], ◌∷◌, ◌++◌, Option, none, some, String, arith, take, drop, length, ltb,
  if◌then◌else◌, inl, inr, Bool-cases, take-append-drop, length-append, length-take, All,
}
use dendrite.Federation.Store.{Store, nids_of, get_pending, payloads}
use dendrite.Federation.Queue.{receipts, not_got, refill}

module _ {A : Type 0} where
  length-payloads :
      (json : dendrite.Base.Map.Map ℕ A) (nids : List ℕ) → length (payloads json nids) ≤ length nids
  unfolding payloads
  length-payloads json [] = omega arith
  length-payloads json (n ∷ nids) = ground (arith, length-payloads json nids)

  length-get_pending :
      (destination : String) (limit : ℕ) (s : Store A)
      → length (get_pending destination limit s) ≤ limit
  unfolding get_pending
  length-get_pending destination limit s = omega (
    arith,
    length-payloads s.json (take limit (nids_of destination s.rows)),
    length-take limit (nids_of destination s.rows),
  )

  length-not_got : (got : List ℕ) (l : List (ℕ × A)) → length (not_got got l) ≤ length l
  unfolding not_got
  length-not_got got [] = omega arith
  length-not_got got ((n, a) ∷ l) = ground (arith, length-not_got got l)

  pub length-refill :
      (destination : String) (max : ℕ) (ok : Bool) (s : Store A) (pending : List (ℕ × A))
      → length pending ≤ max
      → length (refill destination max ok s pending) ≤ max
  unfolding refill
  length-refill destination max ok s pending h =
      let got = get_pending destination (max - length pending) s in
      ground (
        arith,
        h,
        length-append pending (not_got (receipts pending) got),
        length-not_got (receipts pending) got,
        length-get_pending destination (max - length pending) s,
      )

  -- What is in flight stands at the head of what is pending, and is short enough.
  abbrev pub IsAhead : List (ℕ × A) → List (ℕ × A) → Type 0
  IsAhead sent pending = (length sent ≤ 50) × ((rest : List (ℕ × A)) × (pending ≡ sent ++ rest))

  append_assoc : (x y z : List (ℕ × A)) → (x ++ y) ++ z ≡ x ++ (y ++ z)
  append_assoc [] y z = refl
  append_assoc (a ∷ x) y z = ap (◌∷◌ a) (append_assoc x y z)

  pub append-IsAhead :
      (sent pending more : List (ℕ × A)) → IsAhead sent pending → IsAhead sent (pending ++ more)
  append-IsAhead sent pending more (l, (rest, e)) =
      (l, (rest ++ more, ap (λ p. p ++ more) e ∙ append_assoc sent rest more))

  pub take-IsAhead : (pending : List (ℕ × A)) → IsAhead (take 50 pending) pending
  take-IsAhead pending =
      (omega (arith, length-take 50 pending), (drop 50 pending, sym (take-append-drop 50 pending)))

  drop-append : (x y : List (ℕ × A)) → drop (length x) (x ++ y) ≡ y
  drop-append [] y = refl
  drop-append (a ∷ x) y = drop-append x y

  pub drop-IsAhead :
      (sent pending : List (ℕ × A))
      → IsAhead sent pending
      → pending ≡ sent ++ drop (length sent) pending
  drop-IsAhead sent pending (l, (rest, e)) =
      e ∙ ap (λ r. sent ++ r) (sym (ap (drop (length sent)) e ∙ drop-append sent rest))

  pub length-drop : (n : ℕ) (l : List (ℕ × A)) → length (drop n l) ≤ length l
  length-drop zero l = omega arith
  length-drop (suc n) [] = omega arith
  length-drop (suc n) (x ∷ l) = omega (arith, length-drop n l)

  pub append-nil : (l : List (ℕ × A)) → l ++ [] ≡ l
  append-nil [] = refl
  append-nil (x ∷ l) = ap (◌∷◌ x) (append-nil l)
