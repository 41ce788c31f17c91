-- ===== src/Sync/Token/RoundTrip/Parts.antt =====
-- Splitting a text at a separator.
use dendrite.Base.{ℕ, ◌≡◌, ◌≢◌, refl, List, [], ◌∷◌, ◌++◌, arith, All}
use dendrite.Sync.Token.Text.{split}

pub split-append :
    (sep : ℕ) (xs ys : List ℕ)
    → All (λ c. c ≢ sep) xs
    → split sep (xs ++ sep ∷ ys) ≡ xs ∷ split sep ys
unfolding split
split-append sep [] ys h = ground arith
split-append sep (x ∷ xs) ys h = ground (arith, split-append sep xs ys h.1, h.0)

pub split_last : (sep : ℕ) (xs : List ℕ) → All (λ c. c ≢ sep) xs → split sep xs ≡ xs ∷ []
unfolding split
split_last sep [] h = refl
split_last sep (x ∷ xs) h = ground (arith, split_last sep xs h.1, h.0)
