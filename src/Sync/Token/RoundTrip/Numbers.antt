-- ===== src/Sync/Token/RoundTrip/Numbers.antt =====
-- Decimal numbers as tokens hold them (syncapi/types/types.go).
use dendrite.Base.{
  ℕ, zero, suc, ◌+◌, ◌-◌, ◌*◌, ◌/◌, ◌%◌, ◌^◌, ◌≤◌, ◌<◌, ◌≡◌, ◌⊎◌, ◌≢◌, inl, inr, refl, ◌∙◌, true,
  false, List, [], ◌∷◌, ◌++◌, Option, none, some, if◌then◌else◌, ok, arith, All,
}
use dendrite.Base.Int.{ℤ, pos, negsuc, ◌≤ℤ◌, neg_part, pos_part}
use dendrite.Sync.Token.Text.{decimal, show, digits, natural, atoi, is_digit, in_int64}

-- The integers that an int64 holds.
abbrev pub InRange : ℤ → Type 0
InRange z = (pos_part z < 2 ^ 63) × (neg_part z ≤ 2 ^ 63)

abbrev pub IsDigit : ℕ → Type 0
IsDigit c = (48 ≤ c) × (c ≤ 57)

-- A digit or a minus sign.
abbrev pub IsPlain : ℕ → Type 0
IsPlain c = (c ≡ 45) ⊎ IsDigit c

pub All-append {ℓ κ} :
    {A : Type ℓ} (P : A → Type κ) (xs ys : List A) → All P xs → All P ys → All P (xs ++ ys)
All-append P [] ys h k = k
All-append P (x ∷ xs) ys h k = (h.0, All-append P xs ys h.1 k)

pub All-mono {ℓ κ} :
    {A : Type ℓ} {P Q : A → Type κ} (f : (a : A) → P a → Q a) (xs : List A) → All P xs → All Q xs
All-mono f [] h = tt
All-mono f (x ∷ xs) h = (f x h.0, All-mono f xs h.1)

abbrev next_digit : ℕ → Option ℕ → Option ℕ
next_digit c none = none
next_digit c (some v) = if is_digit c then some (v * 10 + (c - 48)) else none

digits-append :
    (acc : ℕ) (xs : List ℕ) (c : ℕ) → digits acc (xs ++ c ∷ []) ≡ next_digit c (digits acc xs)
unfolding digits
digits-append acc [] c = refl
digits-append acc (x ∷ xs) c = ground (arith, digits-append (acc * 10 + (x - 48)) xs c)

digits-decimal : (f n : ℕ) → n < f → digits 0 (decimal f n) ≡ some n
unfolding decimal digits
digits-decimal zero n h = elim h [ ]
digits-decimal (suc f) n h =
    ground (arith, digits-append 0 (decimal f (n / 10)) (48 + n % 10), digits-decimal f (n / 10))

decimal-IsDigit : (f n : ℕ) → All IsDigit (decimal f n)
unfolding decimal
decimal-IsDigit zero n = tt
decimal-IsDigit (suc f) n = ground (
  arith,
  All-append IsDigit (decimal f (n / 10)) ((48 + n % 10) ∷ []) (decimal-IsDigit f (n / 10))
      ((omega arith, omega arith), tt),
)

append-ne-nil : (xs : List ℕ) (c : ℕ) → (xs ++ c ∷ []) ≢ []
append-ne-nil [] c h = cc
append-ne-nil (x ∷ xs) c h = cc

decimal-ne-nil : (f n : ℕ) → n < f → decimal f n ≢ []
unfolding decimal
decimal-ne-nil zero n h e = elim h [ ]
decimal-ne-nil (suc f) n h e = ground (arith, append-ne-nil (decimal f (n / 10)) (48 + n % 10))

atoi-digits : (xs : List ℕ) → All IsDigit xs → xs ≢ [] → atoi xs ≡ in_int64 false (digits 0 xs)
unfolding atoi
atoi-digits [] h e = absurd (e refl)
atoi-digits (x ∷ xs) h e = ground arith

natural-digits : (xs : List ℕ) → xs ≢ [] → natural xs ≡ digits 0 xs
unfolding natural
natural-digits [] e = absurd (e refl)
natural-digits (x ∷ xs) e = refl

atoi_minus : (xs : List ℕ) → xs ≢ [] → atoi (45 ∷ xs) ≡ in_int64 true (digits 0 xs)
unfolding atoi
atoi_minus xs e = rw (natural-digits xs e)

-- An int64 is read back from its decimal text.
pub atoi-show : (z : ℤ) → InRange z → atoi (show z) ≡ ok z
unfolding show
atoi-show (pos n) h =
    atoi-digits (decimal (suc n) n) (decimal-IsDigit (suc n) n)
      (decimal-ne-nil (suc n) n (omega arith))
    ∙ rw (digits-decimal (suc n) n (omega arith)) (ground arith)
atoi-show (negsuc n) h =
    atoi_minus (decimal (suc (suc n)) (suc n)) (decimal-ne-nil (suc (suc n)) (suc n) (omega arith))
    ∙ rw (digits-decimal (suc (suc n)) (suc n) (omega arith)) (ground arith)

pub show-IsPlain : (z : ℤ) → All IsPlain (show z)
unfolding show
show-IsPlain (pos n) = All-mono (λ c p. inr p) (decimal (suc n) n) (decimal-IsDigit (suc n) n)
show-IsPlain (negsuc n) = (
  inl refl,
  All-mono (λ c p. inr p) (decimal (suc (suc n)) (suc n)) (decimal-IsDigit (suc (suc n)) (suc n)),
)

pub show-IsDigit : (z : ℤ) → pos 0 ≤ℤ z → All IsDigit (show z)
unfolding show
show-IsDigit (pos n) h = decimal-IsDigit (suc n) n
show-IsDigit (negsuc n) h = absurd (omega arith)
