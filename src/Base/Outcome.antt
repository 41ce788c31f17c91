-- ===== src/Base/Outcome.antt =====
-- Results of code that may fail: a Go function that returns an `error` beside its value.
use mathlib.Core.Path.{◌≡◌, refl}

pub data Result {ℓ} (Err Val : Type ℓ) : Type ℓ where
  err : Err → Result Err Val
  ok : Val → Result Err Val

infixl 5 ◌>>=◌
abbrev pub ◌>>=◌ {ℓ} :
    {Err Val Next : Type ℓ} → Result Err Val → (Val → Result Err Next) → Result Err Next
err e >>= rest = err e
ok v >>= rest = rest v

pub >>=-eq-ok {ℓ} :
    {Err Val Next : Type ℓ} (m : Result Err Val) (rest : Val → Result Err Next) {n : Next}
    → (m >>= rest) ≡ ok n
    → (v : Val) × (m ≡ ok v) × (rest v ≡ ok n)
>>=-eq-ok (ok v) rest h = (v, refl, h)
>>=-eq-ok (err e) rest h = cc

pub ok_inj {ℓ} : {Err Val : Type ℓ} {v w : Val} → ◌≡◌ {A = Result Err Val} (ok v) (ok w) → v ≡ w
ok_inj e = cc
