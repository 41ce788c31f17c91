-- ===== src/Base/Keys.antt =====
-- Types whose values the program compares by `==`: texts, numbers and pairs of such.
use Prim.Native.Nat.{ℕ}
use Prim.Native.String.{String}
use mathlib.Core.Path.{◌≡◌, refl}
use mathlib.Core.Logic.{◌↔◌}
use mathlib.Core.Bool.{Bool, true, false, ◌&&◌}
use mathlib.Core.List.{List, [], ◌∷◌}
use native.Mathlib.Omega.{arith}
use text.Mathlib.Text.{◌==◌ as str_eq}
use text.Mathlib.TextEquality.{eq_iff}
use dendrite.Base.Tests.{nat_eq, nat_eq_iff}

pub record Eq {ℓ} (K : Type ℓ) : Type ℓ where
  pub beq : K → K → Bool
  pub beq_iff : (x y : K) → (beq x y ≡ true) ↔ (x ≡ y)

instance abbrev pub String_eq : Eq String
String_eq = record { beq = str_eq; beq_iff = eq_iff }

instance abbrev pub ℕ_eq : Eq ℕ
ℕ_eq = record { beq_iff = nat_eq_iff; beq = nat_eq }

infix 50 ◌==◌
abbrev pub ◌==◌ {ℓ} : {K : Type ℓ} ⦃keys : Eq K⦄ (x y : K) → Bool
◌==◌ ⦃keys⦄ x y = keys.beq x y

abbrev pub pair_beq {ℓ} : {A B : Type ℓ} (x : Eq A) (y : Eq B) → A × B → A × B → Bool
pair_beq x y (a, b) (c, d) = x.beq a c && y.beq b d

pub pair_beq_iff {ℓ} :
    {A B : Type ℓ} (x : Eq A) (y : Eq B) (p q : A × B) → (pair_beq x y p q ≡ true) ↔ (p ≡ q)
pair_beq_iff x y (a, b) (c, d) = ground (arith, x.beq_iff a c, y.beq_iff b d)

instance abbrev pub Pair_eq {ℓ} : {A B : Type ℓ} ⦃x : Eq A⦄ ⦃y : Eq B⦄ → Eq (A × B)
Pair_eq ⦃x⦄ ⦃y⦄ = record { beq = pair_beq x y; beq_iff = pair_beq_iff x y }

abbrev pub list_beq {ℓ} : {A : Type ℓ} (x : Eq A) → List A → List A → Bool
list_beq x [] [] = true
list_beq x [] (b ∷ m) = false
list_beq x (a ∷ l) [] = false
list_beq x (a ∷ l) (b ∷ m) = x.beq a b && list_beq x l m

pub list_beq_iff {ℓ} : {A : Type ℓ} (x : Eq A) (l m : List A) → (list_beq x l m ≡ true) ↔ (l ≡ m)
list_beq_iff x [] [] = (λ e. refl, λ e. refl)
list_beq_iff x [] (b ∷ m) = ground arith
list_beq_iff x (a ∷ l) [] = ground arith
list_beq_iff x (a ∷ l) (b ∷ m) = ground (arith, x.beq_iff a b, list_beq_iff x l m)

instance abbrev pub List_eq {ℓ} : {A : Type ℓ} ⦃x : Eq A⦄ → Eq (List A)
List_eq ⦃x⦄ = record { beq = list_beq x; beq_iff = list_beq_iff x }

pub ==_refl {ℓ} : {A : Type ℓ} ⦃e : Eq A⦄ (a : A) → (a == a) ≡ true
==_refl ⦃e⦄ a = (e.beq_iff a a).1 refl
