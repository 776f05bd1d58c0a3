-- ===== src/Prelude/Eq.antt =====
-- Python's `==` as an interface: a Boolean test that decides equality of values.
use mathlib.Core.Path.{◌≡◌, refl}
use mathlib.Core.Logic.{◌↔◌, ◌≢◌}
use mathlib.Core.Bool.{Bool, true, false, ◌&&◌}
use mathlib.Core.List.{List, [], ◌∷◌}
use native.Mathlib.Omega.{arith}
use skepticoin.Prelude.Tests.{◌==◌, ==_iff}
use Prim.Native.Nat.{ℕ}

pub record Eq {ℓ} (A : Type ℓ) : Type ℓ where
  pub test : A → A → Bool
  pub exact : (x y : A) → (test x y ≡ true) ↔ (x ≡ y)

infix 50 ◌≟◌
abbrev pub ◌≟◌ {ℓ} : {A : Type ℓ} ⦃e : Eq A⦄ → A → A → Bool
◌≟◌ ⦃e⦄ x y = e.test x y

module _ {ℓ} {A : Type ℓ} ⦃e : Eq A⦄ where
  pub ≟_refl : (a : A) → (a ≟ a) ≡ true
  ≟_refl a = (e.exact a a).1 refl

  pub ≟_iff : (a b : A) → ((a ≟ b) ≡ true) ↔ (a ≡ b)
  ≟_iff a b = e.exact a b

  pub ≟_ne : (a b : A) → a ≢ b → (a ≟ b) ≡ false
  ≟_ne a b h = ground (arith, e.exact a b)

  abbrev pub list_beq : List A → List A → Bool
  list_beq [] [] = true
  list_beq (x ∷ xs) (y ∷ ys) = e.test x y && list_beq xs ys
  list_beq _ _ = false

  pub list_beq_iff : (xs ys : List A) → (list_beq xs ys ≡ true) ↔ (xs ≡ ys)
  list_beq_iff [] [] = ((λ _. refl), (λ _. refl))
  list_beq_iff (x ∷ xs) (y ∷ ys) = ground (arith, e.exact x y, list_beq_iff xs ys)
  list_beq_iff _ _ = ground arith

instance abbrev pub nat_eq : Eq ℕ
nat_eq = record { test = ◌==◌; exact = ==_iff }

instance abbrev pub list_eq {ℓ} : {A : Type ℓ} ⦃e : Eq A⦄ → Eq (List A)
list_eq = record { test = list_beq; exact = list_beq_iff }
