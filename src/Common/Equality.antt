-- ===== src/Common/Equality.antt =====
-- The interface of `PartialEq`: a Boolean test that decides equality.
use mathlib.Core.Path.{◌≡◌, refl}
use mathlib.Core.Logic.{◌↔◌, inl, inr}
use mathlib.Core.Bool.{Bool, true, false, decide}
use Prim.Native.Nat.{ℕ}
use metalbond_rs.Common.Tests.{Bool-cases, nat_beq, nat_beq_iff}

pub record PartialEq {ℓ} (A : Type ℓ) : Type ℓ where
  pub eq : A → A → Bool
  pub eq_iff : (a b : A) → (eq a b ≡ true) ↔ (a ≡ b)

decide_iff {ℓ} : {P : Type ℓ} (d : Dec P) → (decide d ≡ true) ↔ P
unfolding decide
decide_iff (yes p) = (λ _. p, λ _. refl)
decide_iff (no p) = (λ e. cc, λ q. absurd (p q))

pub discrete_iff {ℓ} : {A : Type ℓ} (d : Discrete A) (a b : A) → (decide (d a b) ≡ true) ↔ (a ≡ b)
discrete_iff d a b = decide_iff (d a b)

infix 50 ◌==◌
abbrev pub ◌==◌ {ℓ} : {A : Type ℓ} ⦃e : PartialEq A⦄ → A → A → Bool
◌==◌ ⦃e⦄ = e.eq

pub ==_iff {ℓ} : {A : Type ℓ} ⦃e : PartialEq A⦄ (a b : A) → ((a == b) ≡ true) ↔ (a ≡ b)
==_iff ⦃e⦄ = e.eq_iff

pub ==_self {ℓ} : {A : Type ℓ} ⦃e : PartialEq A⦄ (a : A) → (a == a) ≡ true
==_self ⦃e⦄ a = (e.eq_iff a a).1 refl

pub ==_false {ℓ} : {A : Type ℓ} ⦃e : PartialEq A⦄ (a b : A) → ¬ (a ≡ b) → (a == b) ≡ false
==_false ⦃e⦄ a b q = elim (Bool-cases (e.eq a b)) [
  | inl t ↦ absurd (q ((e.eq_iff a b).0 t))
  | inr f ↦ f
]

-- The derived equality of a type whose equality is decidable.
abbrev pub of_discrete {ℓ} : {A : Type ℓ} → Discrete A → PartialEq A
of_discrete d = record { eq = λ a b. decide (d a b); eq_iff = discrete_iff d }

instance abbrev pub nat_eq : PartialEq ℕ
nat_eq = record { eq = nat_beq; eq_iff = nat_beq_iff }
