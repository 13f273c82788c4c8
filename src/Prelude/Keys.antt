-- ===== src/Prelude/Keys.antt =====
-- Equality tests as an interface, with the instances for numbers and texts.
use Prim.Native.Nat.{ℕ}
use Prim.Native.String.{String}
use mathlib.Core.Path.{◌≡◌, refl}
use mathlib.Core.Logic.{◌↔◌}
use mathlib.Core.Bool.{Bool, true}
use text.Mathlib.Text.{◌==◌ as str_eq}
use text.Mathlib.TextEquality.{eq_iff}
use lametrader.Prelude.Tests.{nat_beq, nat_beq_iff}

-- A type whose values can be told apart, as keys of a map are.
pub record Keyed {κ} (K : Type κ) : Type κ where
  pub is_same : K → K → Bool
  pub is_same_iff : (j k : K) → (is_same j k ≡ true) ↔ (j ≡ k)

instance abbrev pub text_keyed : Keyed String
text_keyed = record { is_same = str_eq; is_same_iff = eq_iff }

instance abbrev pub number_keyed : Keyed ℕ
number_keyed = record { is_same = nat_beq; is_same_iff = nat_beq_iff }

-- `===` on keys.
infix 50 ◌==◌
abbrev pub ◌==◌ {κ} : {K : Type κ} ⦃keyed : Keyed K⦄ → K → K → Bool
◌==◌ ⦃keyed⦄ j k = keyed.is_same j k

module _ {ℓ} {A : Type ℓ} ⦃e : Keyed A⦄ where
  pub ==_iff : (a b : A) → ((a == b) ≡ true) ↔ (a ≡ b)
  ==_iff a b = e.is_same_iff a b

  pub ==_refl : (a : A) → (a == a) ≡ true
  ==_refl a = (e.is_same_iff a a).1 refl
