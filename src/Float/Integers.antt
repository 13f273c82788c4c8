-- ===== src/Float/Integers.antt =====
-- An instance of the operations for the concrete checks: signed integers, with a quotient that
-- is cut towards zero.
use Prim.Native.Nat.{ℕ, suc, ◌+◌, ◌-◌, ◌*◌, ◌/◌}
use mathlib.Core.Bool.{false}
use lametrader.Prelude.{leb, ltb, nat_beq, if◌then◌else◌}
use lametrader.Float.{Float}

-- `negsuc n` is -(n + 1).
pub data ℤ : Type 0 where
  pos : ℕ → ℤ
  negsuc : ℕ → ℤ

abbrev pub pos_part : ℤ → ℕ
pos_part (pos n) = n
pos_part (negsuc n) = 0

abbrev pub neg_part : ℤ → ℕ
neg_part (pos n) = 0
neg_part (negsuc n) = suc n

-- a - b, as an integer.
abbrev pub sub_ℕ : ℕ → ℕ → ℤ
sub_ℕ a b = if leb b a then pos (a - b) else negsuc (b - a - 1)

abbrev div_ℤ : ℤ → ℤ → ℤ
div_ℤ (pos a) (pos b) = pos (a / b)
div_ℤ (pos a) (negsuc b) = sub_ℕ 0 (a / suc b)
div_ℤ (negsuc a) (pos b) = sub_ℕ 0 (suc a / b)
div_ℤ (negsuc a) (negsuc b) = pos (suc a / suc b)

abbrev sign_ℤ : ℤ → ℤ
sign_ℤ (pos n) = if nat_beq n 0 then pos 0 else pos 1
sign_ℤ (negsuc n) = negsuc 0

instance abbrev pub int_float : Float ℤ
int_float = record {
  add = λ a b. sub_ℕ (pos_part a + pos_part b) (neg_part a + neg_part b);
  sub = λ a b. sub_ℕ (pos_part a + neg_part b) (neg_part a + pos_part b);
  mul = λ a b.
      sub_ℕ (pos_part a * pos_part b + neg_part a * neg_part b)
        (pos_part a * neg_part b + neg_part a * pos_part b);
  div = div_ℤ;
  neg = λ a. sub_ℕ (neg_part a) (pos_part a);
  sign = sign_ℤ;
  lt = λ a b. ltb (pos_part a + neg_part b) (pos_part b + neg_part a);
  le = λ a b. leb (pos_part a + neg_part b) (pos_part b + neg_part a);
  same = λ a b. nat_beq (pos_part a + neg_part b) (pos_part b + neg_part a);
  is_nan = λ a. false;
  lit = pos;
}
