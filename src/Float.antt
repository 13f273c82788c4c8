-- ===== src/Float.antt =====
-- JavaScript's `number` where it is a price, a quantity or a state value: a type `N` with the
-- operations that the source applies, each a parameter. No law of arithmetic is built in: what a
-- theorem needs of the operations is a hypothesis of that theorem. Times, counts and list
-- positions are whole numbers and are the native ℕ instead.
pub mod Integers
use Prim.Native.Nat.{ℕ}
use mathlib.Core.Bool.{Bool}

pub record Float (N : Type 0) : Type 0 where
  pub add : N → N → N
  pub sub : N → N → N
  pub mul : N → N → N
  pub div : N → N → N
  pub neg : N → N
  -- `Math.sign`
  pub sign : N → N
  -- `<`, `<=` and `===`
  pub lt : N → N → Bool
  pub le : N → N → Bool
  pub same : N → N → Bool
  -- `Number.isNaN`
  pub is_nan : N → Bool
  -- a whole number in the source
  pub lit : ℕ → N

-- `Math.max`, `Math.min` and `Number.POSITIVE_INFINITY`.
pub record Extremes (N : Type 0) : Type 0 where
  pub max : N → N → N
  pub min : N → N → N
  pub infinity : N
