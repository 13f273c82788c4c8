-- ===== src/Prelude/Sums.antt =====
-- Rearranging alternatives.
use mathlib.Core.Logic.{◌⊎◌, inl, inr}

module _ {ℓ κ μ} {A : Type ℓ} {B : Type κ} {C : Type μ} where
  pub or_map_right : (B → C) → A ⊎ B → A ⊎ C
  or_map_right g (inl a) = inl a
  or_map_right g (inr b) = inr (g b)

  pub or_left_comm : A ⊎ (B ⊎ C) → B ⊎ (A ⊎ C)
  or_left_comm (inl a) = inr (inl a)
  or_left_comm (inr (inl b)) = inl b
  or_left_comm (inr (inr c)) = inr (inr c)
