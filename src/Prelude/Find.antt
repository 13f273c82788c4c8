-- ===== src/Prelude/Find.antt =====
-- The first member of a list that a partial function is defined on, with what was passed over.
use mathlib.Core.Path.{◌≡◌, refl, ap}
use mathlib.Core.Logic.{◌↔◌, inl, inr}
use mathlib.Core.Option.{Option, none, some}
use mathlib.Core.List.{List, [], ◌∷◌, ◌++◌}
use native.Mathlib.Omega.{arith}
use lametrader.Prelude.Tests.{Option-cases}
use lametrader.Prelude.Lists.{All}

module _ {A B : Type 0} where
  unfoldable pub find_map : (A → Option B) → List A → Option B
  find_map g [] = none
  find_map g (x ∷ xs) = let rest = find_map g xs in elim (g x) [ none ↦ rest | some b ↦ some b ]

  -- `xs` is `before`, then `at` with the value `b`, then `after`; no value before that.
  pub record Found (g : A → Option B) (xs : List A) (b : B) : Type 0 where
    pub before : List A
    pub at : A
    pub after : List A
    pub split : xs ≡ before ++ (at ∷ after)
    pub skipped : All (λ x. g x ≡ none) before
    pub found : g at ≡ some b

  Found-cons :
      {g : A → Option B} {xs : List A} {b : B} (x : A)
      → g x ≡ none
      → Found g xs b
      → Found g (x ∷ xs) b
  Found-cons x e r = record {
    before = x ∷ r.before;
    at = r.at;
    after = r.after;
    split = ap (◌∷◌ x) r.split;
    skipped = (e, r.skipped);
    found = r.found;
  }

  find_map_sound : (g : A → Option B) (xs : List A) {b : B} → find_map g xs ≡ some b → Found g xs b
  unfolding find_map
  find_map_sound g [] h = cc
  find_map_sound g (x ∷ xs) h = elim (Option-cases (g x)) [
    | inl e ↦ Found-cons x e (find_map_sound g xs (ground arith))
    | inr (b', e) ↦ record {
      before = [];
      at = x;
      after = xs;
      split = refl;
      skipped = tt;
      found = ground arith;
    }
  ]

  find_map_split :
      (g : A → Option B) (before after : List A) (at : A) {b : B}
      → All (λ x. g x ≡ none) before
      → g at ≡ some b
      → find_map g (before ++ (at ∷ after)) ≡ some b
  unfolding find_map
  find_map_split g [] after at s h = ground arith
  find_map_split g (x ∷ before) after at s h =
      ground (arith, find_map_split g before after at s.1 h)

  pub find_map_iff :
      (g : A → Option B) (xs : List A) (b : B) → (find_map g xs ≡ some b) ↔ Found g xs b
  find_map_iff g xs b = (
    find_map_sound g xs,
    λ r. rw r.split (find_map_split g r.before r.after r.at r.skipped r.found),
  )
