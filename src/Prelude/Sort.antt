-- ===== src/Prelude/Sort.antt =====
-- `Array.prototype.sort`, which is stable, with the comparison as a test.
use mathlib.Core.Path.{◌≡◌}
use mathlib.Core.Logic.{◌↔◌, ◌⊎◌, inl, inr}
use mathlib.Core.Bool.{Bool, true, false}
use mathlib.Core.List.{List, [], ◌∷◌}
use lametrader.Prelude.Tests.{if◌then◌else◌, Bool-cases}
use lametrader.Prelude.Lists.{All, In}
use lametrader.Prelude.Sums.{or_map_right, or_left_comm}

module _ {A : Type 0} (le : A → A → Bool) where
  unfoldable pub insert_by : A → List A → List A
  insert_by x [] = x ∷ []
  insert_by x (y ∷ ys) = let later = insert_by x ys in if le x y then x ∷ y ∷ ys else y ∷ later

  unfoldable pub sort_by : List A → List A
  unfolding insert_by
  sort_by [] = []
  sort_by (x ∷ xs) = insert_by x (sort_by xs)

  insert_by-In : (x a : A) (ys : List A) → In a (insert_by x ys) → (a ≡ x) ⊎ In a ys
  unfolding insert_by
  insert_by-In x a [] h = h
  insert_by-In x a (y ∷ ys) h = elim (Bool-cases (le x y)) [
    | inl e ↦ rw (e, insert_by) at h
    | inr e ↦ or_left_comm (or_map_right (insert_by-In x a ys) (rw (e, insert_by) at h))
  ]

  In-insert_by : (x a : A) (ys : List A) → (a ≡ x) ⊎ In a ys → In a (insert_by x ys)
  unfolding insert_by
  In-insert_by x a [] h = h
  In-insert_by x a (y ∷ ys) h = elim (Bool-cases (le x y)) [
    | inl e ↦ rw (e, insert_by) h
    | inr e ↦ rw (e, insert_by) (or_map_right (In-insert_by x a ys) (or_left_comm h))
  ]

  sort_by-In : (a : A) (xs : List A) → In a (sort_by xs) → In a xs
  unfolding sort_by
  sort_by-In a [] h = h
  sort_by-In a (x ∷ xs) h = or_map_right (sort_by-In a xs) (insert_by-In x a (sort_by xs) h)

  In-sort_by : (a : A) (xs : List A) → In a xs → In a (sort_by xs)
  unfolding sort_by
  In-sort_by a [] h = h
  In-sort_by a (x ∷ xs) h = In-insert_by x a (sort_by xs) (or_map_right (In-sort_by a xs) h)

  -- Sorting keeps the members.
  pub sort_by-mem : (a : A) (xs : List A) → In a (sort_by xs) ↔ In a xs
  sort_by-mem a xs = (sort_by-In a xs, In-sort_by a xs)

  All-insert_by : (P : A → Type 0) (x : A) (ys : List A) → P x → All P ys → All P (insert_by x ys)
  unfolding insert_by
  All-insert_by P x [] p h = (p, tt)
  All-insert_by P x (y ∷ ys) p h = elim (Bool-cases (le x y)) [
    | inl e ↦ rw (e, insert_by) (p, h)
    | inr e ↦ rw (e, insert_by) (h.0, All-insert_by P x ys p h.1)
  ]

  pub All-sort_by : (P : A → Type 0) (xs : List A) → All P xs → All P (sort_by xs)
  unfolding sort_by
  All-sort_by P [] h = tt
  All-sort_by P (x ∷ xs) h = All-insert_by P x (sort_by xs) h.0 (All-sort_by P xs h.1)

module _ {A : Type 0} (R : A → A → Type 0) where
  -- Each member is related to every later one.
  abbrev pub Pairwise : List A → Type 0
  Pairwise [] = Unit
  Pairwise (x ∷ xs) = All (R x) xs × Pairwise xs

-- A list whose members are related by `D` in one way or another comes out of the sort related by
-- `R`, which the test decides among them.
module _ {A : Type 0} (le : A → A → Bool) (R D : A → A → Type 0)
    (goes_first : (x y : A) → D x y → le x y ≡ true → R x y)
    (goes_after : (x y : A) → D x y → le x y ≡ false → R y x)
    (R-trans : (x y z : A) → R x y → R y z → R x z) where
  All-trans : (x y : A) (zs : List A) → R x y → All (R y) zs → All (R x) zs
  All-trans x y [] r h = tt
  All-trans x y (z ∷ zs) r h = (R-trans x y z r h.0, All-trans x y zs r h.1)

  insert_by-Pairwise :
      (x : A) (ys : List A) → All (D x) ys → Pairwise R ys → Pairwise R (insert_by le x ys)
  unfolding insert_by
  insert_by-Pairwise x [] d h = (tt, tt)
  insert_by-Pairwise x (y ∷ ys) d h = elim (Bool-cases (le x y)) [
    | inl e ↦ let r = goes_first x y d.0 e in rw (e, insert_by) ((r, All-trans x y ys r h.0), h)
    | inr e ↦
        rw (e, insert_by)
          (All-insert_by le (R y) x ys (goes_after x y d.0 e) h.0, insert_by-Pairwise x ys d.1 h.1)
  ]

  pub sort_by-Pairwise : (xs : List A) → Pairwise D xs → Pairwise R (sort_by le xs)
  unfolding sort_by
  sort_by-Pairwise [] h = tt
  sort_by-Pairwise (x ∷ xs) h =
      insert_by-Pairwise x (sort_by le xs) (All-sort_by le (D x) xs h.0) (sort_by-Pairwise xs h.1)

module _ {A : Type 0} where
  All_unit : (xs : List A) → All (λ x. Unit {0}) xs
  All_unit [] = tt
  All_unit (x ∷ xs) = (tt, All_unit xs)

  -- Where the test is a total order, nothing is asked of the list.
  pub Pairwise-unit : (xs : List A) → Pairwise (λ x y. Unit {0}) xs
  Pairwise-unit [] = tt
  Pairwise-unit (x ∷ xs) = (All_unit xs, Pairwise-unit xs)
