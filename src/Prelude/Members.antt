-- ===== src/Prelude/Members.antt =====
-- Members of lists, by position, against the lists' own tests and filters.
use mathlib.Core.Path.{◌≡◌, sym, ap, ◌∙◌}
use mathlib.Core.Logic.{◌↔◌, inl, inr}
use mathlib.Core.Bool.{Bool, true}
use mathlib.Core.List.{List, [], ◌∷◌}
use native.Mathlib.Omega.{arith}
use lametrader.Prelude.Tests.{Bool-cases}
use lametrader.Prelude.Keys.{Keyed, ◌==◌, ==_iff}
use lametrader.Prelude.Lists.{All, In, filter, includes}

module _ {A : Type 0} where
  pub All-In : (P : A → Type 0) (xs : List A) (a : A) → All P xs → In a xs → P a
  All-In P [] a h i = absurd i
  All-In P (x ∷ xs) a h (inl q) = rw q h.0
  All-In P (x ∷ xs) a h (inr i) = All-In P xs a h.1 i

  pub In-filter : (p : A → Bool) (a : A) (xs : List A) → In a (filter p xs) → In a xs × (p a ≡ true)
  In-filter p a [] h = absurd h
  In-filter p a (x ∷ xs) h = elim (Bool-cases (p x)) [
    | inl e ↦ elim (rw e at h) as (λ o. In a (x ∷ xs) × (p a ≡ true)) [
      | inl q ↦ (inl q, ap p q ∙ e)
      | inr later ↦ let r = In-filter p a xs later in (inr r.0, r.1)
    ]
    | inr e ↦ let r = In-filter p a xs (rw e at h) in (inr r.0, r.1)
  ]

  pub filter-In : (p : A → Bool) (a : A) (xs : List A) → In a xs → p a ≡ true → In a (filter p xs)
  filter-In p a [] h t = h
  filter-In p a (x ∷ xs) (inl q) t = let e : p x ≡ true = sym (ap p q) ∙ t in rw e (inl q)
  filter-In p a (x ∷ xs) (inr h) t = elim (Bool-cases (p x)) [
    | inl e ↦ rw e (inr (filter-In p a xs h t))
    | inr e ↦ rw e (filter-In p a xs h t)
  ]

module _ {A : Type 0} ⦃e : Keyed A⦄ where
  includes-In : (xs : List A) (a : A) → includes xs a ≡ true → In a xs
  includes-In [] a h = cc
  includes-In (x ∷ xs) a h = elim (Bool-cases (x == a)) [
    | inl e ↦ inl (sym ((==_iff x a).0 e))
    | inr e ↦ inr (includes-In xs a (ground arith))
  ]

  In-includes : (xs : List A) (a : A) → In a xs → includes xs a ≡ true
  In-includes [] a h = absurd h
  In-includes (x ∷ xs) a (inl q) = let e = (==_iff x a).1 (sym q) in ground arith
  In-includes (x ∷ xs) a (inr i) = ground (arith, In-includes xs a i)

  pub includes_iff : (xs : List A) (a : A) → (includes xs a ≡ true) ↔ In a xs
  includes_iff xs a = (includes-In xs a, In-includes xs a)
