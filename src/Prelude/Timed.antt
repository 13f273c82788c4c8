-- ===== src/Prelude/Timed.antt =====
-- Lists of things with a time: newest first or oldest first, cut by a bound, and read in pages.
use mathlib.Core.List.{reverse, reverse-cons}
use Prim.Native.Nat.{ℕ, zero, suc, ◌-◌, ◌≤◌, ◌<◌}
use mathlib.Core.Path.{◌≡◌, refl, sym, ap, ◌∙◌}
use mathlib.Core.Logic.{inl, inr}
use mathlib.Core.Bool.{Bool}
use mathlib.Core.List.{List, [], ◌∷◌, ◌++◌, append-nil}
use native.Mathlib.Omega.{arith}
use lametrader.Prelude.Tests.{ltb, leb, Bool-cases}
use lametrader.Prelude.Lists.{length, length-append, take, filter, All, All-append}
use lametrader.Prelude.Sort.{Pairwise}

module _ {A : Type 0} where
  abbrev pub drop : ℕ → List A → List A
  drop zero xs = xs
  drop (suc n) [] = []
  drop (suc n) (x ∷ xs) = drop n xs

  -- `Array.prototype.slice(-n)` for a positive `n`.
  unfoldable pub slice_last : ℕ → List A → List A
  slice_last n xs = drop (length xs - n) xs

  pub take-append-drop : (n : ℕ) (xs : List A) → take n xs ++ drop n xs ≡ xs
  take-append-drop zero xs = refl
  take-append-drop (suc n) [] = refl
  take-append-drop (suc n) (x ∷ xs) = ap (◌∷◌ x) (take-append-drop n xs)

  pub length-take-le : (n : ℕ) (xs : List A) → length (take n xs) ≤ length xs
  length-take-le zero xs = omega arith
  length-take-le (suc n) [] = omega arith
  length-take-le (suc n) (x ∷ xs) = omega (arith, length-take-le n xs)

  pub length_of-take : (n : ℕ) (xs : List A) → n ≤ length (take n xs) → n ≤ length xs
  length_of-take n xs h = omega (arith, length-take-le n xs)

  pub length-drop : (n : ℕ) (xs : List A) → length (drop n xs) ≡ length xs - n
  length-drop zero xs = omega arith
  length-drop (suc n) [] = omega arith
  length-drop (suc n) (x ∷ xs) = omega (arith, length-drop n xs)

  -- A page shorter than it was asked to be is all there is.
  pub take_short : (n : ℕ) (xs : List A) → length (take n xs) < n → take n xs ≡ xs
  take_short zero xs h = absurd (omega arith)
  take_short (suc n) [] h = refl
  take_short (suc n) (x ∷ xs) h = ap (◌∷◌ x) (take_short n xs (omega arith))

  pub drop_short : (n : ℕ) (xs : List A) → length (take n xs) < n → drop n xs ≡ []
  drop_short zero xs h = absurd (omega arith)
  drop_short (suc n) [] h = refl
  drop_short (suc n) (x ∷ xs) h = drop_short n xs (omega arith)

  pub take_all : (n : ℕ) (xs : List A) → length xs ≤ n → take n xs ≡ xs
  take_all zero [] h = refl
  take_all zero (x ∷ xs) h = absurd (omega arith)
  take_all (suc n) [] h = refl
  take_all (suc n) (x ∷ xs) h = ap (◌∷◌ x) (take_all n xs (omega arith))

  take-append : (n : ℕ) (xs ys : List A) → n ≤ length xs → take n (xs ++ ys) ≡ take n xs
  take-append zero xs ys h = refl
  take-append (suc n) [] ys h = absurd (omega arith)
  take-append (suc n) (x ∷ xs) ys h = ap (◌∷◌ x) (take-append n xs ys (omega arith))

  pub length-reverse : (xs : List A) → length (reverse xs) ≡ length xs
  length-reverse [] = refl
  length-reverse (x ∷ xs) =
      rw (reverse-cons x xs) (omega (arith, length-append (reverse xs) (x ∷ []), length-reverse xs))

  drop_none : (k n : ℕ) (x : A) (xs : List A) → suc k ≤ n → drop (suc k - n) (x ∷ xs) ≡ x ∷ xs
  drop_none k n x xs h = let e : suc k - n ≡ 0 = omega arith in rw e refl

  drop_one : (k n : ℕ) (x : A) (xs : List A) → n ≤ k → drop (suc k - n) (x ∷ xs) ≡ drop (k - n) xs
  drop_one k n x xs h = let e : suc k - n ≡ suc (k - n) = omega arith in rw e refl

  -- The last `n`, newest first, are the first `n` of the reverse.
  pub reverse-slice_last : (n : ℕ) (xs : List A) → reverse (slice_last n xs) ≡ take n (reverse xs)
  unfolding slice_last
  reverse-slice_last zero [] = refl
  reverse-slice_last (suc n) [] = let e : 0 - suc n ≡ 0 = omega arith in rw e refl
  reverse-slice_last n (x ∷ xs) = elim (Bool-cases (leb n (length xs))) [
    | inl e ↦
        let le : n ≤ length xs = ground arith in
        let le' : n ≤ length (reverse xs) = omega (arith, length-reverse xs) in
        rw (drop_one (length xs) n x xs le) (
          reverse-slice_last n xs
          ∙ sym (take-append n (reverse xs) (x ∷ []) le')
          ∙ ap (take n) (sym (reverse-cons x xs)))
    | inr e ↦
        let le : suc (length xs) ≤ n = ground arith in
        rw (drop_none (length xs) n x xs le)
          (sym (take_all n (reverse (x ∷ xs)) (omega (arith, length-reverse (x ∷ xs)))))
  ]

  filter-append : (p : A → Bool) (xs ys : List A) → filter p (xs ++ ys) ≡ filter p xs ++ filter p ys
  filter-append p [] ys = refl
  filter-append p (x ∷ xs) ys = ground (arith, filter-append p xs ys)

  pub filter-reverse : (p : A → Bool) (xs : List A) → filter p (reverse xs) ≡ reverse (filter p xs)
  filter-reverse p [] = refl
  filter-reverse p (x ∷ xs) =
      rw (reverse-cons x xs, filter-append p (reverse xs) (x ∷ []), filter-reverse p xs)
        (elim (Bool-cases (p x)) [
          | inl e ↦ rw e (sym (reverse-cons x (filter p xs)))
          | inr e ↦ rw e (append-nil (reverse (filter p xs)))
        ])

  pub length-filter-le : (p : A → Bool) (xs : List A) → length (filter p xs) ≤ length xs
  length-filter-le p [] = omega arith
  length-filter-le p (x ∷ xs) = ground (arith, length-filter-le p xs)

  pub All-filter : (P : A → Type 0) (p : A → Bool) (xs : List A) → All P xs → All P (filter p xs)
  All-filter P p [] h = tt
  All-filter P p (x ∷ xs) h = ground (arith, All-filter P p xs h.1)

module _ {A : Type 0} where
  All-snoc : (P : A → Type 0) (x : A) (xs : List A) → All P xs → P x → All P (xs ++ (x ∷ []))
  All-snoc P x xs h p = All-append P xs (x ∷ []) h (p, tt)

  pub All-reverse : (P : A → Type 0) (xs : List A) → All P xs → All P (reverse xs)
  All-reverse P [] h = tt
  All-reverse P (x ∷ xs) h =
      rw (reverse-cons x xs) (All-snoc P x (reverse xs) (All-reverse P xs h.1) h.0)

module _ {A : Type 0} (R S : A → A → Type 0) (turn : (x y : A) → R x y → S y x) where
  Pairwise-snoc :
      (x : A) (ys : List A) → Pairwise S ys → All (λ y. S y x) ys → Pairwise S (ys ++ (x ∷ []))
  Pairwise-snoc x [] h d = (tt, tt)
  Pairwise-snoc x (y ∷ ys) h d = (All-snoc (S y) x ys h.0 d.0, Pairwise-snoc x ys h.1 d.1)

  All-turn : (x : A) (ys : List A) → All (R x) ys → All (λ y. S y x) ys
  All-turn x [] h = tt
  All-turn x (y ∷ ys) h = (turn x y h.0, All-turn x ys h.1)

  pub Pairwise-reverse : (xs : List A) → Pairwise R xs → Pairwise S (reverse xs)
  Pairwise-reverse [] h = tt
  Pairwise-reverse (x ∷ xs) h = rw (reverse-cons x xs) (
      Pairwise-snoc x (reverse xs) (Pairwise-reverse xs h.1)
        (All-reverse (λ y. S y x) xs (All-turn x xs h.0)))

module _ {A : Type 0} (R : A → A → Type 0) where
  pub Pairwise-filter : (p : A → Bool) (xs : List A) → Pairwise R xs → Pairwise R (filter p xs)
  Pairwise-filter p [] h = tt
  Pairwise-filter p (x ∷ xs) h = elim (Bool-cases (p x)) [
    | inl e ↦ rw e (All-filter (R x) p xs h.0, Pairwise-filter p xs h.1)
    | inr e ↦ rw e (Pairwise-filter p xs h.1)
  ]

module _ {A : Type 0} (time : A → ℕ) where
  abbrev pub NewestFirst : List A → Type 0
  NewestFirst = Pairwise (λ x y. time y < time x)

  abbrev pub OldestFirst : List A → Type 0
  OldestFirst = Pairwise (λ x y. time x < time y)

  abbrev pub before : ℕ → List A → List A
  before t = filter (λ x. ltb (time x) t)

  -- The last of a list that is not empty: the oldest, where the newest comes first.
  abbrev pub last_of : A → List A → A
  last_of x [] = x
  last_of x (y ∷ ys) = last_of y ys

  pub before-before : (u t : ℕ) (xs : List A) → u ≤ t → before u (before t xs) ≡ before u xs
  before-before u t [] h = refl
  before-before u t (x ∷ xs) h = ground (arith, before-before u t xs h)

  -- Nothing is left out by a bound above all, and everything by one below all.
  pub before_all : (t : ℕ) (xs : List A) → All (λ x. time x < t) xs → before t xs ≡ xs
  before_all t [] h = refl
  before_all t (x ∷ xs) h = ground (arith, before_all t xs h.1)

  pub last_of-below :
      (t : ℕ) (x : A) (xs : List A)
      → time x < t
      → All (λ y. time y < t) xs
      → (n : ℕ) → time (last_of x (take n xs)) < t
  last_of-below t x xs h k zero = h
  last_of-below t x [] h k (suc n) = h
  last_of-below t x (y ∷ ys) h k (suc n) = last_of-below t y ys k.0 k.1 n

  -- What is older than a page is what the page left.
  pub before-last_of :
      (n : ℕ) (x : A) (xs : List A)
      → NewestFirst (x ∷ xs)
      → before (time (last_of x (take n xs))) (x ∷ xs) ≡ drop n xs
  before-last_of zero x xs h = ground (arith, before_all (time x) xs h.0)
  before-last_of (suc n) x [] h = ground arith
  before-last_of (suc n) x (y ∷ ys) h =
      let older = last_of-below (time x) y ys h.0.0 h.0.1 n in
      ground (arith, before-last_of n y ys h.1)
