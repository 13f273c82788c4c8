-- ===== src/Rules/Views/Paging.antt =====
-- Reading a history page by page gives what one pass over it gives.
use mathlib.Core.List.{append-nil}
use lametrader.Prelude.{
  ℕ, zero, suc, ◌-◌, ◌≤◌, ◌<◌, ◌≡◌, refl, sym, ap, ◌∙◌, Bool, true, false, ◌||◌, Option, none, some,
  List, [], ◌∷◌, ◌++◌, length, take, All, ltb, if◌then◌else◌, Bool-cases, inl, inr, arith,
}
use lametrader.Prelude.Timed.{
  NewestFirst, before, before-before, before-last_of, last_of, last_of-below, drop, length-drop,
  take-append-drop, drop_short, Pairwise-filter,
}
use lametrader.Rules.Views.{page_walk}

module _ {A B : Type 0} (time : A → ℕ) (history : List A) (newest_first : NewestFirst time history)
    (fetch : ℕ → List A) (size : ℕ) (positive : 0 < size)
    (fetched : (t : ℕ) → fetch t ≡ take size (before time t history))
    (emit : A → List A → List B × Bool) (whole : List A → List B) (whole_nil : whole [] ≡ [])
    (goes_on : (c : A) (cs rest : List A)
      → NewestFirst time ((c ∷ cs) ++ rest)
      → (emit c cs).1 ≡ false
      → whole ((c ∷ cs) ++ rest) ≡ (emit c cs).0 ++ whole rest)
    (stops : (c : A) (cs rest : List A)
      → NewestFirst time ((c ∷ cs) ++ rest)
      → (emit c cs).1 ≡ true
      → whole ((c ∷ cs) ++ rest) ≡ (emit c cs).0) where
  abbrev below : ℕ → List A
  below t = before time t history

  below-NewestFirst : (t : ℕ) → NewestFirst time (below t)
  below-NewestFirst t = Pairwise-filter _ _ history newest_first

  All-below : (t : ℕ) (xs : List A) → All (λ x. time x < t) (before time t xs)
  All-below t [] = tt
  All-below t (x ∷ xs) = ground (arith, All-below t xs)

  -- What lies below the oldest member of a page is what the page left.
  below-last :
      (t n : ℕ) (c : A) (rest : List A)
      → below t ≡ c ∷ rest
      → below (time (last_of time c (take n rest))) ≡ drop n rest
  below-last t n c rest e =
      let all : All (λ x. time x < t) (c ∷ rest) = rw e at (All-below t history) in
      let under = last_of-below time t c rest all.0 all.1 n in
      let sorted : NewestFirst time (c ∷ rest) = rw e at (below-NewestFirst t) in
      sym (before-before time (time (last_of time c (take n rest))) t history (omega arith))
      ∙ rw e (before-last_of time n c rest sorted)

  -- One round of the loop, by the page that was fetched.
  round : ℕ → List A → Option (List B)
  round fuel [] = some []
  round fuel (c ∷ cs) =
      if (emit c cs).1 || ltb (length (c ∷ cs)) size
      then some (emit c cs).0
      else elim (page_walk time fetch size emit fuel (time (last_of time c cs))) [
        | none ↦ none
        | some more ↦ some ((emit c cs).0 ++ more)
      ]

  page_walk-round :
      (fuel t : ℕ) (page : List A)
      → fetch t ≡ page
      → page_walk time fetch size emit (suc fuel) t ≡ round fuel page
  unfolding page_walk round
  page_walk-round fuel t [] e = rw (e, page_walk) refl
  page_walk-round fuel t (c ∷ cs) e = rw (e, page_walk) refl

  -- The whole of what a page and the rest give, where the page is short or says to stop.
  round_ends :
      (fuel n : ℕ) (c : A) (rest : List A)
      → size ≡ suc n
      → NewestFirst time (c ∷ rest)
      → ((emit c (take n rest)).1 || ltb (length (c ∷ take n rest)) size) ≡ true
      → round fuel (c ∷ take n rest) ≡ some (whole (c ∷ rest))
  unfolding round
  round_ends fuel n c rest sz nf e =
      let parts = ap (◌∷◌ c) (take-append-drop n rest) in
      let nf' : NewestFirst time ((c ∷ take n rest) ++ drop n rest) =
        rw (take-append-drop n rest) nf in
      rw e (elim (Bool-cases ((emit c (take n rest)).1)) [
        | inl stop ↦ ap some (sym (stops c (take n rest) (drop n rest) nf' stop) ∙ ap whole parts)
        | inr more ↦
            let short : length (c ∷ take n rest) < suc n = ground (arith, sz) in
            let gone = drop_short n rest (omega arith) in
            let out = (emit c (take n rest)).0 in
            ap some (
              sym (
                sym (ap whole parts)
                ∙ goes_on c (take n rest) (drop n rest) nf' more
                ∙ ap (λ r. out ++ whole r) gone
                ∙ ap (◌++◌ out) whole_nil
                ∙ append-nil out))
      ])

  -- Where neither holds, the rounds that follow give the rest.
  round_goes_on :
      (fuel n : ℕ) (c : A) (rest : List A)
      → NewestFirst time (c ∷ rest)
      → ((emit c (take n rest)).1 || ltb (length (c ∷ take n rest)) size) ≡ false
      → page_walk time fetch size emit fuel (time (last_of time c (take n rest)))
        ≡ some (whole (drop n rest))
      → round fuel (c ∷ take n rest) ≡ some (whole (c ∷ rest))
  unfolding round
  round_goes_on fuel n c rest nf e later =
      let parts = ap (◌∷◌ c) (take-append-drop n rest) in
      let nf' : NewestFirst time ((c ∷ take n rest) ++ drop n rest) =
        rw (take-append-drop n rest) nf in
      let more : (emit c (take n rest)).1 ≡ false = ground (arith, e) in
      rw (e, later)
        (ap some (sym (goes_on c (take n rest) (drop n rest) nf' more) ∙ ap whole parts))

  page_walk_from :
      (k n t : ℕ) (seen : List A)
      → size ≡ suc n
      → below t ≡ seen
      → length seen ≤ k
      → page_walk time fetch size emit (suc k) t ≡ some (whole seen)
  unfolding round
  page_walk_from k n t [] sz e h =
      page_walk-round k t [] (fetched t ∙ ap (take size) e ∙ ap (λ m. take m []) sz)
      ∙ ap some (sym whole_nil)
  page_walk_from zero n t (c ∷ rest) sz e h = absurd (omega arith)
  page_walk_from (suc k) n t (c ∷ rest) sz e h =
      let nf : NewestFirst time (c ∷ rest) = rw e at (below-NewestFirst t) in
      let page : fetch t ≡ c ∷ take n rest =
        fetched t ∙ ap (take size) e ∙ ap (λ m. take m (c ∷ rest)) sz in
      page_walk-round (suc k) t (c ∷ take n rest) page
      ∙ elim (Bool-cases ((emit c (take n rest)).1 || ltb (length (c ∷ take n rest)) size)) [
        | inl done ↦ round_ends (suc k) n c rest sz nf done
        | inr more ↦
            let fewer : length (drop n rest) ≤ k = omega (arith, length-drop n rest) in
            round_goes_on (suc k) n c rest nf more (
              page_walk_from k n (time (last_of time c (take n rest))) (drop n rest) sz
                (below-last t n c rest e) fewer)
      ]

  -- With one more fuel than members below the bound, the loop gives what one pass over all of
  -- them gives, whatever the size of a page.
  pub page_walk_lem :
      (k t : ℕ)
      → length (below t) ≤ k
      → page_walk time fetch size emit (suc k) t ≡ some (whole (below t))
  page_walk_lem k t h =
      let sz : size ≡ suc (size - 1) = omega arith in
      page_walk_from k (size - 1) t (below t) sz refl h
