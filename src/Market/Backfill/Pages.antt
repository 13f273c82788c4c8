-- ===== src/Market/Backfill/Pages.antt =====
-- Reading page after page by the cursor reads the window once.
use mathlib.Core.List.{reverse, append-nil}
use lametrader.Prelude.{
  ℕ, zero, suc, ◌+◌, ◌≤◌, ◌<◌, ◌≡◌, refl, sym, ap, ◌∙◌, Bool, true, false, String, Option, none,
  some, List, [], ◌∷◌, ◌++◌, length, take, filter, get_elem?, All, leb, ltb, Bool-cases,
  Option-cases, inl, inr, arith,
}
use lametrader.Prelude.Timed.{
  drop, OldestFirst, Pairwise-reverse, Pairwise-filter, filter-reverse, take-append-drop,
  length-drop, take_short, length-reverse, length-filter-le,
}
use lametrader.Config.{Period}
use lametrader.Market.Candle.{Candle, time_of}
use lametrader.Market.Candles.{CandleReads, CandleLaws, within}
use lametrader.Market.Backfill.{CandlePage, time_at, read_page}

module _ {A : Type 0} where
  take_again : (n m : ℕ) (xs : List A) → n ≤ m → take n (take m xs) ≡ take n xs
  take_again zero m xs h = refl
  take_again (suc n) zero xs h = absurd (omega arith)
  take_again (suc n) (suc m) [] h = refl
  take_again (suc n) (suc m) (x ∷ xs) h = ap (◌∷◌ x) (take_again n m xs (omega arith))

  get_elem?-take : (n m : ℕ) (xs : List A) → n < m → get_elem? (take m xs) n ≡ get_elem? xs n
  get_elem?-take n zero xs h = absurd (omega arith)
  get_elem?-take n (suc m) [] h = refl
  get_elem?-take zero (suc m) (x ∷ xs) h = refl
  get_elem?-take (suc n) (suc m) (x ∷ xs) h = get_elem?-take n m xs (omega arith)

  length-take_short : (n : ℕ) (xs : List A) → length xs ≤ n → length (take n xs) ≡ length xs
  length-take_short zero [] h = refl
  length-take_short zero (x ∷ xs) h = absurd (omega arith)
  length-take_short (suc n) [] h = refl
  length-take_short (suc n) (x ∷ xs) h = omega (arith, length-take_short n xs (omega arith))

  length-take_long : (n : ℕ) (xs : List A) → n ≤ length xs → length (take n xs) ≡ n
  length-take_long zero xs h = refl
  length-take_long (suc n) [] h = absurd (omega arith)
  length-take_long (suc n) (x ∷ xs) h = omega (arith, length-take_long n xs (omega arith))

  get_elem?-none : (n : ℕ) (xs : List A) → get_elem? xs n ≡ none → length xs ≤ n
  get_elem?-none n [] h = omega arith
  get_elem?-none zero (x ∷ xs) h = absurd (ground arith)
  get_elem?-none (suc n) (x ∷ xs) h = omega (arith, get_elem?-none n xs h)

  All-get_elem? :
      (P : A → Type 0) (n : ℕ) (xs : List A) (c : A) → All P xs → get_elem? xs n ≡ some c → P c
  All-get_elem? P n [] c a h = absurd (ground arith)
  All-get_elem? P zero (x ∷ xs) c a h = let e : x ≡ c = cc in rw (← e) a.0
  All-get_elem? P (suc n) (x ∷ xs) c a h = All-get_elem? P n xs c a.1 h

  All_kept : (p : A → Bool) (xs : List A) → All (λ x. p x ≡ true) (filter p xs)
  All_kept p [] = tt
  All_kept p (x ∷ xs) = ground (arith, All_kept p xs)

module _ {A : Type 0} (time : A → ℕ) where
  abbrev from_on : ℕ → List A → List A
  from_on t = filter (λ x. leb t (time x))

  from_on_all : (t u : ℕ) (xs : List A) → t ≤ u → All (λ y. u < time y) xs → from_on t xs ≡ xs
  from_on_all t u [] le h = refl
  from_on_all t u (x ∷ xs) le h = ground (arith, from_on_all t u xs le h.1)

  -- From an element on there is what stands there and after.
  from_on-get_elem? :
      (n : ℕ) (xs : List A) (c : A)
      → OldestFirst time xs
      → get_elem? xs n ≡ some c
      → from_on (time c) xs ≡ drop n xs
  from_on-get_elem? n [] c o h = absurd (ground arith)
  from_on-get_elem? zero (x ∷ xs) c o h =
      let e : x ≡ c = cc in
      let same = ap time e in
      let kept = from_on_all (time c) (time x) xs (omega arith) o.0 in
      let yes : leb (time c) (time x) ≡ true = ground arith in rw yes (ap (◌∷◌ x) kept)
  from_on-get_elem? (suc n) (x ∷ xs) c o h =
      let later = All-get_elem? (λ y. time x < time y) n xs c o.0 h in
      ground (arith, from_on-get_elem? n xs c o.1 h)

module _ {N : Type 0} where
  from_on-within :
      (t u to : ℕ) (cs : List (Candle N))
      → t ≤ u
      → filter (within u to) cs ≡ from_on time_of u (filter (within t to) cs)
  from_on-within t u to [] h = refl
  from_on-within t u to (c ∷ cs) h = ground (arith, from_on-within t u to cs h)

  -- Reading on by the cursor, from a time, on fuel.
  unfoldable pub read_on : (ℕ → CandlePage N) → ℕ → ℕ → Option (List (Candle N))
  read_on page zero from = none
  read_on page (suc fuel) from =
      let rest : Option (List (Candle N)) = elim (page from).next_cursor [
        | none ↦ some []
        | some t ↦ read_on page fuel t
      ] in
      elim rest [ none ↦ none | some more ↦ some ((page from).candles ++ more) ]

  read_on-last :
      (page : ℕ → CandlePage N) (fuel t : ℕ)
      → (page t).next_cursor ≡ none
      → read_on page (suc fuel) t ≡ some (page t).candles
  unfolding read_on
  read_on-last page fuel t h = rw (h, read_on) (ap some (append-nil (page t).candles))

  read_on-more :
      (page : ℕ → CandlePage N) (fuel t u : ℕ) (more : List (Candle N))
      → (page t).next_cursor ≡ some u
      → read_on page fuel u ≡ some more
      → read_on page (suc fuel) t ≡ some ((page t).candles ++ more)
  unfolding read_on
  read_on-more page fuel t u more h r = rw (h, r, read_on) refl

module _ {N : Type 0} (reads : CandleReads N) (history : String → Period → List (Candle N))
    (laws : CandleLaws reads history) (id : String) (period : Period) (to limit : ℕ)
    (latest : Option (Candle N)) where
  abbrev rest_of : ℕ → List (Candle N)
  rest_of t = filter (within t to) (reverse (history id period))

  rest-OldestFirst : (t : ℕ) → OldestFirst time_of (rest_of t)
  rest-OldestFirst t =
      Pairwise-filter (λ a b. time_of a < time_of b) (within t to) _
        (Pairwise-reverse (λ a b. time_of b < time_of a) (λ a b. time_of a < time_of b) (λ a b h. h)
          (history id period) (laws.newest_first id period))

  range-rest :
      (t : ℕ) → reads.range id period t to (some (limit + 1)) ≡ take (limit + 1) (rest_of t)
  range-rest t =
      laws.range_eq id period t to (some (limit + 1))
      ∙ ap (take (limit + 1)) (sym (filter-reverse (within t to) (history id period)))

  abbrev page : ℕ → CandlePage N
  page t = read_page reads id period t to limit latest

  page-last :
      (t : ℕ)
      → length (rest_of t) ≤ limit
      → ((page t).candles ≡ rest_of t) × ((page t).next_cursor ≡ none)
  unfolding read_page
  page-last t h =
      let short = length-take_short (limit + 1) (rest_of t) (omega arith) in
      let all = take_short (limit + 1) (rest_of t) (omega arith) in
      let no : ltb limit (length (take (limit + 1) (rest_of t))) ≡ false = ground arith in
      rw (range-rest t, no) (all, refl)

  page-more :
      (t : ℕ)
      → limit < length (rest_of t)
      → ((page t).candles ≡ take limit (rest_of t))
        × ((page t).next_cursor ≡ time_at (get_elem? (rest_of t) limit))
  unfolding read_page
  page-more t h =
      let long = length-take_long (limit + 1) (rest_of t) (omega arith) in
      let yes : ltb limit (length (take (limit + 1) (rest_of t))) ≡ true = ground arith in
      rw (range-rest t, yes)
        (
          take_again limit (limit + 1) (rest_of t) (omega arith),
          ap time_at (get_elem?-take limit (limit + 1) (rest_of t) (omega arith)),
        )

  -- The window from the cursor on is what the page left.
  rest-cursor :
      (t : ℕ) (c : Candle N)
      → get_elem? (rest_of t) limit ≡ some c
      → rest_of (time_of c) ≡ drop limit (rest_of t)
  rest-cursor t c e =
      let in_it =
        All-get_elem? (λ x. within t to x ≡ true) limit (rest_of t) c
          (All_kept (within t to) (reverse (history id period))) e in
      from_on-within t (time_of c) to (reverse (history id period)) (ground arith)
      ∙ from_on-get_elem? time_of limit (rest_of t) c (rest-OldestFirst t) e

  read_on-rest :
      (fuel t : ℕ) → 0 < limit → length (rest_of t) < fuel → read_on page fuel t ≡ some (rest_of t)
  unfolding read_on
  read_on-rest zero t p h = absurd (omega arith)
  read_on-rest (suc fuel) t p h = elim (Bool-cases (ltb limit (length (rest_of t)))) [
    | inr e ↦
        let (candles, cursor) = page-last t (ground arith) in
        read_on-last page fuel t cursor ∙ ap some candles
    | inl e ↦ elim (Option-cases (get_elem? (rest_of t) limit)) [
      | inl q ↦ let le = get_elem?-none limit (rest_of t) q in absurd (ground arith)
      | inr (c, q) ↦
          let (candles, cursor) = page-more t (ground arith) in
          let left = rest-cursor t c q in
          let short = length-drop limit (rest_of t) in
          let rest = read_on-rest fuel (time_of c) p (rw left (ground arith)) in
          read_on-more page fuel t (time_of c) (drop limit (rest_of t)) (cursor ∙ ap time_at q)
            (rest ∙ ap some left)
          ∙ ap (λ cs. some (cs ++ drop limit (rest_of t))) candles
          ∙ ap some (take-append-drop limit (rest_of t))
    ]
  ]

  page-short : (t : ℕ) → length (page t).candles ≤ limit
  page-short t = elim (Bool-cases (ltb limit (length (rest_of t)))) [
    | inr e ↦ let same = ap length (page-last t (ground arith)).0 in ground arith
    | inl e ↦
        let same = ap length (page-more t (ground arith)).0 in
        let long = length-take_long limit (rest_of t) (ground arith) in omega arith
  ]

  -- Reading page after page by the cursor, each of at most `limit` candles, ends and reads the
  -- window once: all its candles in the order of time, and nothing else.
  pub read_on-window :
      (from fuel : ℕ)
      → 0 < limit
      → length (history id period) < fuel
      → (read_on page fuel from ≡ some (reverse (filter (within from to) (history id period))))
        × ((t : ℕ) → length (page t).candles ≤ limit)
  read_on-window from fuel p h =
      let few = length-filter-le (within from to) (reverse (history id period)) in
      let same = length-reverse (history id period) in
      (
        read_on-rest fuel from p (omega arith)
            ∙ ap some (filter-reverse (within from to) (history id period)),
        page-short,
      )
