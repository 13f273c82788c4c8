-- ===== src/Rules/Views/Forming/Window.antt =====
-- The pages of the window that is still forming.
use lametrader.Prelude.{
  ℕ, ◌≤◌, ◌<◌, ◌≡◌, refl, true, false, List, [], ◌∷◌, ◌++◌, filter, All, ltb, leb, Bool-cases, inl,
  inr, arith,
}
use lametrader.Prelude.Timed.{NewestFirst}
use lametrader.Market.Candle.{Candle, time_of}
use lametrader.Rules.Views.Forming.{take_window}

module _ {N : Type 0} (start : ℕ) where
  abbrev pub in_window : List (Candle N) → List (Candle N)
  in_window = filter (λ c. leb start (time_of c))

  -- A page that does not cross the window's start lies in it.
  pub take_window-goes_on :
      (xs ys : List (Candle N))
      → (take_window start xs).1 ≡ false
      → in_window (xs ++ ys) ≡ (take_window start xs).0 ++ in_window ys
  unfolding take_window
  take_window-goes_on [] ys e = refl
  take_window-goes_on (c ∷ xs) ys e = ground (arith, take_window-goes_on xs ys)

  pub in_window_none : (xs : List (Candle N)) → All (λ c. time_of c < start) xs → in_window xs ≡ []
  in_window_none [] h = refl
  in_window_none (c ∷ xs) h = ground (arith, in_window_none xs h.1)

  pub All-older :
      (t u : ℕ) (xs : List (Candle N))
      → t ≤ u
      → All (λ c. time_of c < t) xs
      → All (λ c. time_of c < u) xs
  All-older t u [] le h = tt
  All-older t u (c ∷ xs) le h = (omega arith, All-older t u xs le h.1)

  -- A page that crosses it holds all of the window that is left.
  pub take_window-stops :
      (xs ys : List (Candle N))
      → NewestFirst time_of (xs ++ ys)
      → (take_window start xs).1 ≡ true
      → in_window (xs ++ ys) ≡ (take_window start xs).0
  unfolding take_window
  take_window-stops [] ys nf e = absurd (cc)
  take_window-stops (c ∷ xs) ys nf e = elim (Bool-cases (ltb (time_of c) start)) [
    | inl old ↦
        let lt : time_of c < start = ground arith in
        let none_left =
          in_window_none (xs ++ ys) (All-older (time_of c) start (xs ++ ys) (omega arith) nf.0) in
        ground arith
    | inr new ↦ ground (arith, take_window-stops xs ys nf.1)
  ]
