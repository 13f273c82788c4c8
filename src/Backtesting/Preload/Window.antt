-- ===== src/Backtesting/Preload/Window.antt =====
-- The candles that a resident window holds.
use lametrader.Prelude.{
  ℕ, zero, suc, ◌≤◌, ◌<◌, ◌≡◌, refl, true, ◌&&◌, String, List, [], ◌∷◌, length, filter, take, All,
  leb, ◌==◌, text_keyed, Bool-cases, inl, inr, arith,
}
use lametrader.Prelude.Timed.{before, NewestFirst}
use lametrader.Config.{Period, period_eq}
use lametrader.Config.Keys.{period_key-eq}
use lametrader.Market.Candle.{Candle, time_of}
use lametrader.Market.Candles.{within, series_key}
use lametrader.Backtesting.Preload.{is_empty}

pub series_key-eq :
    (s s' : String) (p p' : Period) → (series_key s p == series_key s' p') ≡ (s == s' && p == p')
unfolding series_key
series_key-eq s s' p p' = period_key-eq s s' p p'

module _ {N : Type 0} where
  -- What a window holds of the candles below a bound in it.
  pub before-window :
      (floor end b : ℕ) (cs : List (Candle N))
      → b ≤ end
      → before time_of b (filter (within floor end) cs)
        ≡ filter (λ c. leb floor (time_of c)) (before time_of b cs)
  before-window floor end b [] h = refl
  before-window floor end b (c ∷ cs) h = ground (arith, before-window floor end b cs h)

  pub none_above :
      (floor : ℕ) (cs : List (Candle N))
      → All (λ c. time_of c < floor) cs
      → filter (λ c. leb floor (time_of c)) cs ≡ []
  none_above floor [] h = refl
  none_above floor (c ∷ cs) h = ground (arith, none_above floor cs h.1)

  pub All-lt :
      (t floor : ℕ) (cs : List (Candle N))
      → t < floor
      → All (λ c. time_of c < t) cs
      → All (λ c. time_of c < floor) cs
  All-lt t floor [] lt h = tt
  All-lt t floor (c ∷ cs) lt h = (omega arith, All-lt t floor cs lt h.1)

  -- As many as the window has are the newest of all.
  pub take-window :
      (n floor : ℕ) (cs : List (Candle N))
      → NewestFirst time_of cs
      → n ≤ length (filter (λ c. leb floor (time_of c)) cs)
      → take n (filter (λ c. leb floor (time_of c)) cs) ≡ take n cs
  take-window zero floor cs nf h = refl
  take-window (suc n) floor [] nf h = refl
  take-window (suc n) floor (c ∷ cs) nf h = elim (Bool-cases (leb floor (time_of c))) [
    | inl e ↦ ground (arith, take-window n floor cs nf.1)
    | inr e ↦
        let old : time_of c < floor = ground arith in
        let gone = none_above floor cs (All-lt (time_of c) floor cs old nf.0) in
        absurd (ground arith)
  ]

  -- Nothing lies below the floor, so the window below the bound is all of it.
  pub above_all :
      (floor b : ℕ) (cs : List (Candle N))
      → before time_of floor cs ≡ []
      → filter (λ c. leb floor (time_of c)) (before time_of b cs) ≡ before time_of b cs
  above_all floor b [] h = refl
  above_all floor b (c ∷ cs) h = ground (arith, above_all floor b cs)

  pub is_empty-take : (cs : List (Candle N)) → is_empty (take 1 cs) ≡ true → cs ≡ []
  is_empty-take [] h = refl
  is_empty-take (c ∷ cs) h = cc

  pub within-window :
      (floor end from to : ℕ) (cs : List (Candle N))
      → to ≤ end
      → floor ≤ from
      → filter (within from to) (filter (within floor end) cs) ≡ filter (within from to) cs
  within-window floor end from to [] h k = refl
  within-window floor end from to (c ∷ cs) h k =
      ground (arith, within-window floor end from to cs h k)

  pub within_complete :
      (floor end from to : ℕ) (cs : List (Candle N))
      → to ≤ end
      → before time_of floor cs ≡ []
      → filter (within from to) (filter (within floor end) cs) ≡ filter (within from to) cs
  within_complete floor end from to [] h k = refl
  within_complete floor end from to (c ∷ cs) h k =
      ground (arith, within_complete floor end from to cs h)
