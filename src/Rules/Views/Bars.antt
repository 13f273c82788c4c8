-- ===== src/Rules/Views/Bars.antt =====
-- What a paged bar view yields, and the order of its points.
use lametrader.Prelude.{
  ℕ, suc, ◌-◌, ◌<◌, ◌≡◌, refl, ap, false, String, some, List, [], ◌∷◌, ◌++◌, length, All, ltb,
  Option-cases, inl, inr, arith,
}
use lametrader.Prelude.Sort.{Pairwise}
use lametrader.Prelude.Timed.{before, NewestFirst, Pairwise-filter, length-filter-le}
use lametrader.Config.{Period}
use lametrader.Market.Candle.{Candle, time_of}
use lametrader.Market.Candles.{CandleReads, CandleLaws}
use lametrader.Rules.Series.{SeriesPoint, SeriesView}
use lametrader.Rules.Views.{
  BarAxis, read_axis, bar_points, paged_walk, paged_view, or_nothing, as_of_walk,
}
use lametrader.Rules.Views.Paging.{page_walk_lem}

module _ {N : Type 0} where
  pub bar_points-append :
      (axis : BarAxis) (xs ys : List (Candle N))
      → bar_points axis (xs ++ ys) ≡ bar_points axis xs ++ bar_points axis ys
  unfolding bar_points
  bar_points-append axis [] ys = refl
  bar_points-append axis (c ∷ xs) ys = ground (arith, bar_points-append axis xs ys)

  -- A walk in strictly descending time, below a bound.
  pub record IsWalkBelow (bound : ℕ) (walk : List (SeriesPoint N)) : Type 0 where
    pub falling : Pairwise (λ p q. q.ts < p.ts) walk
    pub under : All (λ p. p.ts < bound) walk

  -- `asOf` is the first point of `backwardWalk` at or before the time.
  abbrev pub IsConsistent : SeriesView N → Type 0
  IsConsistent view = (ts : ℕ) → view.as_of ts ≡ as_of_walk ts view.backward_walk

  All-bar_points :
      (axis : BarAxis) (t : ℕ) (cs : List (Candle N))
      → All (λ c. time_of c < t) cs
      → All (λ p. p.ts < t) (bar_points axis cs)
  unfolding bar_points
  All-bar_points axis t [] h = tt
  All-bar_points axis t (c ∷ cs) h = elim (Option-cases (read_axis c axis)) [
    | inl e ↦ rw (e, bar_points) (All-bar_points axis t cs h.1)
    | inr (v, e) ↦ rw (e, bar_points) (h.0, All-bar_points axis t cs h.1)
  ]

  bar_points-falling :
      (axis : BarAxis) (cs : List (Candle N))
      → NewestFirst time_of cs
      → Pairwise (λ p q. q.ts < p.ts) (bar_points axis cs)
  unfolding bar_points
  bar_points-falling axis [] h = tt
  bar_points-falling axis (c ∷ cs) h = elim (Option-cases (read_axis c axis)) [
    | inl e ↦ rw (e, bar_points) (bar_points-falling axis cs h.1)
    | inr (v, e) ↦
        rw (e, bar_points) (All-bar_points axis (time_of c) cs h.0, bar_points-falling axis cs h.1)
  ]

  All-before : (t : ℕ) (cs : List (Candle N)) → All (λ c. time_of c < t) (before time_of t cs)
  All-before t [] = tt
  All-before t (c ∷ cs) = ground (arith, All-before t cs)

module _ {N : Type 0} (reads : CandleReads N) (history : String → Period → List (Candle N))
    (laws : CandleLaws reads history) (s : String) (p : Period) (axis : BarAxis) (size : ℕ)
    (positive : 0 < size) where
  -- Whatever the size of a page: with more fuel than candles below the bound, the paged walk is
  -- the points of the axis of all candles below the bound, the newest first.
  pub paged_walk_lem :
      (bound fuel : ℕ)
      → length (before time_of bound (history s p)) < fuel
      → paged_walk reads s p axis bound size fuel
        ≡ some (bar_points axis (before time_of bound (history s p)))
  unfolding paged_walk bar_points
  paged_walk_lem bound fuel h =
      let e : fuel ≡ suc (fuel - 1) = omega arith in
      rw e (
        page_walk_lem time_of (history s p) (laws.newest_first s p) _ size positive
          (λ t. laws.latest_n_eq s p size (some t))
          (λ (c : Candle N) (cs : List (Candle N)). (bar_points axis (c ∷ cs), false))
          (bar_points axis) refl (λ c cs rest nf q. bar_points-append axis (c ∷ cs) rest)
          (λ c cs rest nf q. cc) (fuel - 1) bound (omega arith))

  pub paged_view-walk :
      (bound fuel : ℕ)
      → length (history s p) < fuel
      → (paged_view reads s p axis bound size fuel).backward_walk
        ≡ bar_points axis (before time_of bound (history s p))
  unfolding paged_view
  paged_view-walk bound fuel h =
      let few = length-filter-le (λ c. ltb (time_of c) bound) (history s p) in
      ap or_nothing (paged_walk_lem bound fuel (omega arith))

  pub paged_view-IsConsistent :
      (bound fuel : ℕ) → IsConsistent (paged_view reads s p axis bound size fuel)
  unfolding paged_view
  paged_view-IsConsistent bound fuel ts = refl

  pub bar_points-IsWalkBelow :
      (bound : ℕ) → IsWalkBelow bound (bar_points axis (before time_of bound (history s p)))
  bar_points-IsWalkBelow bound = record {
    falling = bar_points-falling axis _ (Pairwise-filter _ _ (history s p) (laws.newest_first s p));
    under = All-bar_points axis bound _ (All-before bound (history s p));
  }
