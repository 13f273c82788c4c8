-- ===== src/Rules/Views/Forming/Laws.antt =====
-- What the forming bar is, and how the view layers it on the closed bars.
use lametrader.Prelude.{
  ℕ, suc, ◌-◌, ◌+◌, ◌≤◌, ◌<◌, ◌≡◌, refl, ap, ◌∙◌, String, Option, none, some, List, [], ◌∷◌, ◌++◌,
  length, filter, All, ltb, leb, arith,
}
use mathlib.Core.Path.{ap₂}
use lametrader.Prelude.Timed.{before, length-filter-le}
use lametrader.Float.{Float, Extremes}
use lametrader.Config.{
  Period, one_minute, five_minutes, fifteen_minutes, thirty_minutes, one_hour, four_hours, one_day,
  one_week,
}
use lametrader.Market.Candle.{Candle, time_of}
use lametrader.Market.Candles.{CandleReads, CandleLaws}
use lametrader.Rules.Series.{SeriesPoint}
use lametrader.Rules.Views.{BarAxis, or_nothing, paged_view, bar_points}
use lametrader.Rules.Views.Paging.{page_walk_lem}
use lametrader.Rules.Views.Bars.{
  IsConsistent, IsWalkBelow, paged_view-walk, paged_view-IsConsistent, bar_points-IsWalkBelow,
}
use lametrader.Rules.Views.Forming.{
  aggregate_axis, take_window, window_start, forming_window, forming_at, forming_view,
}
use lametrader.Rules.Views.Forming.Window.{take_window-goes_on, take_window-stops}
use lametrader.Rules.Views.Forming.RollUp.{
  axis_values, forming_points, bar_value, aggregate_axis-values, forming_walk-points,
  forming-IsConsistent,
}

window_start-lt : (p : Period) (t : ℕ) → 0 < t → window_start p (t - 1) < t
unfolding window_start
window_start-lt one_minute t h = omega arith
window_start-lt five_minutes t h = omega arith
window_start-lt fifteen_minutes t h = omega arith
window_start-lt thirty_minutes t h = omega arith
window_start-lt one_hour t h = omega arith
window_start-lt four_hours t h = omega arith
window_start-lt one_day t h = omega arith
window_start-lt one_week t h = omega arith

module _ {N : Type 0} where
  All-under :
      (t u : ℕ) (ps : List (SeriesPoint N))
      → t ≤ u
      → All (λ p. p.ts < t) ps
      → All (λ p. p.ts < u) ps
  All-under t u [] le h = tt
  All-under t u (p ∷ ps) le h = (omega arith, All-under t u ps le h.1)

  forming_points-IsWalkBelow :
      (start bound : ℕ) (value : Option N) (tail : List (SeriesPoint N))
      → start < bound
      → IsWalkBelow start tail
      → IsWalkBelow bound (forming_points start value ++ tail)
  unfolding forming_points
  forming_points-IsWalkBelow start bound none tail lt h = record {
    falling = h.falling;
    under = All-under start bound tail (omega arith) h.under;
  }
  forming_points-IsWalkBelow start bound (some v) tail lt h = record {
    falling = (h.under, h.falling);
    under = (lt, All-under start bound tail (omega arith) h.under);
  }

module _ {N : Type 0} (history : String → Period → List (Candle N)) (s : String)
    (fine : Period) where
  -- The candles of the finer period in the window, up to a time.
  abbrev pub window : ℕ → ℕ → List (Candle N)
  window start bound = filter (λ c. leb start (time_of c)) (before time_of bound (history s fine))

module _ {N : Type 0} ⦃f : Float N⦄ ⦃x : Extremes N⦄ (reads : CandleReads N)
    (history : String → Period → List (Candle N)) (laws : CandleLaws reads history) (s : String)
    (period fine : Period) (axis : BarAxis) (size : ℕ) (positive : 0 < size) where
  forming_window_lem :
      (start latest fuel : ℕ)
      → length (before time_of (latest + 1) (history s fine)) < fuel
      → forming_window reads s fine start latest size fuel
        ≡ some (window history s fine start (latest + 1))
  unfolding forming_window take_window
  forming_window_lem start latest fuel h =
      let e : fuel ≡ suc (fuel - 1) = omega arith in
      rw e (
        page_walk_lem time_of (history s fine) (laws.newest_first s fine) _ size positive
          (λ t. laws.latest_n_eq s fine size (some t))
          (λ (c : Candle N) (cs : List (Candle N)). take_window start (c ∷ cs))
          (filter (λ c. leb start (time_of c))) refl
          (λ c cs rest nf q. take_window-goes_on start (c ∷ cs) rest q)
          (λ c cs rest nf q. take_window-stops start (c ∷ cs) rest nf q) (fuel - 1) (latest + 1)
          (omega arith))

  forming_at-window :
      (bound fuel : ℕ)
      → 0 < bound
      → length (history s fine) < fuel
      → (forming_at reads s period fine axis size fuel (bound - 1)).1
        ≡ bar_value axis
            (axis_values axis (window history s fine (window_start period (bound - 1)) bound))
  unfolding forming_at
  forming_at-window bound fuel h few =
      let start = window_start period (bound - 1) in
      let e : bound - 1 + 1 ≡ bound = omega arith in
      let fewer = length-filter-le (λ c. ltb (time_of c) (bound - 1 + 1)) (history s fine) in
      ap (λ o. aggregate_axis axis (or_nothing o))
        (forming_window_lem start (bound - 1) fuel (omega arith))
      ∙ aggregate_axis-values axis (window history s fine start (bound - 1 + 1))
      ∙ ap (λ b. bar_value axis (axis_values axis (window history s fine start b))) e

  -- The forming bar stands for the window that holds the last millisecond before the bound. With
  -- more fuel than stored candles, the view yields first a point at the window's start: the open
  -- of the window's oldest finer candle below the bound, the close of its newest, their extremes
  -- or their volume's sum, and no such point where none of them has the axis. Then come the points
  -- of the closed bars before the window. The times fall strictly and lie below the bound, and
  -- `asOf` is the first point of the walk at or before its time.
  pub forming_view_lem :
      (bound fuel : ℕ)
      → 0 < bound
      → length (history s fine) < fuel
      → length (history s period) < fuel
      → let start = window_start period (bound - 1) in
        let view = forming_view reads s period fine axis bound size fuel in
        (view.backward_walk
          ≡ forming_points start
              (bar_value axis (axis_values axis (window history s fine start bound)))
            ++ bar_points axis (before time_of start (history s period)))
        × IsWalkBelow bound view.backward_walk
        × IsConsistent view
  unfolding forming_view
  forming_view_lem bound fuel h few_fine few =
      let start = window_start period (bound - 1) in
      let tail = paged_view reads s period axis start size fuel in
      let value = (forming_at reads s period fine axis size fuel (bound - 1)).1 in
      let closed = paged_view-walk reads history laws s period axis size positive start fuel few in
      let is = forming_at-window bound fuel h few_fine in
      let walk =
        forming_walk-points start value tail ∙ ap₂ (λ v w. forming_points start v ++ w) is closed in
      (
        walk,
        rw walk (
            forming_points-IsWalkBelow start bound _ _ (window_start-lt period bound h)
              (bar_points-IsWalkBelow reads history laws s period axis size positive start)),
        λ ts.
            forming-IsConsistent start value tail ts (
              paged_view-IsConsistent reads history laws s period axis size positive start fuel ts),
      )
