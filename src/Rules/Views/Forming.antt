-- ===== src/Rules/Views/Forming.antt =====
-- The bar that is still forming, rolled up from the candles of a finer period
-- (`FormingBarSeriesView` of packages/backend/src/analytics/rules/bar-series-view.ts).
pub mod Window
pub mod RollUp
pub mod Laws
use lametrader.Prelude.{
  ℕ, ◌-◌, ◌+◌, ◌*◌, Bool, true, false, String, Option, none, some, List, [], ◌∷◌, ltb, leb,
  if◌then◌else◌,
}
use Prim.Native.Nat.{◌/◌}
use lametrader.Float.{Float, Extremes}
use lametrader.Config.{Period, period_millis}
use lametrader.State.{num}
use lametrader.Market.Candle.{Candle, time_of}
use lametrader.Market.Candles.{CandleReads}
use lametrader.Rules.Series.{SeriesPoint, SeriesView}
use lametrader.Rules.Views.{
  BarAxis, open_axis, high_axis, low_axis, close_axis, volume_axis, read_axis, page_walk,
  or_nothing, paged_view,
}

-- The variables of the roll-up.
pub record Roll (N : Type 0) : Type 0 where
  pub any : Bool
  pub acc : N
  pub «open» : N
  pub close : N
  pub close_set : Bool

module _ {N : Type 0} ⦃f : Float N⦄ ⦃x : Extremes N⦄ where
  abbrev pub start_value : BarAxis → N
  start_value high_axis = f.neg x.infinity
  start_value low_axis = x.infinity
  start_value _ = f.lit 0

  abbrev pub roll_step : BarAxis → N → Roll N → Roll N
  roll_step high_axis v r = record r { any = true; acc = x.max r.acc v }
  roll_step low_axis v r = record r { any = true; acc = x.min r.acc v }
  roll_step volume_axis v r = record r { any = true; acc = f.add r.acc v }
  roll_step close_axis v r =
      if r.close_set
      then record r { any = true }
      else record r { any = true; close = v; close_set = true }
  roll_step open_axis v r = record r { any = true; «open» = v }

  unfoldable pub roll : BarAxis → List (Candle N) → Roll N → Roll N
  unfolding read_axis
  roll axis [] r = r
  roll axis (c ∷ cs) r =
      roll axis cs (elim (read_axis c axis) [ none ↦ r | some v ↦ roll_step axis v r ])

  abbrev pub rolled : BarAxis → Roll N → N
  rolled close_axis r = r.close
  rolled open_axis r = r.«open»
  rolled high_axis r = r.acc
  rolled low_axis r = r.acc
  rolled volume_axis r = r.acc

  -- The window's value of an axis, from its candles with the newest first.
  unfoldable pub aggregate_axis : BarAxis → List (Candle N) → Option N
  unfolding roll
  aggregate_axis axis candles =
      let r = roll axis candles (record {
        any = false;
        acc = start_value axis;
        «open» = f.lit 0;
        close = f.lit 0;
        close_set = false;
      }) in
      if r.any then some (rolled axis r) else none

unfoldable pub window_start : Period → ℕ → ℕ
window_start period latest = latest / period_millis period * period_millis period

module _ {N : Type 0} where
  -- The candles of a page down to the window's start, and whether the page crosses it.
  unfoldable pub take_window : ℕ → List (Candle N) → List (Candle N) × Bool
  take_window start [] = ([], false)
  take_window start (c ∷ cs) =
      let (more, crossed) = take_window start cs in
      if ltb (time_of c) start then ([], true) else (c ∷ more, crossed)

  -- The candles of the finer period in the window that holds `latest`, up to `latest`.
  unfoldable pub forming_window :
      CandleReads N → String → Period → ℕ → ℕ → ℕ → ℕ → Option (List (Candle N))
  unfolding page_walk take_window
  forming_window reads symbol_id fine start latest size fuel =
      page_walk time_of (λ cursor. reads.latest_n symbol_id fine size (some cursor)) size
        (λ c cs. take_window start (c ∷ cs)) fuel (latest + 1)

module _ {N : Type 0} ⦃f : Float N⦄ ⦃x : Extremes N⦄ where
  unfoldable pub forming_at :
      CandleReads N → String → Period → Period → BarAxis → ℕ → ℕ → ℕ → ℕ × Option N
  unfolding window_start aggregate_axis forming_window
  forming_at reads symbol_id period fine axis size fuel latest =
      let start = window_start period latest in
      (
        start,
        aggregate_axis axis
            (or_nothing (forming_window reads symbol_id fine start latest size fuel)),
      )

  unfoldable pub forming_walk : ℕ → Option N → SeriesView N → List (SeriesPoint N)
  forming_walk start none tail = tail.backward_walk
  forming_walk start (some v) tail = record { ts = start; value = num v } ∷ tail.backward_walk

  unfoldable pub forming_as_of : ℕ → Option N → SeriesView N → ℕ → Option (SeriesPoint N)
  forming_as_of start none tail ts = tail.as_of ts
  forming_as_of start (some v) tail ts =
      if leb start ts then some (record { ts = start; value = num v }) else tail.as_of ts

  -- `FormingBarSeriesView`: symbol, period, finer period, axis, exclusive bound, page size, fuel.
  unfoldable pub forming_view :
      CandleReads N → String → Period → Period → BarAxis → ℕ → ℕ → ℕ → SeriesView N
  unfolding forming_at forming_walk forming_as_of paged_view
  forming_view reads symbol_id period fine axis before size fuel =
      let (start, value) = forming_at reads symbol_id period fine axis size fuel (before - 1) in
      let tail = paged_view reads symbol_id period axis start size fuel in
      record {
        backward_walk = forming_walk start value tail;
        as_of = forming_as_of start value tail;
      }
