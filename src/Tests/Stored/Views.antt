-- ===== src/Tests/Stored/Views.antt =====
-- The views, the context and the preload over two minutes of candles, with pages of one candle.
use lametrader.Prelude.{ℕ, ◌-◌, ◌≡◌, refl, Option, none, some, List, [], ◌∷◌, ◌++◌, inl, inr, arith}
use lametrader.Prelude.Timed.{before}
use lametrader.Float.Integers.{ℤ, int_float}
use lametrader.Config.{Period, one_minute, five_minutes}
use lametrader.Market.Candle.{time_of}
use lametrader.Rules.Views.{BarAxis, high_axis, close_axis, volume_axis, bar_points, array_view}
use lametrader.Rules.Views.Bars.{IsWalkBelow, IsConsistent}
use lametrader.Rules.Views.Forming.{forming_view, window_start}
use lametrader.Rules.Views.Forming.RollUp.{forming_points, bar_value, axis_values}
use lametrader.Rules.Views.Forming.Laws.{forming_view_lem, window}
use lametrader.Rules.Context.{
  EvaluationContextDeps, build_evaluation_context, build_bar_series_pagers,
}
use lametrader.Rules.Context.Reads.{ReadsSeries}
use lametrader.Rules.Context.Pagers.{context_reads_candles, operand_of}
use lametrader.Backtesting.Preload.{preload, preloaded_reads}
use lametrader.Backtesting.Preload.Laws.{preload-reads}
use lametrader.Tests.Stored.{two_minutes, minute_reads, minute_laws, int_extremes}

abbrev bound : ℕ
bound = 120_000

forming_view_lem_example :
    let start = window_start five_minutes (120_000 - 1) in
    let view = forming_view minute_reads "BTC" five_minutes one_minute high_axis 120_000 1 3 in
    (view.backward_walk
      ≡ forming_points start (
          bar_value high_axis
            (axis_values high_axis (window two_minutes "BTC" one_minute start 120_000)))
        ++ bar_points high_axis (before time_of start (two_minutes "BTC" five_minutes)))
    × IsWalkBelow 120_000 view.backward_walk
    × IsConsistent view
forming_view_lem_example =
    forming_view_lem minute_reads two_minutes minute_laws "BTC" five_minutes one_minute high_axis 1
      (omega arith) 120_000 3 (omega arith) (omega arith) (omega arith)

abbrev required : List (Period × BarAxis)
required = (one_minute, volume_axis) ∷ (five_minutes, close_axis) ∷ []

abbrev deps_of : (List (Period × BarAxis)) → EvaluationContextDeps ℤ
deps_of needed = record {
  symbol_id = "BTC";
  profile_id = "p1";
  before = 120_000;
  indicator_series = λ s p i k b. array_view [];
  get_symbol_state = λ p s k. none;
  get_global_state = λ p k. none;
  get_prev_symbol_state = none;
  get_prev_global_state = none;
  bar_series = build_bar_series_pagers minute_reads "BTC" 120_000 1 3 needed [];
}

context_reads_candles_example :
    let ctx = build_evaluation_context (deps_of required) in
    let view = ctx.resolve_series (operand_of close_axis) (some five_minutes) in
    (view.backward_walk
      ≡ bar_points close_axis (before time_of 120_000 (two_minutes "BTC" five_minutes)))
    × ReadsSeries
        (ctx.resolve_latest (operand_of close_axis) (some five_minutes))
        (ctx.resolve_prev (operand_of close_axis) (some five_minutes))
        120_000
        view
context_reads_candles_example =
    context_reads_candles minute_reads two_minutes minute_laws 1 3 (omega arith) (deps_of required)
      required refl (omega arith) (λ p. omega arith) five_minutes close_axis (inr (inl refl))

preload-reads_example :
    let reads = preloaded_reads (preload minute_reads "BTC" (one_minute ∷ []) 1 60_000 120_000) in
    ((n : ℕ) (b : Option ℕ)
      → reads.latest_n "BTC" one_minute n b ≡ minute_reads.latest_n "BTC" one_minute n b)
    × ((from to : ℕ) (limit : Option ℕ)
        → reads.range "BTC" one_minute from to limit
          ≡ minute_reads.range "BTC" one_minute from to limit)
preload-reads_example =
    preload-reads minute_reads two_minutes minute_laws 1 60_000 120_000 "BTC" (one_minute ∷ [])
      "BTC" one_minute
