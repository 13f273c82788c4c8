-- ===== src/Rules/Context.antt =====
-- The context that operands are read in
-- (packages/backend/src/analytics/rules/evaluation-context.ts).
pub mod Reads
pub mod Pagers
use lametrader.Prelude.{
  ℕ, Bool, true, false, String, Option, none, some, List, [], ◌∷◌, if◌then◌else◌, text_keyed,
}
use lametrader.Prelude.Map
use lametrader.Prelude.Map.{Map}
use lametrader.Text.{append, ends_with}
use lametrader.Config.{Period, period_value}
use lametrader.State.{StateValue}
use lametrader.Market.Candles.{CandleReads}
use lametrader.Rules.Operand.{
  ConditionOperand, price, open_price, high, low, close, volume, indicator_ref, symbol_state_ref,
  global_state_ref, literal,
}
use lametrader.Rules.Series.{SeriesPoint, SeriesView, EvaluationContext}
use lametrader.Rules.Views.{
  BarAxis, open_axis, high_axis, low_axis, close_axis, volume_axis, array_view, paged_view,
}

-- The candle store is behind the bar series, and the indicator store is the function that builds
-- the view of a symbol, a period, an instance, a state key and an exclusive bound.
pub record EvaluationContextDeps (N : Type 0) : Type 0 where
  pub symbol_id : String
  pub profile_id : String
  pub before : ℕ
  pub indicator_series : String → Period → String → String → ℕ → SeriesView N
  -- profile, symbol, key
  pub get_symbol_state : String → String → String → Option (StateValue N)
  pub get_global_state : String → String → Option (StateValue N)
  -- `none` where the lookup is left out
  pub get_prev_symbol_state : Option (String → String → String → Option (StateValue N))
  pub get_prev_global_state : Option (String → String → Option (StateValue N))
  pub bar_series : Map String (SeriesView N)

-- `Number.MAX_SAFE_INTEGER`
abbrev pub max_safe_integer : ℕ
max_safe_integer = 9_007_199_254_740_991

abbrev pub axis_value : BarAxis → String
axis_value open_axis = "open"
axis_value high_axis = "high"
axis_value low_axis = "low"
axis_value close_axis = "close"
axis_value volume_axis = "volume"

unfoldable pub bar_series_key : Period → BarAxis → String
bar_series_key period axis = append (period_value period) (append "|" (axis_value axis))

module _ {N : Type 0} where
  unfoldable pub first_close : Map String (SeriesView N) → Option (SeriesView N)
  first_close [] = none
  first_close ((key, view) ∷ views) =
      let rest = first_close views in if ends_with key "|close" then some view else rest

  unfoldable pub price_series : Map String (SeriesView N) → Option Period → Option (SeriesView N)
  unfolding first_close
  price_series views (some interval) = Map.get (bar_series_key interval close_axis) views
  price_series views none = first_close views

  unfoldable pub bar_series_for :
      Map String (SeriesView N) → Option Period → BarAxis → Option (SeriesView N)
  bar_series_for views none axis = none
  bar_series_for views (some interval) axis = Map.get (bar_series_key interval axis) views

  unfoldable pub prev_from_walk : List (SeriesPoint N) → Option (StateValue N)
  prev_from_walk [] = none
  prev_from_walk (p ∷ []) = none
  prev_from_walk (p ∷ q ∷ ps) = some q.value

  unfoldable pub prev_from_series : SeriesView N → Option (StateValue N)
  unfolding prev_from_walk
  prev_from_series view = prev_from_walk view.backward_walk

  abbrev pub value_of : Option (SeriesPoint N) → Option (StateValue N)
  value_of none = none
  value_of (some p) = some p.value

  unfoldable pub latest_of : SeriesView N → Option (StateValue N)
  latest_of view = value_of (view.as_of max_safe_integer)

  abbrev pub read_view : {A : Type 0} → (SeriesView N → Option A) → Option (SeriesView N) → Option A
  read_view read none = none
  read_view read (some view) = read view

  -- The series of the indicator, where the row has an interval.
  unfoldable pub indicator_view :
      EvaluationContextDeps N → Option Period → String → String → Option (SeriesView N)
  indicator_view deps none instance_id state_key = none
  indicator_view deps (some interval) instance_id state_key =
      some (deps.indicator_series deps.symbol_id interval instance_id state_key deps.before)

  unfoldable pub resolve_latest :
      EvaluationContextDeps N → ConditionOperand N → Option Period → Option (StateValue N)
  resolve_latest deps price interval = read_view latest_of (price_series deps.bar_series interval)
  resolve_latest deps open_price interval =
      read_view latest_of (bar_series_for deps.bar_series interval open_axis)
  resolve_latest deps high interval =
      read_view latest_of (bar_series_for deps.bar_series interval high_axis)
  resolve_latest deps low interval =
      read_view latest_of (bar_series_for deps.bar_series interval low_axis)
  resolve_latest deps close interval =
      read_view latest_of (bar_series_for deps.bar_series interval close_axis)
  resolve_latest deps volume interval =
      read_view latest_of (bar_series_for deps.bar_series interval volume_axis)
  resolve_latest deps (indicator_ref instance_id state_key t) interval =
      read_view latest_of (indicator_view deps interval instance_id state_key)
  resolve_latest deps (symbol_state_ref key t) interval =
      deps.get_symbol_state deps.profile_id deps.symbol_id key
  resolve_latest deps (global_state_ref key t) interval = deps.get_global_state deps.profile_id key
  resolve_latest deps (literal v) interval = some v

  abbrev pub prev_state :
      {A : Type 0} → Option A → (A → Option (StateValue N)) → Option (StateValue N)
  prev_state none read = none
  prev_state (some lookup) read = read lookup

  unfoldable pub resolve_prev :
      EvaluationContextDeps N → ConditionOperand N → Option Period → Option (StateValue N)
  resolve_prev deps price interval =
      read_view prev_from_series (price_series deps.bar_series interval)
  resolve_prev deps open_price interval =
      read_view prev_from_series (bar_series_for deps.bar_series interval open_axis)
  resolve_prev deps high interval =
      read_view prev_from_series (bar_series_for deps.bar_series interval high_axis)
  resolve_prev deps low interval =
      read_view prev_from_series (bar_series_for deps.bar_series interval low_axis)
  resolve_prev deps close interval =
      read_view prev_from_series (bar_series_for deps.bar_series interval close_axis)
  resolve_prev deps volume interval =
      read_view prev_from_series (bar_series_for deps.bar_series interval volume_axis)
  resolve_prev deps (indicator_ref instance_id state_key t) interval =
      read_view prev_from_series (indicator_view deps interval instance_id state_key)
  resolve_prev deps (symbol_state_ref key t) interval =
      prev_state deps.get_prev_symbol_state (λ get. get deps.profile_id deps.symbol_id key)
  resolve_prev deps (global_state_ref key t) interval =
      prev_state deps.get_prev_global_state (λ get. get deps.profile_id key)
  resolve_prev deps (literal v) interval = some v

  unfoldable pub empty_series : SeriesView N
  unfolding array_view
  empty_series = array_view []

  unfoldable pub singleton_series : StateValue N → SeriesView N
  unfolding array_view
  singleton_series v = array_view (record { ts = 0; value = v } ∷ [])

  unfoldable pub or_empty_series : Option (SeriesView N) → SeriesView N
  unfolding empty_series
  or_empty_series none = empty_series
  or_empty_series (some view) = view

  unfoldable pub state_series : Option (StateValue N) → SeriesView N
  unfolding empty_series singleton_series
  state_series none = empty_series
  state_series (some v) = singleton_series v

  unfoldable pub resolve_series :
      EvaluationContextDeps N → ConditionOperand N → Option Period → SeriesView N
  resolve_series deps price interval = or_empty_series (price_series deps.bar_series interval)
  resolve_series deps open_price interval =
      or_empty_series (bar_series_for deps.bar_series interval open_axis)
  resolve_series deps high interval =
      or_empty_series (bar_series_for deps.bar_series interval high_axis)
  resolve_series deps low interval =
      or_empty_series (bar_series_for deps.bar_series interval low_axis)
  resolve_series deps close interval =
      or_empty_series (bar_series_for deps.bar_series interval close_axis)
  resolve_series deps volume interval =
      or_empty_series (bar_series_for deps.bar_series interval volume_axis)
  resolve_series deps (indicator_ref instance_id state_key t) interval =
      or_empty_series (indicator_view deps interval instance_id state_key)
  resolve_series deps (symbol_state_ref key t) interval =
      state_series (deps.get_symbol_state deps.profile_id deps.symbol_id key)
  resolve_series deps (global_state_ref key t) interval =
      state_series (deps.get_global_state deps.profile_id key)
  resolve_series deps (literal v) interval = singleton_series v

  unfoldable pub build_evaluation_context : EvaluationContextDeps N → EvaluationContext N
  build_evaluation_context deps = record {
    symbol_id = deps.symbol_id;
    resolve_latest = resolve_latest deps;
    resolve_prev = resolve_prev deps;
    resolve_series = resolve_series deps;
  }

  -- `buildBarSeriesPagers`: the store, the symbol, the bound, the page size, the fuel, and the
  -- periods and axes.
  unfoldable pub build_bar_series_pagers :
      CandleReads N
      → String
      → ℕ
      → ℕ
      → ℕ
      → List (Period × BarAxis)
      → Map String (SeriesView N)
      → Map String (SeriesView N)
  build_bar_series_pagers reads symbol_id before size fuel [] out = out
  build_bar_series_pagers reads symbol_id before size fuel ((p, axis) ∷ required) out =
      build_bar_series_pagers reads symbol_id before size fuel required
        (Map.set (bar_series_key p axis) (paged_view reads symbol_id p axis before size fuel) out)
