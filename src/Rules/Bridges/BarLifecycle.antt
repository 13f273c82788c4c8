-- ===== src/Rules/Bridges/BarLifecycle.antt =====
-- The bar bridge (packages/backend/src/analytics/rules/bridges/bar-lifecycle-bridge.ts). What the
-- bridge hands to `emit` is the list beside its state.
pub mod InOrder
use lametrader.Prelude.{
  ℕ, Bool, true, false, not, ◌&&◌, String, Option, none, some, List, [], ◌∷◌, ◌++◌, ltb,
  if◌then◌else◌, ◌==◌, number_keyed, text_keyed,
}
use lametrader.Prelude.Map
use lametrader.Prelude.Map.{Map}
use lametrader.Text.{append}
use lametrader.Config.{Period, period_value}
use lametrader.Market.Candle.{CandleEvent, time_of}
use lametrader.Rules.Event.{EvaluationTriggerEvent, bar_opened, bar_closed}

pub record Lifecycle : Type 0 where
  pub last_ts : ℕ
  pub closed_ts : Option ℕ

unfoldable pub lifecycle_key : String → Period → String
lifecycle_key id period = append id (append "|" (period_value period))

unfoldable pub is_advanced : Option Lifecycle → ℕ → Bool
is_advanced none ts = true
is_advanced (some prior) ts = ltb prior.last_ts ts

abbrev pub closed_of : Option Lifecycle → Option ℕ
closed_of none = none
closed_of (some prior) = prior.closed_ts

abbrev pub is_some_of : Option ℕ → ℕ → Bool
is_some_of none ts = false
is_some_of (some c) ts = c == ts

-- A final candle whose close was not emitted last.
unfoldable pub is_closing : Option Lifecycle → ℕ → Bool → Bool
is_closing prior ts final = final && not (is_some_of (closed_of prior) ts)

module _ {N : Type 0} where
  unfoldable pub handle_candle :
      CandleEvent N → Map String Lifecycle → List (EvaluationTriggerEvent N) × Map String Lifecycle
  handle_candle event lifecycle =
      let key = lifecycle_key event.id event.period in
      let prior = Map.get key lifecycle in
      let ts = time_of event.candle in
      let opened = if is_advanced prior ts then bar_opened ts event.id event.period ∷ [] else [] in
      if is_closing prior ts event.final
      then (
        opened ++ (bar_closed ts event.id event.period ∷ []),
        Map.set key (record { last_ts = ts; closed_ts = some ts }) lifecycle,
      )
      else if is_advanced prior ts
      then (opened, Map.set key (record { last_ts = ts; closed_ts = closed_of prior }) lifecycle)
      else (opened, lifecycle)

  -- The bridge over a stream of candles.
  unfoldable pub handle_candles :
      List (CandleEvent N) → Map String Lifecycle → List (EvaluationTriggerEvent N)
  handle_candles [] lifecycle = []
  handle_candles (event ∷ events) lifecycle =
      let (out, lifecycle') = handle_candle event lifecycle in
      out ++ handle_candles events lifecycle'
