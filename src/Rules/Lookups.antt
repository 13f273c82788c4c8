-- ===== src/Rules/Lookups.antt =====
-- The synchronous mirror of what rules read
-- (packages/backend/src/analytics/rules/wire/live-evaluation-lookups.ts).
pub mod Mirror
use lametrader.Prelude.{ℕ, String, Option, none, some, List, [], ◌∷◌, map, text_keyed}
use lametrader.Prelude.Map
use lametrader.Prelude.Map.{Map}
use lametrader.Float.{Float}
use lametrader.Text.{append}
use lametrader.Config.{Period, period_eq}
use lametrader.State.{StateValue, num}
use lametrader.State.Repository.{StateChangedEvent, StateScopeSpec, one_symbol, everywhere}
use lametrader.Market.Candle.{CandleEvent, base}
use lametrader.Rules.Series.{SeriesPoint, SeriesView}
use lametrader.Rules.Views.{
  BarAxis, open_axis, high_axis, low_axis, close_axis, volume_axis, volume_of, array_view,
}
use lametrader.Rules.Context.{bar_series_key}

module _ (N : Type 0) where
  pub record OhlcvSnapshot : Type 0 where
    pub «open» : N
    pub high : N
    pub low : N
    pub close : N
    pub volume : N

  pub record LiveEvaluationLookups : Type 0 where
    pub tick_price : Map String N
    -- symbol, period
    pub ohlcv : Map String (Map Period OhlcvSnapshot)
    pub indicator_state : Map String (StateValue N)
    pub symbol_state : Map String (StateValue N)
    pub global_state : Map String (StateValue N)

unfoldable pub symbol_state_key : String → String → String → String
symbol_state_key profile_id symbol_id key =
    append profile_id (append "|" (append symbol_id (append "|" key)))

unfoldable pub global_state_key : String → String → String
global_state_key profile_id key = append profile_id (append "|" key)

unfoldable pub indicator_key : String → String → String
indicator_key instance_id state_key = append instance_id (append "|" state_key)

module _ {N : Type 0} where
  -- A slot set, or deleted for `null`.
  unfoldable pub put_or_delete :
      String → Option (StateValue N) → Map String (StateValue N) → Map String (StateValue N)
  put_or_delete key none m = Map.delete key m
  put_or_delete key (some v) m = Map.set key v m

  -- What the constructor subscribes to the state repository.
  unfoldable pub mirror_change :
      StateChangedEvent N → LiveEvaluationLookups N → LiveEvaluationLookups N
  unfolding put_or_delete symbol_state_key global_state_key
  mirror_change event lookups = elim event.scope [
    | one_symbol symbol_id ↦ record lookups {
      symbol_state =
          put_or_delete (symbol_state_key event.profile_id symbol_id event.key) event.current
            lookups.symbol_state;
    }
    | everywhere ↦ record lookups {
      global_state =
          put_or_delete (global_state_key event.profile_id event.key) event.current
            lookups.global_state;
    }
  ]

  abbrev pub or_zero : ⦃f : Float N⦄ → Option N → N
  or_zero ⦃f⦄ none = f.lit 0
  or_zero (some v) = v

  abbrev pub by_period : Option (Map Period (OhlcvSnapshot N)) → Map Period (OhlcvSnapshot N)
  by_period none = []
  by_period (some m) = m

  unfoldable pub record_candle :
      ⦃f : Float N⦄ → CandleEvent N → LiveEvaluationLookups N → LiveEvaluationLookups N
  record_candle event lookups =
      let candle = base event.candle in
      let snapshot : OhlcvSnapshot N = record {
        «open» = candle.«open»;
        high = candle.high;
        low = candle.low;
        close = candle.close;
        volume = or_zero (volume_of event.candle);
      } in
      record lookups {
        ohlcv =
            Map.set event.id
              (Map.set event.period snapshot (by_period (Map.get event.id lookups.ohlcv)))
              lookups.ohlcv;
        tick_price = Map.set event.id candle.close lookups.tick_price;
      }

  unfoldable pub record_indicator_state :
      String → String → StateValue N → LiveEvaluationLookups N → LiveEvaluationLookups N
  unfolding indicator_key
  record_indicator_state instance_id state_key value lookups = record lookups {
    indicator_state = Map.set (indicator_key instance_id state_key) value lookups.indicator_state;
  }

  unfoldable pub get_current_value : String → LiveEvaluationLookups N → Option N
  get_current_value symbol_id lookups = Map.get symbol_id lookups.tick_price

  unfoldable pub snapshot_of : String → Period → LiveEvaluationLookups N → Option (OhlcvSnapshot N)
  snapshot_of symbol_id period lookups =
      Map.get period (by_period (Map.get symbol_id lookups.ohlcv))

  unfoldable pub get_indicator_value :
      String → String → LiveEvaluationLookups N → Option (StateValue N)
  unfolding indicator_key
  get_indicator_value instance_id state_key lookups =
      Map.get (indicator_key instance_id state_key) lookups.indicator_state

  unfoldable pub mirrored_symbol_state :
      String → String → String → LiveEvaluationLookups N → Option (StateValue N)
  unfolding symbol_state_key
  mirrored_symbol_state profile_id symbol_id key lookups =
      Map.get (symbol_state_key profile_id symbol_id key) lookups.symbol_state

  unfoldable pub mirrored_global_state :
      String → String → LiveEvaluationLookups N → Option (StateValue N)
  unfolding global_state_key
  mirrored_global_state profile_id key lookups =
      Map.get (global_state_key profile_id key) lookups.global_state

  -- Those of a symbol, in the order of their first candles.
  unfoldable pub observed_periods : String → LiveEvaluationLookups N → List Period
  observed_periods symbol_id lookups = map (λ e. e.0) (by_period (Map.get symbol_id lookups.ohlcv))

  abbrev pub axis_in : OhlcvSnapshot N → BarAxis → N
  axis_in snap open_axis = snap.«open»
  axis_in snap high_axis = snap.high
  axis_in snap low_axis = snap.low
  axis_in snap close_axis = snap.close
  axis_in snap volume_axis = snap.volume

  unfoldable pub book_axes :
      Period
      → OhlcvSnapshot N
      → List BarAxis
      → Map String (SeriesView N)
      → Map String (SeriesView N)
  unfolding array_view bar_series_key
  book_axes period snap [] out = out
  book_axes period snap (axis ∷ axes) out =
      let point : SeriesPoint N = record { ts = 0; value = num (axis_in snap axis) } in
      book_axes period snap axes
        (Map.set (bar_series_key period axis) (array_view (point ∷ [])) out)

  unfoldable pub book_periods :
      List (Period × OhlcvSnapshot N) → Map String (SeriesView N) → Map String (SeriesView N)
  unfolding book_axes
  book_periods [] out = out
  book_periods ((period, snap) ∷ rest) out =
      book_periods rest (
        book_axes period snap (open_axis ∷ high_axis ∷ low_axis ∷ close_axis ∷ volume_axis ∷ [])
          out)

  unfoldable pub book_series_for : String → LiveEvaluationLookups N → Map String (SeriesView N)
  unfolding book_periods
  book_series_for symbol_id lookups = book_periods (by_period (Map.get symbol_id lookups.ohlcv)) []

-- An entry that the mirror is warmed with: profile, symbol where there is one, key and value.
pub data InitialStateEntry (N : Type 0) : Type 0 where
  initial_symbol : String → String → String → StateValue N → InitialStateEntry N
  initial_global : String → String → StateValue N → InitialStateEntry N

module _ {N : Type 0} where
  unfoldable pub warm_initial_state :
      List (InitialStateEntry N) → LiveEvaluationLookups N → LiveEvaluationLookups N
  unfolding symbol_state_key global_state_key
  warm_initial_state [] lookups = lookups
  warm_initial_state (initial_symbol p s k v ∷ entries) lookups =
      warm_initial_state entries
        (record lookups { symbol_state = Map.set (symbol_state_key p s k) v lookups.symbol_state })
  warm_initial_state (initial_global p k v ∷ entries) lookups =
      warm_initial_state entries
        (record lookups { global_state = Map.set (global_state_key p k) v lookups.global_state })
