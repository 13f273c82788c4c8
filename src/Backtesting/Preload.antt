-- ===== src/Backtesting/Preload.antt =====
-- The candles of a run, preloaded
-- (packages/backend/src/analytics/backtesting/preloaded-candle.repository.ts).
pub mod Window
pub mod Laws
use mathlib.Core.List.{reverse}
use lametrader.Prelude.{
  ℕ, ◌-◌, ◌*◌, Bool, true, false, not, ◌&&◌, ◌||◌, String, Option, none, some, List, [], ◌∷◌,
  length, filter, take, leb, ltb, if◌then◌else◌, text_keyed,
}
use lametrader.Prelude.Map
use lametrader.Prelude.Map.{Map}
use lametrader.Prelude.Timed.{before, slice_last}
use lametrader.Config.{Period, period_millis}
use lametrader.Market.Candle.{Candle, time_of}
use lametrader.Market.Candles.{CandleReads, within, limited, series_key}

-- The resident window of a series; times before the epoch are taken as the epoch.
pub record ResidentSeries (N : Type 0) : Type 0 where
  pub floor : ℕ
  pub end : ℕ
  pub candles : List (Candle N)
  pub complete_below : Bool

pub record PreloadedCandles (N : Type 0) : Type 0 where
  pub inner : CandleReads N
  pub series : Map String (ResidentSeries N)

module _ {N : Type 0} where
  -- The window serves the read, or the store does.
  unfoldable pub resident_range :
      Option (ResidentSeries N) → ℕ → ℕ → Option ℕ → List (Candle N) → List (Candle N)
  resident_range none from to limit delegated = delegated
  resident_range (some r) from to limit delegated =
      if (ltb from r.floor && not r.complete_below) || ltb r.end to
      then delegated
      else limited limit (filter (within from to) r.candles)

  unfoldable pub newest_resident : ℕ → ℕ → ResidentSeries N → List (Candle N)
  newest_resident n b r = reverse (slice_last n (before time_of b r.candles))

  unfoldable pub resident_latest_n :
      Option (ResidentSeries N) → ℕ → Option ℕ → List (Candle N) → List (Candle N)
  unfolding newest_resident
  resident_latest_n none n b delegated = delegated
  resident_latest_n (some r) n none delegated = delegated
  resident_latest_n (some r) n (some b) delegated =
      if ltb r.end b
      then delegated
      else if leb n 0
      then []
      else if leb n (length (newest_resident n b r)) || r.complete_below
      then newest_resident n b r
      else delegated

  -- The reads of the wrapper.
  unfoldable pub preloaded_reads : PreloadedCandles N → CandleReads N
  unfolding resident_range resident_latest_n series_key
  preloaded_reads pre = record {
    latest_n = λ s p n b.
        resident_latest_n (Map.get (series_key s p) pre.series) n b (pre.inner.latest_n s p n b);
    range = λ s p from to limit.
        resident_range (Map.get (series_key s p) pre.series) from to limit
          (pre.inner.range s p from to limit);
  }

  abbrev pub is_empty : List (Candle N) → Bool
  is_empty [] = true
  is_empty (c ∷ cs) = false

  unfoldable pub load_series : CandleReads N → String → ℕ → ℕ → ℕ → Period → ResidentSeries N
  load_series inner symbol_id bars start end period =
      let floor = start - bars * period_millis period in
      record {
        floor = floor;
        end = end;
        candles = inner.range symbol_id period floor end none;
        complete_below = is_empty (inner.latest_n symbol_id period 1 (some floor));
      }

  -- The windows of the periods, each under its key.
  unfoldable pub load_all :
      CandleReads N
      → String
      → ℕ
      → ℕ
      → ℕ
      → List Period
      → Map String (ResidentSeries N)
      → Map String (ResidentSeries N)
  unfolding load_series series_key
  load_all inner symbol_id bars start end [] series = series
  load_all inner symbol_id bars start end (p ∷ ps) series =
      load_all inner symbol_id bars start end ps
        (Map.set (series_key symbol_id p) (load_series inner symbol_id bars start end p) series)

  -- `preloadCandleRepository`: symbol, periods, bars, start, end.
  unfoldable pub preload : CandleReads N → String → List Period → ℕ → ℕ → ℕ → PreloadedCandles N
  unfolding load_all
  preload inner symbol_id periods bars start end = record {
    inner = inner;
    series = load_all inner symbol_id bars start end periods [];
  }
