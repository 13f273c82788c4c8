-- ===== src/Market/Candles.antt =====
-- The reads of a candle store (the CandleRepository of
-- packages/core/src/types/market-data/candle.types.ts) as an interface with laws, and the store in
-- memory (packages/backend/src/market/persistence/in-memory-candle.repository.ts).
pub mod InMemory
use mathlib.Core.List.{reverse}
use lametrader.Prelude.{
  ℕ, ◌≡◌, Bool, String, Option, none, some, List, [], ◌∷◌, ◌&&◌, filter, take, ltb, leb, not,
  number_keyed, text_keyed,
}
use lametrader.Prelude.Map
use lametrader.Prelude.Map.{Map, values}
use lametrader.Prelude.Sort.{sort_by}
use lametrader.Prelude.Timed.{slice_last, before, NewestFirst}
use lametrader.Text.{append, starts_with}
use lametrader.Config.{Period, period_value}
use lametrader.Market.Candle.{Candle, time_of}

-- The reads of a store at one time. A bound of `none` is no bound.
pub record CandleReads (N : Type 0) : Type 0 where
  -- symbol, period, how many, before
  pub latest_n : String → Period → ℕ → Option ℕ → List (Candle N)
  -- symbol, period, from, to, limit
  pub range : String → Period → ℕ → ℕ → Option ℕ → List (Candle N)

module _ {N : Type 0} where
  abbrev pub bounded : Option ℕ → List (Candle N) → List (Candle N)
  bounded none candles = candles
  bounded (some t) candles = before time_of t candles

  abbrev pub limited : Option ℕ → List (Candle N) → List (Candle N)
  limited none candles = candles
  limited (some n) candles = take n candles

  abbrev pub within : ℕ → ℕ → Candle N → Bool
  within from to c = leb from (time_of c) && ltb (time_of c) to

  -- What the port documents: a store holds at most one candle of a symbol, a period and a time.
  -- `latestN` reads the newest before a bound, the newest first; `range` reads those of a window,
  -- the oldest first.
  pub record CandleLaws (reads : CandleReads N) (history : String → Period → List (Candle N))
      : Type 0 where
    pub newest_first : (s : String) (p : Period) → NewestFirst time_of (history s p)
    pub latest_n_eq :
        (s : String) (p : Period) (n : ℕ) (b : Option ℕ)
        → reads.latest_n s p n b ≡ take n (bounded b (history s p))
    pub range_eq :
        (s : String) (p : Period) (from to : ℕ) (limit : Option ℕ)
        → reads.range s p from to limit
          ≡ limited limit (reverse (filter (within from to) (history s p)))

-- Each series is a map from times to candles.
pub record InMemoryCandles (N : Type 0) : Type 0 where
  pub series : Map String (Map ℕ (Candle N))

unfoldable pub series_key : String → Period → String
series_key symbol_id period = append symbol_id (append "|" (period_value period))

module _ {N : Type 0} where
  unfoldable pub by_time : Option (Map ℕ (Candle N)) → Map ℕ (Candle N)
  by_time none = []
  by_time (some m) = m

  unfoldable pub put_candles : List (Candle N) → Map ℕ (Candle N) → Map ℕ (Candle N)
  put_candles [] m = m
  put_candles (c ∷ cs) m = put_candles cs (Map.set (time_of c) c m)

  unfoldable pub save_candles :
      String → Period → List (Candle N) → InMemoryCandles N → InMemoryCandles N
  unfolding by_time put_candles series_key
  save_candles symbol_id period candles repo =
      let key = series_key symbol_id period in
      record repo {
        series = Map.set key (put_candles candles (by_time (Map.get key repo.series))) repo.series;
      }

  -- All candles of a series, ascending by time.
  unfoldable pub sorted : String → Period → InMemoryCandles N → List (Candle N)
  unfolding by_time series_key
  sorted symbol_id period repo =
      sort_by (λ a b. leb (time_of a) (time_of b))
        (values (by_time (Map.get (series_key symbol_id period) repo.series)))

  unfoldable pub range : String → Period → ℕ → ℕ → Option ℕ → InMemoryCandles N → List (Candle N)
  range symbol_id period from to limit repo =
      let matched = filter (within from to) (sorted symbol_id period repo) in
      elim limit [ none ↦ matched | some n ↦ take n matched ]

  last_candle : List (Candle N) → Option (Candle N)
  last_candle [] = none
  last_candle (c ∷ []) = some c
  last_candle (c ∷ d ∷ cs) = last_candle (d ∷ cs)

  unfoldable pub latest : String → Period → InMemoryCandles N → Option (Candle N)
  unfolding last_candle
  latest symbol_id period repo = last_candle (sorted symbol_id period repo)

  unfoldable pub latest_n : String → Period → ℕ → Option ℕ → InMemoryCandles N → List (Candle N)
  latest_n symbol_id period n b repo =
      reverse (slice_last n (bounded b (sorted symbol_id period repo)))

  unfoldable pub delete_symbol : String → InMemoryCandles N → InMemoryCandles N
  delete_symbol symbol_id repo =
      let prefix = append symbol_id "|" in
      record repo { series = filter (λ e. not (starts_with e.0 prefix)) repo.series }

  -- The reads of the store in memory.
  unfoldable pub in_memory_reads : InMemoryCandles N → CandleReads N
  unfolding latest_n range sorted
  in_memory_reads repo = record {
    latest_n = λ s p n b. latest_n s p n b repo;
    range = λ s p from to limit. range s p from to limit repo;
  }
