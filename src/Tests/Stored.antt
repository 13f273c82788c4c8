-- ===== src/Tests/Stored.antt =====
-- Two minutes of candles, in a store in memory and as the history of every series.
pub mod Views
use mathlib.Core.List.{reverse}
use lametrader.Prelude.{
  ℕ, ◌*◌, ◌≡◌, refl, String, none, some, List, [], ◌∷◌, filter, take, if◌then◌else◌, arith,
}
use lametrader.Float.{Extremes}
use lametrader.Float.Integers.{ℤ, pos, negsuc, int_float}
use lametrader.Config.{Period, one_minute}
use lametrader.Market.Candle.{Candle, stock}
use lametrader.Market.Candles.{CandleReads, CandleLaws, bounded, limited, within, in_memory_reads}
use lametrader.Market.Candles.InMemory.{
  CandleWrite, saved, deleted, run_writes, run_writes-CandleLaws, stored,
}

abbrev pub candle : ℕ → ℕ → Candle ℤ
candle minute price =
    stock
      (record {
        time = minute * 60_000;
        «open» = pos price;
        high = pos price;
        low = pos price;
        close = pos price;
      })
      (pos 5)

abbrev pub two_minutes : String → Period → List (Candle ℤ)
two_minutes s p = candle 1 12 ∷ candle 0 10 ∷ []

-- The store whose every series is that history.
abbrev pub minute_reads : CandleReads ℤ
minute_reads = record {
  latest_n = λ s p n b. take n (bounded b (two_minutes s p));
  range = λ s p from to limit. limited limit (reverse (filter (within from to) (two_minutes s p)));
}

pub minute_laws : CandleLaws minute_reads two_minutes
minute_laws = record {
  newest_first = λ s p. ((omega arith, tt), (tt, tt));
  latest_n_eq = λ s p n b. refl;
  range_eq = λ s p from to limit. refl;
}

instance abbrev pub int_extremes : Extremes ℤ
int_extremes = record {
  max = λ a b. if int_float.lt a b then b else a;
  min = λ a b. if int_float.lt a b then a else b;
  infinity = pos 1_000_000;
}

abbrev writes : List (CandleWrite ℤ)
writes =
    saved "BTC" one_minute (candle 1 11 ∷ candle 0 10 ∷ [])
    ∷ saved "ETH" one_minute (candle 0 7 ∷ [])
    ∷ saved "BTC" one_minute (candle 1 12 ∷ [])
    ∷ deleted "ETH"
    ∷ []

run_writes-CandleLaws_example :
    let repo = run_writes writes (record { series = [] }) in
    CandleLaws (in_memory_reads repo) (stored repo)
run_writes-CandleLaws_example = run_writes-CandleLaws writes
