-- ===== src/Market/Candle.antt =====
-- A candle of any asset class (packages/core/src/types/market-data/candle.types.ts).
use lametrader.Prelude.{ℕ, String, Bool}
use lametrader.Config.{Period}

module _ (N : Type 0) where
  pub record BaseCandle : Type 0 where
    pub time : ℕ
    pub «open» : N
    pub high : N
    pub low : N
    pub close : N

  -- After the prices: the volume, and for a crypto candle the quote volume and the trades.
  pub data Candle : Type 0 where
    crypto : BaseCandle → N → N → ℕ → Candle
    stock : BaseCandle → N → Candle
    fund : BaseCandle → N → Candle
    fx : BaseCandle → Candle

module _ {N : Type 0} where
  abbrev pub base : Candle N → BaseCandle N
  base (crypto b v q n) = b
  base (stock b v) = b
  base (fund b v) = b
  base (fx b) = b

  abbrev pub time_of : Candle N → ℕ
  time_of c = (base c).time

-- A candle that polling observed, and whether its bar has closed.
pub record CandleEvent (N : Type 0) : Type 0 where
  pub id : String
  pub period : Period
  pub candle : Candle N
  pub final : Bool
