-- ===== src/Market/Backfill.antt =====
-- The backfill of a symbol's candles, and the pages they are read in
-- (packages/backend/src/market/backfill/backfill.service.ts and
-- packages/backend/src/common/domain/candle.ts). A provider's fetch is an argument: its candles,
-- whether they are all, and the progress that it reported. The frames of `onProgress` are a list
-- beside the result.
pub mod Chunks
pub mod Pages
use lametrader.Prelude.{
  ℕ, zero, suc, ◌+◌, ◌≡◌, Bool, true, false, String, Option, none, some, List, [], ◌∷◌, ◌++◌,
  length, take, get_elem?, any, ltb, if◌then◌else◌, ◌==◌, text_keyed,
}
use lametrader.Prelude.Timed.{drop, last_of}
use lametrader.Config.{Period, period_eq}
use lametrader.Market.Candle.{Candle, time_of}
use lametrader.Market.Candles.{CandleReads}
use lametrader.Market.Symbol.{SymbolType, WatchedSymbol, symbol_type, source_for_type}

-- `CHUNK_SIZE`
abbrev pub chunk_size : ℕ
chunk_size = 500

pub data BackfillPhase : Type 0 where
  fetching saving : BackfillPhase

pub record BackfillProgress : Type 0 where
  pub phase : BackfillPhase
  pub done : ℕ
  pub total : ℕ

pub record BackfillRange : Type 0 where
  pub from : ℕ
  pub to : ℕ

-- The errors that a backfill throws, and its fuel run out.
pub data BackfillFault : Type 0 where
  symbol_not_watched period_not_watched : String → BackfillFault
  unknown_symbol_type no_source : String → BackfillFault
  out_of_fuel : BackfillFault

pub record BackfillSummary : Type 0 where
  pub id : String
  pub period : Period
  pub from : Option ℕ
  pub to : Option ℕ
  pub fetched : ℕ
  pub saved : ℕ
  pub complete : Bool

-- What a fetch resolves to, with the frames that it reported.
pub record Fetched (N : Type 0) : Type 0 where
  pub candles : List (Candle N)
  pub complete : Bool
  pub reported : List BackfillProgress

pub record CandleFeed (N : Type 0) : Type 0 where
  pub types : List SymbolType
  pub fetch_candles : String → Period → Option BackfillRange → Fetched N

-- A fault, or the summary with the frames and the store after.
pub data BackfillResult (S : Type 0) : Type 0 where
  failed : BackfillFault → BackfillResult S
  backfilled : BackfillSummary → List BackfillProgress → S → BackfillResult S

module _ {N : Type 0} where
  abbrev pub first_time : List (Candle N) → Option ℕ
  first_time [] = none
  first_time (c ∷ cs) = some (time_of c)

  abbrev pub last_time : List (Candle N) → Option ℕ
  last_time [] = none
  last_time (c ∷ cs) = some (time_of (last_of time_of c cs))

-- `assertBackfillable`: the fault, if there is one.
unfoldable pub assert_backfillable : Option WatchedSymbol → String → Period → Option BackfillFault
assert_backfillable none id period = some (symbol_not_watched id)
assert_backfillable (some watched) id period =
    if any (λ p. p == period) watched.periods then none else some (period_not_watched id)

-- The outcome of the loop that saves: how many were saved, the frames, and the store after.
pub record Saved (S : Type 0) : Type 0 where
  pub saved : ℕ
  pub frames : List BackfillProgress
  pub store : S

module _ {N S : Type 0} (save : String → Period → List (Candle N) → S → S) where
  -- The loop over chunks of a size: how many are saved, and the candles that are left.
  unfoldable pub save_chunks :
      ℕ → String → Period → ℕ → ℕ → ℕ → List (Candle N) → S → Option (Saved S)
  save_chunks size id period total zero saved rest s = none
  save_chunks size id period total (suc fuel) saved [] s =
      some (record { saved = saved; frames = []; store = s })
  save_chunks size id period total (suc fuel) saved (c ∷ cs) s =
      let chunk = take size (c ∷ cs) in
      let saved' = saved + length chunk in
      let more =
        save_chunks size id period total fuel saved' (drop size (c ∷ cs))
          (save id period chunk s) in
      elim more [
        | none ↦ none
        | some r ↦ some (record r {
          frames = record { phase = saving; done = saved'; total = total } ∷ r.frames;
        })
      ]

  -- From the fetched candles on.
  unfoldable pub persist : ℕ → String → Period → Fetched N → S → BackfillResult S
  unfolding save_chunks
  persist fuel id period fetched s =
      let total = length fetched.candles in
      elim (save_chunks chunk_size id period total fuel 0 fetched.candles s) [
        | none ↦ failed out_of_fuel
        | some r ↦
            backfilled
              (record {
                id = id;
                period = period;
                from = first_time fetched.candles;
                to = last_time fetched.candles;
                fetched = total;
                saved = r.saved;
                complete = fetched.complete;
              })
              (fetched.reported ++ r.frames) r.store
      ]

  unfoldable pub fetch_from :
      ℕ → List (CandleFeed N) → String → Period → Option BackfillRange → S → BackfillResult S
  unfolding symbol_type source_for_type persist
  fetch_from fuel sources id period range s = elim (symbol_type id) [
    | none ↦ failed (unknown_symbol_type id)
    | some type ↦ elim (source_for_type (λ source. source.types) sources type) [
      | none ↦ failed (no_source id)
      | some source ↦ persist fuel id period (source.fetch_candles id period range) s
    ]
  ]

  -- `backfill`: fuel, the sources, the symbol as the watchlist has it, and the store.
  unfoldable pub backfill :
      ℕ
      → List (CandleFeed N)
      → Option WatchedSymbol
      → String
      → Period
      → Option BackfillRange
      → S
      → BackfillResult S
  unfolding assert_backfillable fetch_from
  backfill fuel sources watched id period range s = elim (assert_backfillable watched id period) [
    | some fault ↦ failed fault
    | none ↦ fetch_from fuel sources id period range s
  ]

pub record CandlePage (N : Type 0) : Type 0 where
  pub candles : List (Candle N)
  pub next_cursor : Option ℕ
  pub latest_time : Option ℕ

module _ {N : Type 0} where
  abbrev pub time_at : Option (Candle N) → Option ℕ
  time_at none = none
  time_at (some c) = some (time_of c)

  -- `read`: symbol, period, from, to, limit, and the latest candle of the series.
  unfoldable pub read_page :
      CandleReads N → String → Period → ℕ → ℕ → ℕ → Option (Candle N) → CandlePage N
  read_page reads id period from to limit latest =
      let rows = reads.range id period from to (some (limit + 1)) in
      if ltb limit (length rows)
      then record {
        candles = take limit rows;
        next_cursor = time_at (get_elem? rows limit);
        latest_time = time_at latest;
      }
      else record { candles = rows; next_cursor = none; latest_time = time_at latest }
