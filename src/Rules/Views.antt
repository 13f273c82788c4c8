-- ===== src/Rules/Views.antt =====
-- The views of a series (packages/backend/src/analytics/rules/bar-series-view.ts, and the
-- ArraySeriesView of indicator-series-store.ts). The loops that page through the candle store run
-- on fuel: one more than the candles below the bound is enough.
pub mod Paging
pub mod Bars
pub mod Forming
use mathlib.Core.List.{reverse}
use lametrader.Prelude.{
  ℕ, zero, suc, ◌-◌, Bool, true, false, ◌||◌, String, Option, none, some, List, [], ◌∷◌, ◌++◌,
  length, ltb, leb, if◌then◌else◌,
}
use lametrader.Prelude.Timed.{last_of}
use lametrader.Float.{Float}
use lametrader.Config.{Period}
use lametrader.State.{num}
use lametrader.Market.Candle.{Candle, base, time_of, crypto, stock, fund, fx}
use lametrader.Market.Candles.{CandleReads}
use lametrader.Rules.Series.{SeriesPoint, SeriesView}

pub data BarAxis : Type 0 where
  open_axis high_axis low_axis close_axis volume_axis : BarAxis

-- `BAR_SERIES_PAGE_SIZE`
abbrev pub bar_series_page_size : ℕ
bar_series_page_size = 64

module _ {N : Type 0} where
  -- The volume that the candle's asset class carries.
  abbrev pub volume_of : Candle N → Option N
  volume_of (crypto b v q n) = some v
  volume_of (stock b v) = some v
  volume_of (fund b v) = some v
  volume_of (fx b) = none

  unfoldable pub read_axis : Candle N → BarAxis → Option N
  read_axis c open_axis = some (base c).«open»
  read_axis c high_axis = some (base c).high
  read_axis c low_axis = some (base c).low
  read_axis c close_axis = some (base c).close
  read_axis c volume_axis = volume_of c

  -- The first point of a walk at or before a time (`asOf` over `backwardWalk`).
  unfoldable pub as_of_walk : ℕ → List (SeriesPoint N) → Option (SeriesPoint N)
  as_of_walk ts [] = none
  as_of_walk ts (p ∷ ps) = let rest = as_of_walk ts ps in if leb p.ts ts then some p else rest

  abbrev pub walk_view : List (SeriesPoint N) → SeriesView N
  walk_view walk = record { backward_walk = walk; as_of = λ ts. as_of_walk ts walk }

  -- A view over an array of points, ascending.
  unfoldable pub array_view : List (SeriesPoint N) → SeriesView N
  unfolding as_of_walk
  array_view points = walk_view (reverse points)

-- The loop that the paged reads share: fetch the page below the cursor, emit what it gives, and go
-- on below its oldest member, unless the page says to stop or is short. `none` is fuel run out.
module _ {A B : Type 0} (time : A → ℕ) (fetch : ℕ → List A) (size : ℕ)
    (emit : A → List A → List B × Bool) where
  unfoldable pub page_walk : ℕ → ℕ → Option (List B)
  page_walk zero cursor = none
  page_walk (suc fuel) cursor = elim (fetch cursor) [
    | [] ↦ some []
    | c ∷ cs ↦
        let (out, stop) = emit c cs in
        let rest = page_walk fuel (time (last_of time c cs)) in
        if stop || ltb (length (c ∷ cs)) size
        then some out
        else elim rest [ none ↦ none | some more ↦ some (out ++ more) ]
  ]

module _ {A : Type 0} where
  abbrev pub or_nothing : Option (List A) → List A
  or_nothing none = []
  or_nothing (some xs) = xs

module _ {N : Type 0} where
  -- The point of a candle, unless it lacks the axis.
  unfoldable pub bar_points : BarAxis → List (Candle N) → List (SeriesPoint N)
  unfolding read_axis
  bar_points axis [] = []
  bar_points axis (c ∷ cs) =
      let rest = bar_points axis cs in
      elim (read_axis c axis) [
        | none ↦ rest
        | some v ↦ record { ts = time_of c; value = num v } ∷ rest
      ]

  unfoldable pub paged_walk :
      CandleReads N → String → Period → BarAxis → ℕ → ℕ → ℕ → Option (List (SeriesPoint N))
  unfolding page_walk bar_points
  paged_walk reads symbol_id period axis before size fuel =
      page_walk time_of (λ cursor. reads.latest_n symbol_id period size (some cursor)) size
        (λ c cs. (bar_points axis (c ∷ cs), false)) fuel before

  -- `PagedBarSeriesView`: symbol, period, axis, exclusive bound, page size, fuel.
  unfoldable pub paged_view : CandleReads N → String → Period → BarAxis → ℕ → ℕ → ℕ → SeriesView N
  unfolding paged_walk as_of_walk
  paged_view reads symbol_id period axis before size fuel =
      walk_view (or_nothing (paged_walk reads symbol_id period axis before size fuel))

  -- `FallbackSeriesView`: the fallback stands in where the primary has no point at all.
  abbrev pub fallback_walk : List (SeriesPoint N) → List (SeriesPoint N) → List (SeriesPoint N)
  fallback_walk [] fallback = fallback
  fallback_walk (p ∷ ps) fallback = p ∷ ps

  unfoldable pub fallback_as_of :
      ℕ → List (SeriesPoint N) → (ℕ → Option (SeriesPoint N)) → Option (SeriesPoint N)
  unfolding as_of_walk
  fallback_as_of ts [] fallback = fallback ts
  fallback_as_of ts (p ∷ ps) fallback = as_of_walk ts (p ∷ ps)

  unfoldable pub fallback_view : SeriesView N → SeriesView N → SeriesView N
  unfolding fallback_as_of
  fallback_view primary fallback = record {
    backward_walk = fallback_walk primary.backward_walk fallback.backward_walk;
    as_of = λ ts. fallback_as_of ts primary.backward_walk fallback.as_of;
  }
