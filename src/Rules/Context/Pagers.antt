-- ===== src/Rules/Context/Pagers.antt =====
-- A context over the pagers of the candle store.
use text.Mathlib.TextLemmas.{cons-append, nil-append}
use lametrader.Prelude.{
  ℕ, ◌≤◌, ◌<◌, ◌≡◌, refl, sym, ap, ◌∙◌, ◌⊎◌, inl, inr, true, String, Option, none, some, List, [],
  ◌∷◌, length, In, if◌then◌else◌, ◌==◌, ==_iff, text_keyed, Bool-cases, arith,
}
use lametrader.Prelude.Map
use lametrader.Prelude.Map.{Map, get-set}
use lametrader.Prelude.Timed.{before}
use lametrader.Text.{append, bar, no_bar, last_part}
use lametrader.Config.{Period, period_value}
use lametrader.Config.Keys.{period_value_injective}
use lametrader.Market.Candle.{Candle, time_of}
use lametrader.Market.Candles.{CandleReads, CandleLaws}
use lametrader.Rules.Operand.{ConditionOperand, open_price, high, low, close, volume}
use lametrader.Rules.Series.{SeriesView}
use lametrader.Rules.Views.{
  BarAxis, open_axis, high_axis, low_axis, close_axis, volume_axis, paged_view, bar_points,
}
use lametrader.Rules.Views.Bars.{paged_view-walk, paged_view-IsConsistent, bar_points-IsWalkBelow}
use lametrader.Rules.Context.{
  EvaluationContextDeps, max_safe_integer, axis_value, bar_series_key, bar_series_for, read_view,
  latest_of, prev_from_series, or_empty_series, resolve_latest, resolve_prev, resolve_series,
  build_evaluation_context, build_bar_series_pagers,
}
use lametrader.Rules.Context.Reads.{IsSound, ReadsSeries, reads_view}

-- An axis by its value.
axis_of : String → Option BarAxis
axis_of s =
    if s == "open"
    then some open_axis
    else if s == "high"
    then some high_axis
    else if s == "low"
    then some low_axis
    else if s == "close"
    then some close_axis
    else if s == "volume"
    then some volume_axis
    else none

axis_of-value : (a : BarAxis) → axis_of (axis_value a) ≡ some a
unfolding axis_of
axis_of-value open_axis = refl
axis_of-value high_axis = refl
axis_of-value low_axis = refl
axis_of-value close_axis = refl
axis_of-value volume_axis = refl

axis_value_injective : (a b : BarAxis) → axis_value a ≡ axis_value b → a ≡ b
axis_value_injective a b e =
    let s : some a ≡ some b = sym (axis_of-value a) ∙ ap axis_of e ∙ axis_of-value b in cc

no_bar-axis : (a : BarAxis) → no_bar (axis_value a) ≡ true
unfolding no_bar
no_bar-axis open_axis = refl
no_bar-axis high_axis = refl
no_bar-axis low_axis = refl
no_bar-axis close_axis = refl
no_bar-axis volume_axis = refl

bar_series_key-bar :
    (p : Period) (a : BarAxis)
    → bar_series_key p a ≡ append (period_value p) (String.◌∷◌ bar (axis_value a))
unfolding bar_series_key
bar_series_key-bar p a = rw (cons-append, nil-append) refl

bar_series_key_injective :
    (p q : Period) (a b : BarAxis) → bar_series_key p a ≡ bar_series_key q b → (p ≡ q) × (a ≡ b)
bar_series_key_injective p q a b e =
    let (front, back) =
      last_part (period_value p) (period_value q) (axis_value a) (axis_value b) (no_bar-axis a)
        (no_bar-axis b) (sym (bar_series_key-bar p a) ∙ e ∙ bar_series_key-bar q b) in
    (period_value_injective p q front, axis_value_injective a b back)

module _ {N : Type 0} (reads : CandleReads N) (history : String → Period → List (Candle N))
    (laws : CandleLaws reads history) (s : String) (bound size fuel : ℕ) (positive : 0 < size)
    (enough : (p : Period) → length (history s p) < fuel) where
  paged-IsSound :
      (p : Period) (axis : BarAxis) → IsSound bound (paged_view reads s p axis bound size fuel)
  paged-IsSound p axis = record {
    walk =
        rw (paged_view-walk reads history laws s p axis size positive bound fuel (enough p))
          (bar_points-IsWalkBelow reads history laws s p axis size positive bound);
    consistent = paged_view-IsConsistent reads history laws s p axis size positive bound fuel;
  }

  abbrev pager : Period → BarAxis → SeriesView N
  pager p axis = paged_view reads s p axis bound size fuel

  get-put :
      (q p : Period) (b axis : BarAxis) (out : Map String (SeriesView N))
      → ((p ≡ q) × (axis ≡ b)) ⊎ (Map.get (bar_series_key p axis) out ≡ some (pager p axis))
      → Map.get (bar_series_key p axis) (Map.set (bar_series_key q b) (pager q b) out)
        ≡ some (pager p axis)
  get-put q p b axis out h =
      get-set (bar_series_key q b) (bar_series_key p axis) (pager q b) out
      ∙ elim (Bool-cases (bar_series_key q b == bar_series_key p axis)) [
        | inl same ↦
            let (x, y) = bar_series_key_injective q p b axis ((==_iff _ _).0 same) in
            rw same (ap some (ap (λ r. pager r b) x ∙ ap (pager p) y))
        | inr other ↦ rw other (elim h [
          | inl (x, y) ↦
              let k = ap (λ r. bar_series_key r b) (sym x) ∙ ap (bar_series_key p) (sym y) in
              absurd (ground (arith, ==_iff (bar_series_key q b) (bar_series_key p axis)))
          | inr found ↦ found
        ])
      ]

  abbrev IsFound : List (Period × BarAxis) → Map String (SeriesView N) → Period → BarAxis → Type 0
  IsFound required out p axis =
      In (p, axis) required ⊎ (Map.get (bar_series_key p axis) out ≡ some (pager p axis))

  IsFound-later :
      (q p : Period) (b axis : BarAxis) (required : List (Period × BarAxis))
      (out : Map String (SeriesView N))
      → IsFound ((q, b) ∷ required) out p axis
      → IsFound required (Map.set (bar_series_key q b) (pager q b) out) p axis
  IsFound-later q p b axis required out (inl (inl e)) =
      inr (get-put q p b axis out (inl (ap (λ x. x.0) e, ap (λ x. x.1) e)))
  IsFound-later q p b axis required out (inl (inr h)) = inl h
  IsFound-later q p b axis required out (inr h) = inr (get-put q p b axis out (inr h))

  -- Each required pager stands under its key.
  pagers-find :
      (required : List (Period × BarAxis)) (out : Map String (SeriesView N)) (p : Period)
      (axis : BarAxis)
      → IsFound required out p axis
      → Map.get
          (bar_series_key p axis)
          (build_bar_series_pagers reads s bound size fuel required out)
        ≡ some (pager p axis)
  unfolding build_bar_series_pagers
  pagers-find [] out p axis (inl h) = absurd h
  pagers-find [] out p axis (inr h) = h
  pagers-find ((q, b) ∷ required) out p axis h =
      pagers-find required (Map.set (bar_series_key q b) (pager q b) out) p axis
        (IsFound-later q p b axis required out h)

or_empty_series-some : {N : Type 0} (view : SeriesView N) → or_empty_series (some view) ≡ view
unfolding or_empty_series
or_empty_series-some view = refl

-- The operand of an axis; `Price` reads the close as `Close` does.
abbrev pub operand_of : {N : Type 0} → BarAxis → ConditionOperand N
operand_of open_axis = open_price
operand_of high_axis = high
operand_of low_axis = low
operand_of close_axis = close
operand_of volume_axis = volume

module _ {N : Type 0} (deps : EvaluationContextDeps N) where
  abbrev BarReads : Option (SeriesView N) → Type 0
  BarReads view =
      ReadsSeries (read_view latest_of view) (read_view prev_from_series view) deps.before
        (or_empty_series view)

  axis-reads :
      (p : Period) (axis : BarAxis)
      → BarReads (Map.get (bar_series_key p axis) deps.bar_series)
      → let ctx = build_evaluation_context deps in
        ReadsSeries
          (ctx.resolve_latest (operand_of axis) (some p))
          (ctx.resolve_prev (operand_of axis) (some p))
          deps.before
          (ctx.resolve_series (operand_of axis) (some p))
  unfolding build_evaluation_context resolve_latest resolve_prev resolve_series bar_series_for
  axis-reads p open_axis h = h
  axis-reads p high_axis h = h
  axis-reads p low_axis h = h
  axis-reads p close_axis h = h
  axis-reads p volume_axis h = h

  axis-series :
      (p : Period) (axis : BarAxis)
      → (build_evaluation_context deps).resolve_series (operand_of axis) (some p)
        ≡ or_empty_series (Map.get (bar_series_key p axis) deps.bar_series)
  unfolding build_evaluation_context resolve_series bar_series_for
  axis-series p open_axis = refl
  axis-series p high_axis = refl
  axis-series p low_axis = refl
  axis-series p close_axis = refl
  axis-series p volume_axis = refl

module _ {N : Type 0} (reads : CandleReads N) (history : String → Period → List (Candle N))
    (laws : CandleLaws reads history) (size fuel : ℕ) (positive : 0 < size)
    (deps : EvaluationContextDeps N) (required : List (Period × BarAxis))
    (pagers : deps.bar_series
      ≡ build_bar_series_pagers reads deps.symbol_id deps.before size fuel required [])
    (safe : deps.before ≤ max_safe_integer)
    (enough : (p : Period) → length (history deps.symbol_id p) < fuel) where
  -- Where the context's bar series are the pagers of the store, whatever the size of a page: for a
  -- required period and axis, the series of the axis' operand in a row of the period is the axis of
  -- all the symbol's candles of the period below the bound, the newest first; the operand's latest
  -- and previous values are those of its first two points, or `null`; and no point at or after the
  -- bound is seen.
  pub context_reads_candles :
      (p : Period) (axis : BarAxis)
      → In (p, axis) required
      → let ctx = build_evaluation_context deps in
        let view = ctx.resolve_series (operand_of axis) (some p) in
        (view.backward_walk
          ≡ bar_points axis (before time_of deps.before (history deps.symbol_id p)))
        × ReadsSeries
            (ctx.resolve_latest (operand_of axis) (some p))
            (ctx.resolve_prev (operand_of axis) (some p))
            deps.before
            view
  context_reads_candles p axis i =
      let found =
        ap (Map.get (bar_series_key p axis)) pagers
        ∙ pagers-find reads history laws deps.symbol_id deps.before size fuel positive enough
            required [] p axis (inl i) in
      let view = paged_view reads deps.symbol_id p axis deps.before size fuel in
      (
        ap (λ v. v.backward_walk)
              (axis-series deps p axis ∙ ap or_empty_series found ∙ or_empty_series-some view)
            ∙ paged_view-walk reads history laws deps.symbol_id p axis size positive deps.before
                fuel (enough p),
        axis-reads deps p axis (
            rw found (
              reads_view deps.before (some view) safe (
                paged-IsSound reads history laws deps.symbol_id deps.before size fuel positive
                  enough p axis))),
      )
