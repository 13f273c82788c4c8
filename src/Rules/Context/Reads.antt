-- ===== src/Rules/Context/Reads.antt =====
-- What the two reads of a view give, and how far it sees.
use lametrader.Prelude.{
  ℕ, ◌≤◌, ◌<◌, ◌≡◌, refl, ap, ◌∙◌, Option, none, some, List, [], ◌∷◌, All, get_elem?, text_keyed,
  arith,
}
use lametrader.State.{StateValue}
use lametrader.Rules.Series.{SeriesPoint, SeriesView}
use lametrader.Rules.Views.{as_of_walk}
use lametrader.Rules.Views.Bars.{IsWalkBelow, IsConsistent}
use lametrader.Rules.Context.{
  max_safe_integer, prev_from_walk, prev_from_series, value_of, latest_of, read_view,
  or_empty_series, state_series,
}

module _ {N : Type 0} where
  -- A view as the engine may read it: bounded, in time order, with the two reads in agreement.
  pub record IsSound (before : ℕ) (view : SeriesView N) : Type 0 where
    pub walk : IsWalkBelow before view.backward_walk
    pub consistent : IsConsistent view

  -- The values of the newest points.
  abbrev pub nth_value : ℕ → SeriesView N → Option (StateValue N)
  nth_value n view = value_of (get_elem? view.backward_walk n)

  newest_as_of :
      (before : ℕ) (walk : List (SeriesPoint N))
      → before ≤ max_safe_integer
      → All (λ p. p.ts < before) walk
      → as_of_walk max_safe_integer walk ≡ get_elem? walk 0
  unfolding as_of_walk
  newest_as_of before [] h a = refl
  newest_as_of before (p ∷ walk) h a =
      let low : p.ts ≤ max_safe_integer = omega arith in ground arith

  prev_from_walk-second :
      (walk : List (SeriesPoint N)) → prev_from_walk walk ≡ value_of (get_elem? walk 1)
  unfolding prev_from_walk
  prev_from_walk-second [] = refl
  prev_from_walk-second (p ∷ []) = refl
  prev_from_walk-second (p ∷ q ∷ walk) = refl

  -- The two reads of an operand that is a series, through the view that it has or none.
  abbrev pub AllSound : ℕ → Option (SeriesView N) → Type 0
  AllSound before none = Unit
  AllSound before (some view) = IsSound before view

  latest-view :
      (before : ℕ) (view : Option (SeriesView N))
      → before ≤ max_safe_integer
      → AllSound before view
      → read_view latest_of view ≡ nth_value 0 (or_empty_series view)
  unfolding latest_of or_empty_series
  latest-view before none h s = refl
  latest-view before (some view) h s =
      ap value_of
        (s.consistent max_safe_integer ∙ newest_as_of before view.backward_walk h s.walk.under)

  prev-view :
      (view : Option (SeriesView N))
      → read_view prev_from_series view ≡ nth_value 1 (or_empty_series view)
  unfolding prev_from_series or_empty_series
  prev-view none = refl
  prev-view (some view) = prev_from_walk-second view.backward_walk

  latest-state : (v : Option (StateValue N)) → v ≡ nth_value 0 (state_series v)
  unfolding state_series
  latest-state none = refl
  latest-state (some v) = refl

  -- What the reads of an operand say of its series.
  pub record ReadsSeries (latest prev : Option (StateValue N)) (before : ℕ) (view : SeriesView N)
      : Type 0 where
    pub newest : latest ≡ nth_value 0 view
    pub second : prev ≡ nth_value 1 view
    pub under : IsWalkBelow before view.backward_walk

  pub reads_view :
      (before : ℕ) (view : Option (SeriesView N))
      → before ≤ max_safe_integer
      → AllSound before view
      → ReadsSeries
          (read_view latest_of view)
          (read_view prev_from_series view)
          before
          (or_empty_series view)
  reads_view before view h s = record {
    newest = latest-view before view h s;
    second = prev-view view;
    under = below view s;
  }
    where
      below :
          (view : Option (SeriesView N))
          → AllSound before view
          → IsWalkBelow before (or_empty_series view).backward_walk
      below none s = unfold or_empty_series in record { falling = tt; under = tt }
      below (some view) s = unfold or_empty_series in s.walk
