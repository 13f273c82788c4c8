-- ===== src/Rules/Views/Forming/RollUp.antt =====
-- The value of the forming bar, and how it is layered on the closed bars.
use lametrader.Prelude.{
  ℕ, ◌≡◌, refl, ap, ◌∙◌, Bool, true, false, Option, none, some, List, [], ◌∷◌, ◌++◌, if◌then◌else◌,
  Option-cases, inl, inr, arith,
}
use lametrader.Float.{Float, Extremes}
use lametrader.State.{num}
use lametrader.Market.Candle.{Candle}
use lametrader.Rules.Series.{SeriesPoint, SeriesView}
use lametrader.Rules.Views.{
  BarAxis, open_axis, high_axis, low_axis, close_axis, volume_axis, read_axis, as_of_walk,
}
use lametrader.Rules.Views.Forming.{
  Roll, start_value, roll_step, roll, rolled, aggregate_axis, forming_walk, forming_as_of,
}

module _ {N : Type 0} where
  -- The values of an axis, the newest first.
  pub axis_values : BarAxis → List (Candle N) → List N
  axis_values axis [] = []
  axis_values axis (c ∷ cs) =
      let rest = axis_values axis cs in elim (read_axis c axis) [ none ↦ rest | some v ↦ v ∷ rest ]

  -- The point of the forming bar, if the window holds a value.
  unfoldable pub forming_points : ℕ → Option N → List (SeriesPoint N)
  forming_points start none = []
  forming_points start (some v) = record { ts = start; value = num v } ∷ []

  abbrev pub accumulate : (N → N → N) → N → List N → N
  accumulate g a [] = a
  accumulate g a (v ∷ vs) = accumulate g (g a v) vs

module _ {N : Type 0} ⦃f : Float N⦄ ⦃x : Extremes N⦄ where
  -- The value of a bar by the values in it: the open is the oldest, the close the newest, the high
  -- and the low the extremes, and the volume the sum.
  pub bar_value : BarAxis → List N → Option N
  bar_value axis [] = none
  bar_value open_axis (v ∷ vs) = some (accumulate (λ a b. b) v vs)
  bar_value high_axis (v ∷ vs) = some (accumulate x.max (x.max (f.neg x.infinity) v) vs)
  bar_value low_axis (v ∷ vs) = some (accumulate x.min (x.min x.infinity v) vs)
  bar_value close_axis (v ∷ vs) = some v
  bar_value volume_axis (v ∷ vs) = some (accumulate f.add (f.add (f.lit 0) v) vs)

  pub roll_values : BarAxis → List N → Roll N → Roll N
  roll_values axis [] r = r
  roll_values axis (v ∷ vs) r = roll_values axis vs (roll_step axis v r)

  pub roll-values :
      (axis : BarAxis) (cs : List (Candle N)) (r : Roll N)
      → roll axis cs r ≡ roll_values axis (axis_values axis cs) r
  unfolding roll axis_values roll_values
  roll-values axis [] r = refl
  roll-values axis (c ∷ cs) r = elim (Option-cases (read_axis c axis)) [
    | inl e ↦ rw (e, roll, axis_values) (roll-values axis cs r)
    | inr (v, e) ↦ rw (e, roll, axis_values) (roll-values axis cs (roll_step axis v r))
  ]

  -- What a value was found for.
  abbrev pub outcome : BarAxis → Roll N → Option N
  outcome axis r = if r.any then some (rolled axis r) else none

  -- The variables once a value was seen.
  abbrev pub seen : N → N → N → Bool → Roll N
  seen a o c set = record { any = true; acc = a; «open» = o; close = c; close_set = set }

  pub rolled-open :
      (vs : List N) (a o c : N) (set : Bool)
      → outcome open_axis (roll_values open_axis vs (seen a o c set))
        ≡ some (accumulate (λ a b. b) o vs)
  unfolding roll_values
  rolled-open [] a o c set = refl
  rolled-open (v ∷ vs) a o c set = rolled-open vs a v c set

  pub rolled-close :
      (vs : List N) (a o c : N)
      → outcome close_axis (roll_values close_axis vs (seen a o c true)) ≡ some c
  unfolding roll_values
  rolled-close [] a o c = refl
  rolled-close (v ∷ vs) a o c = rolled-close vs a o c

  pub rolled-high :
      (vs : List N) (a o c : N) (set : Bool)
      → outcome high_axis (roll_values high_axis vs (seen a o c set)) ≡ some (accumulate x.max a vs)
  unfolding roll_values
  rolled-high [] a o c set = refl
  rolled-high (v ∷ vs) a o c set = rolled-high vs (x.max a v) o c set

  pub rolled-low :
      (vs : List N) (a o c : N) (set : Bool)
      → outcome low_axis (roll_values low_axis vs (seen a o c set)) ≡ some (accumulate x.min a vs)
  unfolding roll_values
  rolled-low [] a o c set = refl
  rolled-low (v ∷ vs) a o c set = rolled-low vs (x.min a v) o c set

  pub rolled-volume :
      (vs : List N) (a o c : N) (set : Bool)
      → outcome volume_axis (roll_values volume_axis vs (seen a o c set))
        ≡ some (accumulate f.add a vs)
  unfolding roll_values
  rolled-volume [] a o c set = refl
  rolled-volume (v ∷ vs) a o c set = rolled-volume vs (f.add a v) o c set

  pub rolled-values :
      (axis : BarAxis) (vs : List N)
      → outcome axis (
          roll_values axis vs (record {
            any = false;
            acc = start_value axis;
            «open» = f.lit 0;
            close = f.lit 0;
            close_set = false;
          }))
        ≡ bar_value axis vs
  unfolding roll_values bar_value
  rolled-values open_axis [] = refl
  rolled-values high_axis [] = refl
  rolled-values low_axis [] = refl
  rolled-values close_axis [] = refl
  rolled-values volume_axis [] = refl
  rolled-values open_axis (v ∷ vs) = rolled-open vs _ v _ _
  rolled-values high_axis (v ∷ vs) = rolled-high vs _ _ _ _
  rolled-values low_axis (v ∷ vs) = rolled-low vs _ _ _ _
  rolled-values close_axis (v ∷ vs) = rolled-close vs _ _ v
  rolled-values volume_axis (v ∷ vs) = rolled-volume vs _ _ _ _

  pub aggregate_axis-values :
      (axis : BarAxis) (cs : List (Candle N))
      → aggregate_axis axis cs ≡ bar_value axis (axis_values axis cs)
  unfolding aggregate_axis
  aggregate_axis-values axis cs =
      ap (outcome axis) (roll-values axis cs _) ∙ rolled-values axis (axis_values axis cs)

  pub forming_walk-points :
      (start : ℕ) (value : Option N) (tail : SeriesView N)
      → forming_walk start value tail ≡ forming_points start value ++ tail.backward_walk
  unfolding forming_walk forming_points
  forming_walk-points start none tail = refl
  forming_walk-points start (some v) tail = refl

  pub forming-IsConsistent :
      (start : ℕ) (value : Option N) (tail : SeriesView N) (ts : ℕ)
      → tail.as_of ts ≡ as_of_walk ts tail.backward_walk
      → forming_as_of start value tail ts ≡ as_of_walk ts (forming_walk start value tail)
  unfolding forming_as_of forming_walk as_of_walk
  forming-IsConsistent start none tail ts h = h
  forming-IsConsistent start (some v) tail ts h = ground arith
