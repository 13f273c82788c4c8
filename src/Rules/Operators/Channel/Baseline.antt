-- ===== src/Rules/Operators/Channel/Baseline.antt =====
-- The sides of a channel and the baseline of a walk, as relations of their own, and the walk of
-- packages/backend/src/analytics/rules/operators/channel.ts that finds it.
use lametrader.Prelude.{
  ◌≡◌, refl, sym, ◌∙◌, ◌⊎◌, inl, inr, true, false, ◌||◌, some, List, [], ◌∷◌, arith, Option-cases,
  Bool-cases, find_map,
}
use lametrader.Float.{Float}
use lametrader.Rules.Series.{SeriesPoint, SeriesView, numeric_point, numeric_as_of}
use lametrader.Rules.Operators.Channel.{Banded, banded, on_boundary}
use lametrader.Rules.Operators.Channel.Laws.{off_boundary}

-- What is asked of `<=` and `===`: `<=` is `<` or `===`, and `===` is symmetric.
pub record ComparisonLaws {N : Type 0} (f : Float N) : Type 0 where
  pub le_is : (a b : N) → f.le a b ≡ (f.lt a b || f.same a b)
  pub same_symmetric : (a b : N) → f.same a b ≡ f.same b a

module _ {N : Type 0} ⦃f : Float N⦄ where
  -- A point with the bounds as of its time, each a number.
  pub record IsBanded (lower upper : SeriesView N) (point : SeriesPoint N) (b : Banded N)
      : Type 0 where
    pub value_is : numeric_point point.value ≡ some b.value
    pub lower_is : numeric_as_of lower point.ts ≡ some b.lower
    pub upper_is : numeric_as_of upper point.ts ≡ some b.upper

  -- Inside `[lower, upper]`, and strictly inside.
  abbrev pub InClosed : Banded N → Type 0
  InClosed b = (f.le b.lower b.value ≡ true) × (f.le b.value b.upper ≡ true)

  abbrev pub InOpen : Banded N → Type 0
  InOpen b = (f.lt b.lower b.value ≡ true) × (f.lt b.value b.upper ≡ true)

  -- Outside or on the boundary, and strictly outside.
  abbrev pub OutOrOn : Banded N → Type 0
  OutOrOn b = (f.le b.value b.lower ≡ true) ⊎ (f.le b.upper b.value ≡ true)

  abbrev pub OutOf : Banded N → Type 0
  OutOf b = (f.lt b.value b.lower ≡ true) ⊎ (f.lt b.upper b.value ≡ true)

  abbrev pub IsOff : Banded N → Type 0
  IsOff b = (f.same b.value b.lower ≡ false) × (f.same b.value b.upper ≡ false)

  abbrev pub IsOn : Banded N → Type 0
  IsOn b = (f.same b.value b.lower ≡ true) ⊎ (f.same b.value b.upper ≡ true)

  -- The baseline: the first point with its bounds that is off both of them.
  pub data BaselineIs (lower upper : SeriesView N) (past : Banded N)
      : List (SeriesPoint N) → Type 0 where
    baseline_here :
        {p : SeriesPoint N} {older : List (SeriesPoint N)}
        → IsBanded lower upper p past
        → IsOff past
        → BaselineIs lower upper past (p ∷ older)
    past_unresolved :
        {p : SeriesPoint N} {older : List (SeriesPoint N)}
        → ((b : Banded N) → ¬ IsBanded lower upper p b)
        → BaselineIs lower upper past older
        → BaselineIs lower upper past (p ∷ older)
    past_bound :
        {p : SeriesPoint N} {older : List (SeriesPoint N)} (b : Banded N)
        → IsBanded lower upper p b
        → IsOn b
        → BaselineIs lower upper past older
        → BaselineIs lower upper past (p ∷ older)

  -- The newest point is on a side.
  pub record Ends (to : Banded N → Type 0) (lower upper : SeriesView N)
      (walk : List (SeriesPoint N)) : Type 0 where
    pub newest : SeriesPoint N
    pub older : List (SeriesPoint N)
    pub now : Banded N
    pub walk_is : walk ≡ newest ∷ older
    pub now_is : IsBanded lower upper newest now
    pub now_side : to now

  -- The newest point is on a side, and its baseline on another.
  pub record Moves (from to : Banded N → Type 0) (lower upper : SeriesView N)
      (walk : List (SeriesPoint N)) : Type 0 where
    pub ends : Ends to lower upper walk
    pub past : Banded N
    pub past_is : BaselineIs lower upper past ends.older
    pub past_side : from past

  -- The newest point, where it has its bounds, is off both of them.
  abbrev pub EndsOff : SeriesView N → SeriesView N → List (SeriesPoint N) → Type 0
  EndsOff lower upper walk =
      (newest : SeriesPoint N) (older : List (SeriesPoint N)) (b : Banded N)
      → walk ≡ newest ∷ older
      → IsBanded lower upper newest b
      → IsOff b

  pub banded-IsBanded :
      (lower upper : SeriesView N) (p : SeriesPoint N) (b : Banded N)
      → banded lower upper p ≡ some b
      → IsBanded lower upper p b
  unfolding banded
  banded-IsBanded lower upper p b h = elim (Option-cases (numeric_point p.value)) [
    | inl e ↦ absurd (ground arith)
    | inr (v, e) ↦ elim (Option-cases (numeric_as_of lower p.ts)) [
      | inl e' ↦ absurd (ground arith)
      | inr (lo, e') ↦ elim (Option-cases (numeric_as_of upper p.ts)) [
        | inl e'' ↦ absurd (ground arith)
        | inr (up, e'') ↦
            let same : record { value = v; lower = lo; upper = up } ≡ b = ground arith in
            record {
              value_is = rw (sym same) e;
              lower_is = rw (sym same) e';
              upper_is = rw (sym same) e'';
            }
      ]
    ]
  ]

  pub IsBanded-banded :
      {lower upper : SeriesView N} {p : SeriesPoint N} {b : Banded N}
      → IsBanded lower upper p b
      → banded lower upper p ≡ some b
  unfolding banded
  IsBanded-banded i = ground (arith, i.value_is, i.lower_is, i.upper_is)

  pub find-BaselineIs :
      (lower upper : SeriesView N) (older : List (SeriesPoint N)) (past : Banded N)
      → find_map (off_boundary lower upper) older ≡ some past
      → BaselineIs lower upper past older
  unfolding find_map off_boundary on_boundary
  find-BaselineIs lower upper [] past h = cc
  find-BaselineIs lower upper (p ∷ older) past h = elim (Option-cases (banded lower upper p)) [
    | inl e ↦
        past_unresolved (λ b i. let there = IsBanded-banded i in cc)
          (find-BaselineIs lower upper older past (ground arith))
    | inr (b, e) ↦ elim (Bool-cases (f.same b.value b.lower)) [
      | inl on ↦
          past_bound b (banded-IsBanded lower upper p b e) (inl on)
            (find-BaselineIs lower upper older past (ground arith))
      | inr off ↦ elim (Bool-cases (f.same b.value b.upper)) [
        | inl on ↦
            past_bound b (banded-IsBanded lower upper p b e) (inr on)
              (find-BaselineIs lower upper older past (ground arith))
        | inr off' ↦
            let same : b ≡ past = ground arith in
            baseline_here (banded-IsBanded lower upper p past (e ∙ rw same refl))
              (rw (sym same) off, rw (sym same) off')
      ]
    ]
  ]

  pub BaselineIs-find :
      {lower upper : SeriesView N} {past : Banded N} {older : List (SeriesPoint N)}
      → BaselineIs lower upper past older
      → find_map (off_boundary lower upper) older ≡ some past
  unfolding find_map off_boundary on_boundary
  BaselineIs-find (baseline_here i off) = let e = IsBanded-banded i in ground arith
  BaselineIs-find {lower} {upper} (past_unresolved {p} u r) =
      elim (Option-cases (banded lower upper p)) [
        | inl e ↦ ground (arith, BaselineIs-find r)
        | inr (b, e) ↦ absurd (u b (banded-IsBanded lower upper p b e))
      ]
  BaselineIs-find (past_bound b i (inl on) r) =
      let e = IsBanded-banded i in ground (arith, BaselineIs-find r)
  BaselineIs-find (past_bound b i (inr on) r) =
      let e = IsBanded-banded i in ground (arith, BaselineIs-find r)
