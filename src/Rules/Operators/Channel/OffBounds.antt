-- ===== src/Rules/Operators/Channel/OffBounds.antt =====
-- The channel operators as the documentation of ChannelOperator in
-- packages/core/src/types/rules/operator.types.ts has them, against `evaluateChannel`. The code
-- tests the newest value strictly where the documentation counts the bounds in, so the two agree
-- where the newest value is off both bounds.
use lametrader.Prelude.{
  ◌≡◌, ◌↔◌, inl, inr, true, Bool, Option, List, arith, Bool-cases, find_map_iff,
}
use lametrader.Float.{Float}
use lametrader.Config.{Period}
use lametrader.Rules.Operand.{ConditionOperand}
use lametrader.Rules.Condition.{entering_channel, exiting_channel, inside_channel}
use lametrader.Rules.Series.{SeriesPoint, SeriesView, EvaluationContext}
use lametrader.Rules.Operators.Channel.{Banded, strictly_inside, strictly_outside, evaluate_channel}
use lametrader.Rules.Operators.Channel.Laws.{
  off_boundary, Passes, channel_leaf, evaluate_channel_iff,
}
use lametrader.Rules.Operators.Channel.Baseline.{
  ComparisonLaws, InClosed, InOpen, OutOrOn, OutOf, IsOff, Ends, Moves, EndsOff, banded-IsBanded,
  IsBanded-banded, find-BaselineIs, BaselineIs-find,
}

module _ {N : Type 0} ⦃f : Float N⦄ where
  -- Off the bounds a strict test and one that counts the bounds in agree.
  module _ (laws : ComparisonLaws f) where
    inside-InClosed : (b : Banded N) → strictly_inside b ≡ true → InClosed b
    unfolding strictly_inside
    inside-InClosed b h =
        (ground (arith, laws.le_is b.lower b.value), ground (arith, laws.le_is b.value b.upper))

    InClosed-inside : (b : Banded N) → IsOff b → InClosed b → strictly_inside b ≡ true
    unfolding strictly_inside
    InClosed-inside b off h = ground (
      arith,
      off.0,
      off.1,
      h.0,
      h.1,
      laws.le_is b.lower b.value,
      laws.le_is b.value b.upper,
      laws.same_symmetric b.lower b.value,
    )

    outside-OutOrOn : (b : Banded N) → strictly_outside b ≡ true → OutOrOn b
    unfolding strictly_outside
    outside-OutOrOn b h = elim (Bool-cases (f.lt b.value b.lower)) [
      | inl e ↦ inl (ground (arith, laws.le_is b.value b.lower))
      | inr e ↦ inr (ground (arith, laws.le_is b.upper b.value))
    ]

    OutOrOn-outside : (b : Banded N) → IsOff b → OutOrOn b → strictly_outside b ≡ true
    unfolding strictly_outside
    OutOrOn-outside b off (inl h) = ground (arith, off.0, h, laws.le_is b.value b.lower)
    OutOrOn-outside b off (inr h) =
        ground (arith, off.1, h, laws.le_is b.upper b.value, laws.same_symmetric b.upper b.value)

  inside-InOpen : (b : Banded N) → strictly_inside b ≡ true → InOpen b
  unfolding strictly_inside
  inside-InOpen b h = (ground arith, ground arith)

  InOpen-inside : (b : Banded N) → InOpen b → strictly_inside b ≡ true
  unfolding strictly_inside
  InOpen-inside b h = ground (arith, h.0, h.1)

  outside-OutOf : (b : Banded N) → strictly_outside b ≡ true → OutOf b
  unfolding strictly_outside
  outside-OutOf b h = elim (Bool-cases (f.lt b.value b.lower)) [
    | inl e ↦ inl e
    | inr e ↦ inr (ground arith)
  ]

  OutOf-outside : (b : Banded N) → OutOf b → strictly_outside b ≡ true
  unfolding strictly_outside
  OutOf-outside b (inl h) = ground (arith, h)
  OutOf-outside b (inr h) = ground (arith, h)

  module _ {lower upper : SeriesView N} {walk : List (SeriesPoint N)} where
    Passes-Moves :
        {from to : Banded N → Bool} {past_on now_on : Banded N → Type 0}
        → ((b : Banded N) → from b ≡ true → past_on b)
        → ((b : Banded N) → to b ≡ true → now_on b)
        → Passes from to lower upper walk
        → Moves past_on now_on lower upper walk
    Passes-Moves past_on now_on p = record {
      ends = record {
        newest = p.newest;
        older = p.older;
        now = p.now;
        walk_is = p.walk_is;
        now_is = banded-IsBanded lower upper p.newest p.now p.now_is;
        now_side = now_on p.now p.now_side;
      };
      past = p.past;
      past_is =
          find-BaselineIs lower upper p.older p.past
            ((find_map_iff (off_boundary lower upper) p.older p.past).1 p.past_is);
      past_side = past_on p.past p.past_side;
    }

    Moves-Passes :
        {from to : Banded N → Bool} {past_on now_on : Banded N → Type 0}
        → EndsOff lower upper walk
        → ((b : Banded N) → past_on b → from b ≡ true)
        → ((b : Banded N) → IsOff b → now_on b → to b ≡ true)
        → Moves past_on now_on lower upper walk
        → Passes from to lower upper walk
    Moves-Passes off past_on now_on m = record {
      newest = m.ends.newest;
      older = m.ends.older;
      now = m.ends.now;
      past = m.past;
      walk_is = m.ends.walk_is;
      now_is = IsBanded-banded m.ends.now_is;
      past_is =
          (find_map_iff (off_boundary lower upper) m.ends.older m.past).0
            (BaselineIs-find m.past_is);
      now_side =
          now_on m.ends.now (off m.ends.newest m.ends.older m.ends.now m.ends.walk_is m.ends.now_is)
            m.ends.now_side;
      past_side = past_on m.past m.past_side;
    }

module _ {N : Type 0} ⦃f : Float N⦄ (laws : ComparisonLaws f) (left low up : ConditionOperand N)
    (interval : Option Period) (ctx : EvaluationContext N) where
  -- Over any operands of which the newest left value, where it has its bounds, is off both of them,
  -- and where `<=` is `<` or `===` and `===` is symmetric, the operators are as documented:
  -- `InsideChannel` is true exactly when the newest value is inside `[lower, upper]`;
  -- `EnteringChannel` exactly when it is inside or on the boundary and the baseline, the first
  -- older point with its bounds that is off both of them, strictly outside; `ExitingChannel`
  -- exactly when it is outside or on the boundary and the baseline strictly inside.
  pub evaluate_channel_off_bounds :
      let lower = ctx.resolve_series low interval in
      let upper = ctx.resolve_series up interval in
      let walk = (ctx.resolve_series left interval).backward_walk in
      EndsOff lower upper walk
      → ((evaluate_channel (channel_leaf inside_channel left low up interval) ctx ≡ true)
          ↔ Ends InClosed lower upper walk)
        × ((evaluate_channel (channel_leaf entering_channel left low up interval) ctx ≡ true)
            ↔ Moves OutOf InClosed lower upper walk)
        × ((evaluate_channel (channel_leaf exiting_channel left low up interval) ctx ≡ true)
            ↔ Moves InOpen OutOrOn lower upper walk)
  evaluate_channel_off_bounds off =
      let (inside, entering, exiting) = evaluate_channel_iff left low up interval ctx in
      let lower = ctx.resolve_series low interval in
      let upper = ctx.resolve_series up interval in
      (
        (
          λ h.
              let i = inside.0 h in
              record {
                newest = i.newest;
                older = i.older;
                now = i.now;
                walk_is = i.walk_is;
                now_is = banded-IsBanded lower upper i.newest i.now i.now_is;
                now_side = inside-InClosed laws i.now i.now_side;
              },
          λ e. inside.1 (record {
            newest = e.newest;
            older = e.older;
            now = e.now;
            walk_is = e.walk_is;
            now_is = IsBanded-banded e.now_is;
            now_side =
                InClosed-inside laws e.now (off e.newest e.older e.now e.walk_is e.now_is)
                  e.now_side;
          }),
        ),
        (
          λ h. Passes-Moves outside-OutOf (inside-InClosed laws) (entering.0 h),
          λ m. entering.1 (Moves-Passes off OutOf-outside (InClosed-inside laws) m),
        ),
        (
          λ h. Passes-Moves inside-InOpen (outside-OutOrOn laws) (exiting.0 h),
          λ m. exiting.1 (Moves-Passes off InOpen-inside (OutOrOn-outside laws) m),
        ),
      )
