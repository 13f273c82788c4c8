-- ===== src/Rules/Operators/Channel/Laws.antt =====
-- What `evaluateChannel` decides.
use lametrader.Prelude.{
  ◌≡◌, refl, ◌↔◌, inl, inr, true, false, Bool, not, Option, none, some, List, [], ◌∷◌, arith,
  if◌then◌else◌, Option-cases, find_map, Found, find_map_iff,
}
use lametrader.Float.{Float}
use lametrader.Config.{Period}
use lametrader.Rules.Operand.{ConditionOperand}
use lametrader.Rules.Condition.{
  ChannelOperator, entering_channel, exiting_channel, inside_channel, ChannelLeafCondition,
}
use lametrader.Rules.Series.{SeriesPoint, SeriesView, EvaluationContext}
use lametrader.Rules.Operators.Channel.{
  Banded, banded, strictly_inside, strictly_outside, on_boundary, channel_baseline, channel_walk,
  evaluate_channel,
}

module _ {N : Type 0} ⦃f : Float N⦄ where
  -- A point off both boundaries, with its bounds.
  unfoldable pub off_boundary : SeriesView N → SeriesView N → SeriesPoint N → Option (Banded N)
  off_boundary lower upper point = elim (banded lower upper point) [
    | none ↦ none
    | some b ↦ if on_boundary b then none else some b
  ]

  channel_baseline-find :
      (lower upper : SeriesView N) (older : List (SeriesPoint N))
      → channel_baseline lower upper older ≡ find_map (off_boundary lower upper) older
  unfolding channel_baseline off_boundary find_map
  channel_baseline-find lower upper [] = refl
  channel_baseline-find lower upper (p ∷ older) =
      ground (arith, channel_baseline-find lower upper older)

  -- A passage from one side of the channel to the other: `from` holds of the first older point off
  -- both boundaries and `to` of the newest point.
  pub record Passes (from to : Banded N → Bool) (lower upper : SeriesView N)
      (walk : List (SeriesPoint N)) : Type 0 where
    pub newest : SeriesPoint N
    pub older : List (SeriesPoint N)
    pub now : Banded N
    pub past : Banded N
    pub walk_is : walk ≡ newest ∷ older
    pub now_is : banded lower upper newest ≡ some now
    pub past_is : Found (off_boundary lower upper) older past
    pub now_side : to now ≡ true
    pub past_side : from past ≡ true

  passage : (Banded N → Bool) → (Banded N → Bool) → Banded N → Option (Banded N) → Bool
  passage from to newest baseline =
      if not (to newest) then false else elim baseline [ none ↦ false | some b ↦ from b ]

  passage_walk :
      (Banded N → Bool)
      → (Banded N → Bool)
      → SeriesView N
      → SeriesView N
      → List (SeriesPoint N)
      → Bool
  passage_walk from to lower upper [] = false
  passage_walk from to lower upper (newest ∷ older) = elim (banded lower upper newest) [
    | none ↦ false
    | some b ↦ passage from to b (find_map (off_boundary lower upper) older)
  ]

  passage-Passes :
      (from to : Banded N → Bool) (lower upper : SeriesView N) (walk : List (SeriesPoint N))
      → passage_walk from to lower upper walk ≡ true
      → Passes from to lower upper walk
  unfolding passage_walk passage
  passage-Passes from to lower upper [] h = cc
  passage-Passes from to lower upper (newest ∷ older) h =
      elim (Option-cases (banded lower upper newest)) [
        | inl e ↦ absurd (ground arith)
        | inr (now, e) ↦ elim (Option-cases (find_map (off_boundary lower upper) older)) [
          | inl e' ↦ absurd (ground arith)
          | inr (past, e') ↦ record {
            newest = newest;
            older = older;
            now = now;
            past = past;
            walk_is = refl;
            now_is = e;
            past_is = (find_map_iff (off_boundary lower upper) older past).0 e';
            now_side = ground arith;
            past_side = ground arith;
          }
        ]
      ]

  Passes-passage :
      (from to : Banded N → Bool) (lower upper : SeriesView N) (walk : List (SeriesPoint N))
      → Passes from to lower upper walk
      → passage_walk from to lower upper walk ≡ true
  unfolding passage_walk passage
  Passes-passage from to lower upper walk p =
      let found = (find_map_iff (off_boundary lower upper) p.older p.past).1 p.past_is in
      rw p.walk_is (ground (arith, found, p.now_is, p.now_side, p.past_side))

  entering-passage :
      (lower upper : SeriesView N) (walk : List (SeriesPoint N))
      → channel_walk entering_channel lower upper walk
        ≡ passage_walk strictly_outside strictly_inside lower upper walk
  unfolding channel_walk passage_walk passage
  entering-passage lower upper [] = refl
  entering-passage lower upper (p ∷ older) = ground (arith, channel_baseline-find lower upper older)

  exiting-passage :
      (lower upper : SeriesView N) (walk : List (SeriesPoint N))
      → channel_walk exiting_channel lower upper walk
        ≡ passage_walk strictly_inside strictly_outside lower upper walk
  unfolding channel_walk passage_walk passage
  exiting-passage lower upper [] = refl
  exiting-passage lower upper (p ∷ older) = ground (arith, channel_baseline-find lower upper older)

  -- The newest point resolves and lies strictly between its bounds.
  pub record Inside (lower upper : SeriesView N) (walk : List (SeriesPoint N)) : Type 0 where
    pub newest : SeriesPoint N
    pub older : List (SeriesPoint N)
    pub now : Banded N
    pub walk_is : walk ≡ newest ∷ older
    pub now_is : banded lower upper newest ≡ some now
    pub now_side : strictly_inside now ≡ true

  inside_channel-Inside :
      (lower upper : SeriesView N) (walk : List (SeriesPoint N))
      → channel_walk inside_channel lower upper walk ≡ true
      → Inside lower upper walk
  unfolding channel_walk
  inside_channel-Inside lower upper [] h = cc
  inside_channel-Inside lower upper (newest ∷ older) h =
      elim (Option-cases (banded lower upper newest)) [
        | inl e ↦ absurd (ground arith)
        | inr (now, e) ↦ record {
          newest = newest;
          older = older;
          now = now;
          walk_is = refl;
          now_is = e;
          now_side = ground arith;
        }
      ]

  Inside-inside_channel :
      (lower upper : SeriesView N) (walk : List (SeriesPoint N))
      → Inside lower upper walk
      → channel_walk inside_channel lower upper walk ≡ true
  unfolding channel_walk
  Inside-inside_channel lower upper walk i = rw i.walk_is (ground (arith, i.now_is, i.now_side))

abbrev pub channel_leaf :
    {N : Type 0}
    → ChannelOperator
    → ConditionOperand N
    → ConditionOperand N
    → ConditionOperand N
    → Option Period
    → ChannelLeafCondition N
channel_leaf operator left lower upper interval = record {
  operator = operator;
  left = left;
  lower = lower;
  upper = upper;
  interval = interval;
}

module _ {N : Type 0} ⦃f : Float N⦄ (left low up : ConditionOperand N) (interval : Option Period)
    (ctx : EvaluationContext N) where
  -- Over any operands: `InsideChannel` is true exactly when the newest left point resolves and lies
  -- strictly between its bounds; `EnteringChannel` exactly when it does and the first older point
  -- that resolves and is off both bounds lies strictly outside; `ExitingChannel` exactly when the
  -- newest point lies strictly outside and that older point strictly inside.
  pub evaluate_channel_iff :
      let lower = ctx.resolve_series low interval in
      let upper = ctx.resolve_series up interval in
      let walk = (ctx.resolve_series left interval).backward_walk in
      ((evaluate_channel (channel_leaf inside_channel left low up interval) ctx ≡ true)
        ↔ Inside lower upper walk)
      × ((evaluate_channel (channel_leaf entering_channel left low up interval) ctx ≡ true)
          ↔ Passes strictly_outside strictly_inside lower upper walk)
      × ((evaluate_channel (channel_leaf exiting_channel left low up interval) ctx ≡ true)
          ↔ Passes strictly_inside strictly_outside lower upper walk)
  unfolding evaluate_channel
  evaluate_channel_iff =
      let lower = ctx.resolve_series low interval in
      let upper = ctx.resolve_series up interval in
      let walk = (ctx.resolve_series left interval).backward_walk in
      (
        (inside_channel-Inside lower upper walk, Inside-inside_channel lower upper walk),
        (
          λ h. passage-Passes _ _ lower upper walk (rw entering-passage at h),
          λ p. rw entering-passage (Passes-passage _ _ lower upper walk p),
        ),
        (
          λ h. passage-Passes _ _ lower upper walk (rw exiting-passage at h),
          λ p. rw exiting-passage (Passes-passage _ _ lower upper walk p),
        ),
      )
