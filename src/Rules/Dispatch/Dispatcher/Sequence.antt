-- ===== src/Rules/Dispatch/Dispatcher/Sequence.antt =====
-- A sequence of dispatches, and the single fire of a `Once` rule in it.
use lametrader.Prelude.{
  ℕ, ◌+◌, ◌≤◌, ◌++◌, Bool, true, false, ◌⊎◌, String, ◌≡◌, refl, ap, inl, inr, Option, some, List,
  [], ◌∷◌, All, arith, Option-cases, Bool-cases, text_keyed,
}
use lametrader.Prelude.Map
use lametrader.Prelude.Map.{Map, values}
use lametrader.Rules.Condition.Normalize.{normalize_rule}
use lametrader.Rules.Event.{
  EvaluationTriggerEvent, RuleEvent, evaluation_trigger, data_update, once,
}
use lametrader.Rules.Rule.{Rule}
use lametrader.Rules.Dispatch.Dispatcher.Keeps.{values-set, values-get, IsKept, candidates-IsKept}
use lametrader.Rules.Dispatch.Dispatcher.Once.{count_fires, bit, run_candidates-once}
use lametrader.Rules.Repository.Claim.{enabled_in}
use lametrader.Rules.Series.{EvaluationContext}
use lametrader.Rules.Operators.Evaluate.{evaluate_condition}
use lametrader.Float.{Float}
use lametrader.Rules.Dispatch.Latch.{LatchStore}
use lametrader.Rules.Dispatch.Dispatcher.Fires.{rearm-rules}
use lametrader.Rules.Repository.{claim_once_fire, RuleRepository}
use lametrader.Rules.Dispatch.Dispatcher.{
  Candidate, FireRecord, rearm_latches, dispatch, dispatch_trigger, DispatchState, candidates,
  claim, record_fire, run_candidate, run_candidates,
}

module _ {N : Type 0} where
  claim_once_fire-cases :
      (id : String) (repo : RuleRepository N)
      → ((claim_once_fire id repo).1 ≡ repo)
        ⊎ ((rule : Rule N) × (Map.get id repo.by_id ≡ some rule)
            × ((claim_once_fire id repo).1
                ≡ record repo { by_id = Map.set id (record rule { enabled = false }) repo.by_id }))
  unfolding claim_once_fire
  claim_once_fire-cases id repo = elim (Option-cases (Map.get id repo.by_id)) [
    | inl e ↦ inl (ground arith)
    | inr (rule, e) ↦ elim (Bool-cases rule.enabled) [
      | inl b ↦ inr (rule, e, ground arith)
      | inr b ↦ inl (ground arith)
    ]
  ]

module _ {N S : Type 0} ⦃f : Float N⦄ (store : LatchStore S)
    (build_context : EvaluationTriggerEvent N → String → String → EvaluationContext N) where
  run_candidate-rules :
      (event : EvaluationTriggerEvent N) (c : Candidate N) (s : DispatchState N S)
      → ((run_candidate store build_context event c s).1.rule_lists ≡ s.rule_lists)
        × (((run_candidate store build_context event c s).1.rules ≡ s.rules)
            ⊎ ((run_candidate store build_context event c s).1.rules
                ≡ (claim_once_fire c.rule.id s.rules).1))
  unfolding run_candidate claim record_fire
  run_candidate-rules event c s =
      let ctx = build_context event c.firing_symbol_id c.rule.profile_id in
      elim (Bool-cases (evaluate_condition c.rule.condition ctx)) [
        | inl e ↦ ground arith
        | inr e ↦ ground arith
      ]

module _ {N S : Type 0} ⦃f : Float N⦄ (P : Rule N → Type 0)
    (off : (rule : Rule N) → P rule → P (record rule { enabled = false }))
    (store : LatchStore S) where
  claim_once_fire-All :
      (id : String) (repo : RuleRepository N)
      → All P (values repo.by_id)
      → All P (values (claim_once_fire id repo).1.by_id)
  claim_once_fire-All id repo h = elim (claim_once_fire-cases id repo) [
    | inl q ↦ rw q h
    | inr (rule, e, q) ↦
        rw q (values-set P id _ repo.by_id h (off rule (values-get P id rule repo.by_id h e)))
  ]

  run_candidate-IsKept :
      (build_context : EvaluationTriggerEvent N → String → String → EvaluationContext N)
      (event : EvaluationTriggerEvent N) (c : Candidate N) (s : DispatchState N S)
      → IsKept P s
      → IsKept P (run_candidate store build_context event c s).1
  run_candidate-IsKept build_context event c s h =
      let (lists, rules) = run_candidate-rules store build_context event c s in
      elim rules [
        | inl q ↦ record { stored = rw q h.stored; cached = rw lists h.cached }
        | inr q ↦ record {
          stored = rw q (claim_once_fire-All c.rule.id s.rules h.stored);
          cached = rw lists h.cached;
        }
      ]

  run_candidates-IsKept :
      (build_context : EvaluationTriggerEvent N → String → String → EvaluationContext N)
      (event : EvaluationTriggerEvent N) (cs : List (Candidate N)) (s : DispatchState N S)
      → IsKept P s
      → IsKept P (run_candidates store build_context event cs s).1
  unfolding run_candidates
  run_candidates-IsKept build_context event [] s h = h
  run_candidates-IsKept build_context event (c ∷ cs) s h =
      run_candidates-IsKept build_context event cs _
        (run_candidate-IsKept build_context event c s h)

-- An event to dispatch, with the watched symbols, and whether it starts a new tick: the lists of
-- rules are then read anew.
pub record Round (N : Type 0) : Type 0 where
  pub event : RuleEvent N
  pub watched : Option (List String)
  pub new_tick : Bool

module _ {N S : Type 0} where
  abbrev pub start_tick : Bool → DispatchState N S → DispatchState N S
  start_tick true s = record s { rule_lists = [] }
  start_tick false s = s

module _ {N S : Type 0} ⦃f : Float N⦄ (store : LatchStore S)
    (build_context : EvaluationTriggerEvent N → String → String → EvaluationContext N) where
  -- The fires of a sequence of dispatches, and the state after.
  unfoldable pub dispatch_all :
      List (Round N) → DispatchState N S → List (FireRecord N) × DispatchState N S
  dispatch_all [] s = ([], s)
  dispatch_all (round ∷ rounds) s =
      let (fires, s') =
        dispatch store build_context round.event round.watched (start_tick round.new_tick s) in
      let (more, s'') = dispatch_all rounds s' in (fires ++ more, s'')

  module _ (id : String) where
    -- If it is the rule of the id, its trigger is `Once`.
    abbrev pub OnceIfNamed : Rule N → Type 0
    OnceIfNamed rule = rule.id ≡ id → rule.trigger ≡ once

    count_fires-append :
        (xs ys : List (FireRecord N))
        → count_fires id (xs ++ ys) ≡ count_fires id xs + count_fires id ys
    count_fires-append [] ys = omega arith
    count_fires-append (x ∷ xs) ys = ground (arith, count_fires-append xs ys)

    rearm-IsKept :
        (event : EvaluationTriggerEvent N) (s : DispatchState N S)
        → IsKept OnceIfNamed s
        → IsKept OnceIfNamed (rearm_latches store build_context event s)
    rearm-IsKept event s h =
        let (a, b) = rearm-rules store build_context event s in
        record { stored = rw a h.stored; cached = rw b h.cached }

    at_most :
        {n : ℕ} {before after : RuleRepository N}
        → after ≡ before
        → n ≤ bit (enabled_in id after)
        → n ≤ bit (enabled_in id before)
    at_most q h = rw q at h

    dispatch-once :
        (event : RuleEvent N) (watched : Option (List String)) (s : DispatchState N S)
        → IsKept OnceIfNamed s
        → (count_fires id (dispatch store build_context event watched s).0
              + bit (enabled_in id (dispatch store build_context event watched s).1.rules)
            ≤ bit (enabled_in id s.rules))
          × IsKept OnceIfNamed (dispatch store build_context event watched s).1
    unfolding dispatch dispatch_trigger candidates
    dispatch-once (data_update update) watched s h = (omega arith, h)
    dispatch-once (evaluation_trigger event) watched s h =
        let (same, _) = rearm-rules store build_context event s in
        let (named, kept) =
          candidates-IsKept OnceIfNamed (unfold normalize_rule in λ rule h. h) store event watched _
            (rearm-IsKept event s h) in
        (
          at_most same (run_candidates-once store id build_context event _ _ named),
          run_candidates-IsKept OnceIfNamed (λ rule h. h) store build_context event _ _ kept,
        )

    start_tick-IsKept :
        (new_tick : Bool) (s : DispatchState N S)
        → IsKept OnceIfNamed s
        → IsKept OnceIfNamed (start_tick new_tick s) × ((start_tick new_tick s).rules ≡ s.rules)
    start_tick-IsKept true s h = (record { stored = h.stored; cached = tt }, refl)
    start_tick-IsKept false s h = (h, refl)

    -- When the rule of an id is of the trigger `Once`, in the store and in the lists of the tick, it
    -- fires at most once over any sequence of dispatches, not at all when it is not stored and
    -- enabled at first, and is not enabled after it fired.
    pub dispatch_all-once :
        (rounds : List (Round N)) (s : DispatchState N S)
        → IsKept OnceIfNamed s
        → count_fires id (dispatch_all rounds s).0
            + bit (enabled_in id (dispatch_all rounds s).1.rules)
          ≤ bit (enabled_in id s.rules)
    unfolding dispatch_all
    dispatch_all-once [] s h = omega arith
    dispatch_all-once (round ∷ rounds) s h =
        let (kept, same) = start_tick-IsKept round.new_tick s h in
        let (first, kept') =
          dispatch-once round.event round.watched (start_tick round.new_tick s) kept in
        let later = dispatch_all-once rounds _ kept' in
        let added =
          count_fires-append
            (dispatch store build_context round.event round.watched (start_tick round.new_tick s)).0
            (dispatch_all rounds
              (dispatch store build_context round.event round.watched
                (start_tick round.new_tick s)).1).0 in
        let switch = ap (enabled_in id) same in ground (arith, added, switch, first, later)
