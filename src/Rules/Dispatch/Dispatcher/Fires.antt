-- ===== src/Rules/Dispatch/Dispatcher/Fires.antt =====
-- What stands behind a fire.
use lametrader.Prelude.{
  String, ◌≡◌, refl, ap, ◌⊎◌, inl, inr, Bool, true, false, Option, List, [], ◌∷◌, ◌++◌, map, In,
  arith, Bool-cases, text_keyed,
}
use lametrader.Float.{Float}
use lametrader.Rules.Event.{EvaluationTriggerEvent, RuleEvent, evaluation_trigger, data_update}
use lametrader.Rules.Rule.{Rule}
use lametrader.Rules.Series.{EvaluationContext}
use lametrader.Rules.Operators.Evaluate.{evaluate_condition}
use lametrader.Rules.Dispatch.Latch.{LatchStore}
use lametrader.Rules.Dispatch.Routes.{symbol_id_of}
use lametrader.Rules.Dispatch.Dispatcher.Reached.{
  Reaches, FiresOn, reaches-Reaches, firing_symbols-FiresOn,
}
use lametrader.Rules.Dispatch.Dispatcher.{
  DispatchState, FireRecord, Candidate, firing_symbols_for, reaches, on_symbol, expand, expand_rule,
  dispatch, enabled_rules, candidates, fire_of, emit, run_candidate, run_candidates, rearm_latches,
  dispatch_trigger,
}

emit-In :
    {A : Type 0} (b : Bool) (x y : A) (xs : List A)
    → In y (emit b x xs)
    → ((b ≡ true) × (y ≡ x)) ⊎ In y xs
emit-In true x y xs (inl q) = inl (refl, q)
emit-In true x y xs (inr i) = inr i
emit-In false x y xs h = inr h

module _ {N S : Type 0} ⦃f : Float N⦄ (store : LatchStore S)
    (build_context : EvaluationTriggerEvent N → String → String → EvaluationContext N)
    (event : EvaluationTriggerEvent N) where
  abbrev pub context_of : Candidate N → EvaluationContext N
  context_of c = build_context event c.firing_symbol_id c.rule.profile_id

  run_candidate-condition :
      (c : Candidate N) (s : DispatchState N S)
      → (run_candidate store build_context event c s).0 ≡ true
      → evaluate_condition c.rule.condition (context_of c) ≡ true
  unfolding run_candidate
  run_candidate-condition c s h =
      elim (Bool-cases (evaluate_condition c.rule.condition (context_of c))) [
        | inl e ↦ e
        | inr e ↦ absurd (ground arith)
      ]

  -- A fire of a candidate whose condition is true.
  pub record IsFire (cs : List (Candidate N)) (fire : FireRecord N) : Type 0 where
    pub candidate : Candidate N
    pub listed : In candidate cs
    pub rule : fire.rule_id ≡ candidate.rule.id
    pub symbol : fire.firing_symbol_id ≡ candidate.firing_symbol_id
    pub event_is : fire.event ≡ event
    pub condition : evaluate_condition candidate.rule.condition (context_of candidate) ≡ true

  IsFire-cons :
      {cs : List (Candidate N)} {fire : FireRecord N} (c : Candidate N)
      → IsFire cs fire
      → IsFire (c ∷ cs) fire
  IsFire-cons c i = record {
    candidate = i.candidate;
    listed = inr i.listed;
    rule = i.rule;
    symbol = i.symbol;
    event_is = i.event_is;
    condition = i.condition;
  }

  run_candidates-IsFire :
      (cs : List (Candidate N)) (s : DispatchState N S) (fire : FireRecord N)
      → In fire (run_candidates store build_context event cs s).0
      → IsFire cs fire
  unfolding run_candidates
  run_candidates-IsFire [] s fire h = elim h [ ]
  run_candidates-IsFire (c ∷ cs) s fire h =
      let (fired, s') = run_candidate store build_context event c s in
      elim (emit-In fired (fire_of event c) fire _ h) [
        | inl (e, q) ↦ record {
          candidate = c;
          listed = inl refl;
          rule = ap (λ x. x.rule_id) q;
          symbol = ap (λ x. x.firing_symbol_id) q;
          event_is = ap (λ x. x.event) q;
          condition = run_candidate-condition c s e;
        }
        | inr i ↦ IsFire-cons c (run_candidates-IsFire cs s' fire i)
      ]

-- The symbols of a candidate that stands in an expansion.
module _ {N : Type 0} where
  map-In :
      (rule : Rule N) (c : Candidate N) (ids : List String)
      → In c (map (on_symbol rule) ids)
      → (c.rule ≡ rule) × In c.firing_symbol_id ids
  map-In rule c [] h = elim h [ ]
  map-In rule c (y ∷ ys) (inl q) = (ap (λ x. x.rule) q, inl (ap (λ x. x.firing_symbol_id) q))
  map-In rule c (y ∷ ys) (inr i) = let (a, b) = map-In rule c ys i in (a, inr b)

  append-In : (c : Candidate N) (xs ys : List (Candidate N)) → In c (xs ++ ys) → In c xs ⊎ In c ys
  append-In c [] ys h = inr h
  append-In c (x ∷ xs) ys (inl q) = inl (inl q)
  append-In c (x ∷ xs) ys (inr i) = elim (append-In c xs ys i) [
    | inl a ↦ inl (inr a)
    | inr b ↦ inr b
  ]

  -- A candidate comes of an enabled rule that the event reaches, on a symbol of its scope.
  pub record IsCandidate (event : EvaluationTriggerEvent N) (watched : Option (List String))
      (enabled : List (Rule N)) (c : Candidate N) : Type 0 where
    pub listed : In c.rule enabled
    pub reached : reaches event c.rule ≡ true
    pub symbol :
        In c.firing_symbol_id (firing_symbols_for c.rule.scope (symbol_id_of event) watched)

  expand_rule-IsCandidate :
      (event : EvaluationTriggerEvent N) (watched : Option (List String)) (rule : Rule N)
      (c : Candidate N)
      → In c (expand_rule event watched rule)
      → (c.rule ≡ rule)
        × (reaches event rule ≡ true)
        × In c.firing_symbol_id (firing_symbols_for rule.scope (symbol_id_of event) watched)
  unfolding expand_rule
  expand_rule-IsCandidate event watched rule c h = elim (Bool-cases (reaches event rule)) [
    | inl e ↦
        let h' : In c
            (map (on_symbol rule) (firing_symbols_for rule.scope (symbol_id_of event) watched)) =
          rw e at h in
        let (same, i) = map-In rule c _ h' in (same, e, i)
    | inr e ↦ let none_left : In c [] = rw e at h in elim none_left [ ]
  ]

  pub expand-IsCandidate :
      (event : EvaluationTriggerEvent N) (watched : Option (List String)) (enabled : List (Rule N))
      (c : Candidate N)
      → In c (expand event watched enabled)
      → IsCandidate event watched enabled c
  unfolding expand
  expand-IsCandidate event watched [] c h = elim h [ ]
  expand-IsCandidate event watched (rule ∷ enabled) c h =
      elim (append-In c (expand_rule event watched rule) (expand event watched enabled) h) [
        | inl i ↦
            let (same, reached, symbol) = expand_rule-IsCandidate event watched rule c i in
            record { listed = inl same; reached = rw same reached; symbol = rw same symbol }
        | inr i ↦
            let r = expand-IsCandidate event watched enabled c i in
            record { listed = inr r.listed; reached = r.reached; symbol = r.symbol }
      ]

module _ {N S : Type 0} ⦃f : Float N⦄ (store : LatchStore S)
    (build_context : EvaluationTriggerEvent N → String → String → EvaluationContext N) where
  -- A fire of an event: a rule of the listing for the event, which the event reaches, on a symbol
  -- that its scope gives for the event, whose condition is true there.
  pub record Fires (event : EvaluationTriggerEvent N) (watched : Option (List String))
      (s : DispatchState N S) (fire : FireRecord N) : Type 0 where
    pub rule : Rule N
    pub rule_is : fire.rule_id ≡ rule.id
    pub event_is : fire.event ≡ event
    pub listed : In rule (enabled_rules event watched s.rules s.rule_lists).0
    pub reached : Reaches event rule
    pub symbol : FiresOn event watched rule.scope fire.firing_symbol_id
    pub condition :
        evaluate_condition rule.condition
          (build_context event fire.firing_symbol_id rule.profile_id)
        ≡ true

  pub rearm-rules :
      (event : EvaluationTriggerEvent N) (s : DispatchState N S)
      → ((rearm_latches store build_context event s).rules ≡ s.rules)
        × ((rearm_latches store build_context event s).rule_lists ≡ s.rule_lists)
  unfolding rearm_latches
  rearm-rules event s = ground arith

  -- Each fire that a dispatch returns is of the dispatched event, which is an evaluation trigger, and
  -- for a rule of the listing. The event changes a slot that an operand of the rule's condition
  -- reads, or the rule's trigger answers it: a tick, a bar's open or close on the trigger's period,
  -- or a timer. The symbol is the one of the rule's scope, or one of its list and the event's own
  -- where it has one, or, for a scope of all symbols, the event's own or else a watched one. The
  -- rule's condition is true in the context built for that symbol and the rule's profile.
  pub dispatch-Fires :
      (event : RuleEvent N) (watched : Option (List String)) (s : DispatchState N S)
      (fire : FireRecord N)
      → In fire (dispatch store build_context event watched s).0
      → (trigger : EvaluationTriggerEvent N) × (event ≡ evaluation_trigger trigger)
        × Fires trigger watched s fire
  unfolding dispatch dispatch_trigger candidates
  dispatch-Fires (data_update update) watched s fire h = elim h [ ]
  dispatch-Fires (evaluation_trigger event) watched s fire h =
      let (same_rules, same_lists) = rearm-rules event s in
      let i = run_candidates-IsFire store build_context event _ _ fire h in
      let c = expand-IsCandidate event watched _ i.candidate i.listed in
      (
        event,
        refl,
        record {
          rule = i.candidate.rule;
          rule_is = i.rule;
          event_is = i.event_is;
          listed = rw (same_rules, same_lists) at c.listed;
          reached = reaches-Reaches event i.candidate.rule c.reached;
          symbol =
              firing_symbols-FiresOn i.candidate.rule.scope event watched fire.firing_symbol_id
                (rw i.symbol c.symbol);
          condition = rw i.symbol i.condition;
        },
      )
