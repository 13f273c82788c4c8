-- ===== src/Rules/Dispatch/Dispatcher/Once.antt =====
-- The single fire of a `Once` rule.
use lametrader.Prelude.{
  ◌⊎◌, ℕ, ◌+◌, ◌≤◌, String, ◌≡◌, ap, inl, inr, Bool, true, false, List, [], ◌∷◌, All, filter,
  length, arith, if◌then◌else◌, Bool-cases, ◌==◌, ==_iff, text_keyed,
}
use lametrader.Float.{Float}
use lametrader.Rules.Event.{EvaluationTriggerEvent, once}
use lametrader.Rules.Rule.{Rule}
use lametrader.Rules.Series.{EvaluationContext}
use lametrader.Rules.Operators.Evaluate.{evaluate_condition}
use lametrader.Rules.Repository.Claim.{enabled_in, claim_wins, enabled_in-claim}
use lametrader.Rules.Dispatch.Latch.{LatchStore}
use lametrader.Rules.Dispatch.Dispatcher.{
  DispatchState, FireRecord, Candidate, claim, record_fire, gate_allows, run_candidate,
  run_candidates,
}

abbrev pub bit : Bool → ℕ
bit true = 1
bit false = 0

module _ {N : Type 0} where
  -- The fires of a rule.
  abbrev pub count_fires : String → List (FireRecord N) → ℕ
  count_fires id fires = length (filter (λ fire. fire.rule_id == id) fires)

  abbrev pub IsOnce : String → Candidate N → Type 0
  IsOnce id c = c.rule.id ≡ id → c.rule.trigger ≡ once

module _ {N S : Type 0} ⦃f : Float N⦄ (store : LatchStore S) (id : String) where
  record_fire-rules :
      (rule : Rule N) (event : EvaluationTriggerEvent N) (symbol_id : String)
      (s : DispatchState N S)
      → (record_fire store rule event symbol_id s).rules ≡ s.rules
  unfolding record_fire
  record_fire-rules rule event symbol_id s = ground arith

  claim-once :
      (rule : Rule N) (s : DispatchState N S)
      → rule.id ≡ id
      → rule.trigger ≡ once
      → bit (claim store rule s).0 + bit (enabled_in id (claim store rule s).1.rules)
        ≤ bit (enabled_in id s.rules)
  unfolding claim
  claim-once rule s same e =
      ground
        (arith, claim_wins rule.id s.rules, enabled_in-claim rule.id id s.rules, ==_iff rule.id id)

  claim-other :
      (rule : Rule N) (s : DispatchState N S)
      → (rule.id == id) ≡ false
      → enabled_in id (claim store rule s).1.rules ≡ enabled_in id s.rules
  unfolding claim
  claim-other rule s apart = ground (arith, enabled_in-claim rule.id id s.rules)

  module _ (build_context : EvaluationTriggerEvent N → String → String → EvaluationContext N)
      (event : EvaluationTriggerEvent N) where
    run_candidate-passed :
        (c : Candidate N) (s : DispatchState N S)
        → ((run_candidate store build_context event c s).0 ≡ false)
            × ((run_candidate store build_context event c s).1.rules ≡ s.rules)
          ⊎ ((run_candidate store build_context event c s).0 ≡ (claim store c.rule s).0)
            × ((run_candidate store build_context event c s).1.rules
                ≡ (claim store c.rule s).1.rules)
    unfolding run_candidate
    run_candidate-passed c s =
        let ctx = build_context event c.firing_symbol_id c.rule.profile_id in
        elim (Bool-cases (evaluate_condition c.rule.condition ctx)) [
          | inl e ↦ elim (Bool-cases (gate_allows store c.rule event c.firing_symbol_id s)) [
            | inl g ↦
                inr ground (
                  arith,
                  record_fire-rules c.rule event c.firing_symbol_id (claim store c.rule s).1,
                )
            | inr g ↦ inl (ground arith)
          ]
          | inr e ↦ inl (ground arith)
        ]

    run_candidate-once :
        (c : Candidate N) (s : DispatchState N S)
        → IsOnce id c
        → (if c.rule.id == id then bit (run_candidate store build_context event c s).0 else 0)
            + bit (enabled_in id (run_candidate store build_context event c s).1.rules)
          ≤ bit (enabled_in id s.rules)
    run_candidate-once c s h = elim (run_candidate-passed c s) [
      | inl (a, b) ↦ ground (arith, ap (enabled_in id) b)
      | inr (a, b) ↦ elim (Bool-cases (c.rule.id == id)) [
        | inl e ↦
            let same = (==_iff c.rule.id id).0 e in
            ground (arith, claim-once c.rule s same (h same), ap (enabled_in id) b)
        | inr e ↦ ground (arith, claim-other c.rule s e, ap (enabled_in id) b)
      ]
    ]

    -- Over any candidates of which those of the rule are of the trigger `Once`, the fires of the
    -- rule are at most one, none when it was not enabled, and none is left when one came: the rule
    -- is then not enabled.
    pub run_candidates-once :
        (cs : List (Candidate N)) (s : DispatchState N S)
        → All (IsOnce id) cs
        → count_fires id (run_candidates store build_context event cs s).0
            + bit (enabled_in id (run_candidates store build_context event cs s).1.rules)
          ≤ bit (enabled_in id s.rules)
    unfolding run_candidates
    run_candidates-once [] s h = omega arith
    run_candidates-once (c ∷ cs) s h =
        let s' = (run_candidate store build_context event c s).1 in
        ground (arith, run_candidate-once c s h.0, run_candidates-once cs s' h.1)
