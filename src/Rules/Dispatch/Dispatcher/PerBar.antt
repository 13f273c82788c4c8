-- ===== src/Rules/Dispatch/Dispatcher/PerBar.antt =====
-- The fires of a `OncePerBar` rule between two re-arms.
use lametrader.Prelude.{
  ℕ, ◌*◌, ◌+◌, ◌≤◌, String, ◌≡◌, refl, sym, ap, ◌∙◌, ◌⊎◌, inl, inr, Bool, true, false, ◌&&◌, not,
  List, [], ◌∷◌, All, filter, length, arith, if◌then◌else◌, Bool-cases, ◌==◌, ==_iff, ==_refl,
  text_keyed,
}
use lametrader.Float.{Float}
use lametrader.Config.{Period, period_millis, period_eq}
use lametrader.Rules.Event.{
  EvaluationTriggerEvent, Trigger, once_per_bar, every_time, once, once_per_bar_open,
  once_per_bar_close, once_per_interval,
}
use lametrader.Rules.Rule.{Rule}
use lametrader.Rules.Series.{EvaluationContext}
use lametrader.Rules.Operators.Evaluate.{evaluate_condition}
use lametrader.Rules.Dispatch.Latch.{LatchStore, LatchLaws}
use lametrader.Rules.Dispatch.Dispatcher.{
  DispatchState, FireRecord, Candidate, claim, record_fire, gate_allows, run_candidate,
  run_candidates,
}
use lametrader.Rules.Dispatch.Dispatcher.Once.{bit}

module _ {N : Type 0} where
  -- The fires of a rule on a symbol.
  abbrev pub count_fires_on : String → String → List (FireRecord N) → ℕ
  count_fires_on id symbol_id fires =
      length (filter (λ fire. fire.rule_id == id && fire.firing_symbol_id == symbol_id) fires)

-- Whether the rule is not latched on the symbol and period.
abbrev pub is_open_at :
    {N S : Type 0} → LatchStore S → String → String → Period → DispatchState N S → Bool
is_open_at store id y p s = not (store.is_latched s.latches id y p)

module _ {N S : Type 0} ⦃f : Float N⦄ (store : LatchStore S) (IsSymbolId : String → Type 0)
    (laws : LatchLaws store IsSymbolId) (id y : String) (p : Period) (ok : IsSymbolId y) where
  -- A candidate on a symbol id of the store's form, of a `OncePerBar` rule of the period if it is
  -- of the rule.
  abbrev pub IsPerBar : Candidate N → Type 0
  IsPerBar c = (c.rule.id ≡ id → c.rule.trigger ≡ once_per_bar p) × IsSymbolId c.firing_symbol_id

  claim-latches :
      (rule : Rule N) (s : DispatchState N S) → (claim store rule s).1.latches ≡ s.latches
  unfolding claim
  claim-latches rule s = ground arith

  record_fire-own :
      (rule : Rule N) (event : EvaluationTriggerEvent N) (s : DispatchState N S)
      → rule.id ≡ id
      → rule.trigger ≡ once_per_bar p
      → is_open_at store id y p (record_fire store rule event y s) ≡ false
  unfolding record_fire
  record_fire-own rule event s same e = ground (
    arith,
    laws.is_latched-latch s.latches rule.id y id y p p (period_millis p * 2) ok ok,
    ==_refl y,
    ==_refl p,
    ==_iff rule.id id,
  )

  record_fire-latches :
      (rule : Rule N) (event : EvaluationTriggerEvent N) (z : String) (s : DispatchState N S)
      → ((record_fire store rule event z s).latches ≡ s.latches)
        ⊎ ((q : Period) × ((record_fire store rule event z s).latches
              ≡ store.latch s.latches rule.id z q (period_millis q * 2)))
  unfolding record_fire
  record_fire-latches rule event z s = go rule.trigger refl
    where
      go :
          (trigger : Trigger)
          → rule.trigger ≡ trigger
          → ((record_fire store rule event z s).latches ≡ s.latches)
            ⊎ ((q : Period) × ((record_fire store rule event z s).latches
                  ≡ store.latch s.latches rule.id z q (period_millis q * 2)))
      go (once_per_bar q) e = inr (q, ground arith)
      go every_time e = inl (ground arith)
      go once e = inl (ground arith)
      go (once_per_bar_open q) e = inl (ground arith)
      go (once_per_bar_close q) e = inl (ground arith)
      go (once_per_interval ms) e = inl (ground arith)

  record_fire-other :
      (rule : Rule N) (event : EvaluationTriggerEvent N) (z : String) (s : DispatchState N S)
      → IsSymbolId z
      → (rule.id == id && z == y) ≡ false
      → is_open_at store id y p (record_fire store rule event z s) ≡ is_open_at store id y p s
  record_fire-other rule event z s is apart = elim (record_fire-latches rule event z s) [
    | inl same ↦ ap (λ l. not (store.is_latched l id y p)) same
    | inr (q, set) ↦
        ap (λ l. not (store.is_latched l id y p)) set
        ∙ ground
            (arith, laws.is_latched-latch s.latches rule.id z id y q p (period_millis q * 2) is ok)
  ]

  module _ (build_context : EvaluationTriggerEvent N → String → String → EvaluationContext N)
      (event : EvaluationTriggerEvent N) where
    -- A candidate does not fire and leaves the latches, or passes its gate and records a fire.
    run_candidate-latches :
        (c : Candidate N) (s : DispatchState N S)
        → (((run_candidate store build_context event c s).0 ≡ false)
            × ((run_candidate store build_context event c s).1.latches ≡ s.latches))
          ⊎ ((gate_allows store c.rule event c.firing_symbol_id s ≡ true)
              × ((run_candidate store build_context event c s).0 ≡ true)
              × ((run_candidate store build_context event c s).1
                  ≡ record_fire store c.rule event c.firing_symbol_id (claim store c.rule s).1))
    unfolding run_candidate
    run_candidate-latches c s =
        let ctx = build_context event c.firing_symbol_id c.rule.profile_id in
        elim (Bool-cases (evaluate_condition c.rule.condition ctx)) [
          | inr e ↦ inl (ground arith)
          | inl e ↦ elim (Bool-cases (gate_allows store c.rule event c.firing_symbol_id s)) [
            | inr g ↦ inl (ground arith)
            | inl g ↦ elim (Bool-cases (claim store c.rule s).0) [
              | inr w ↦ inl ground (arith, claim-latches c.rule s)
              | inl w ↦ inr (g, ground arith, ground arith)
            ]
          ]
        ]

    gate-open :
        (rule : Rule N) (s : DispatchState N S)
        → rule.id ≡ id
        → rule.trigger ≡ once_per_bar p
        → gate_allows store rule event y s ≡ is_open_at store id y p s
    unfolding gate_allows
    gate-open rule s same e = ground arith

    run_candidate-per_bar :
        (c : Candidate N) (s : DispatchState N S)
        → IsPerBar c
        → (if c.rule.id == id && c.firing_symbol_id == y
              then bit (run_candidate store build_context event c s).0
              else 0)
            + bit (is_open_at store id y p (run_candidate store build_context event c s).1)
          ≤ bit (is_open_at store id y p s)
    run_candidate-per_bar c s (named, is) = elim (run_candidate-latches c s) [
      | inl (a, b) ↦ ground (arith, ap (λ l. not (store.is_latched l id y p)) b)
      | inr (g, a, b) ↦
          let after = ap (is_open_at store id y p) b in
          let claimed = ap (λ l. not (store.is_latched l id y p)) (claim-latches c.rule s) in
          elim (Bool-cases (c.rule.id == id && c.firing_symbol_id == y)) [
            | inr apart ↦
                let kept =
                  record_fire-other c.rule event c.firing_symbol_id (claim store c.rule s).1 is
                    apart in
                ground arith
            | inl own ↦
                let same_id : c.rule.id ≡ id = ground (arith, ==_iff c.rule.id id) in
                let same_symbol : c.firing_symbol_id ≡ y =
                  ground (arith, ==_iff c.firing_symbol_id y) in
                let trigger = named same_id in
                let opened = gate-open c.rule s same_id trigger in
                let passed = ap (λ z. gate_allows store c.rule event z s) (sym same_symbol) ∙ g in
                let closed =
                  record_fire-own c.rule event (claim store c.rule s).1 same_id trigger in
                let recorded =
                  after
                  ∙ ap
                      (λ z.
                        is_open_at store id y p
                          (record_fire store c.rule event z (claim store c.rule s).1))
                      same_symbol in
                ground arith
          ]
    ]

    -- For a store that keeps the laws of a latch on symbol ids of its form: over any candidates on
    -- such symbols, of which those of the rule are of the trigger `OncePerBar` with the period, the
    -- rule fires at most once on the symbol, not at all when it was latched there before, and is
    -- latched there after it fired.
    pub run_candidates-per_bar :
        (cs : List (Candidate N)) (s : DispatchState N S)
        → All IsPerBar cs
        → count_fires_on id y (run_candidates store build_context event cs s).0
            + bit (is_open_at store id y p (run_candidates store build_context event cs s).1)
          ≤ bit (is_open_at store id y p s)
    unfolding run_candidates
    run_candidates-per_bar [] s h = omega arith
    run_candidates-per_bar (c ∷ cs) s h =
        let s' = (run_candidate store build_context event c s).1 in
        ground (arith, run_candidate-per_bar c s h.0, run_candidates-per_bar cs s' h.1)
