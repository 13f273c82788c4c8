-- ===== src/Rules/Dispatch/Dispatcher/PerInterval.antt =====
-- The spacing of the fires of a `OncePerInterval` rule.
use lametrader.Prelude.{
  ℕ, ◌+◌, ◌<◌, String, ◌≡◌, refl, sym, ap, ◌∙◌, ◌⊎◌, inl, inr, Bool, true, false, ◌&&◌, Option,
  some, List, [], ◌∷◌, All, arith, if◌then◌else◌, Bool-cases, ◌==◌, ==_iff, ==_refl, text_keyed,
}
use lametrader.Prelude.Map
use lametrader.Prelude.Map.{get-set}
use lametrader.Float.{Float}
use lametrader.Text.{no_bar}
use lametrader.Rules.Event.{
  EvaluationTriggerEvent, event_ts, Trigger, once_per_bar, every_time, once, once_per_bar_open,
  once_per_bar_close, once_per_interval,
}
use lametrader.Rules.Rule.{Rule}
use lametrader.Rules.Series.{EvaluationContext}
use lametrader.Rules.Operators.Evaluate.{evaluate_condition}
use lametrader.Rules.Dispatch.Latch.{LatchStore}
use lametrader.Rules.Dispatch.Dispatcher.{
  emit, fire_of, DispatchState, FireRecord, Candidate, interval_key, elapsed, claim, record_fire,
  gate_allows, run_candidate, run_candidates,
}
use lametrader.Rules.Dispatch.Dispatcher.IntervalKey.{interval_key-other}
use lametrader.Rules.Dispatch.Dispatcher.PerBar.{count_fires_on}
use lametrader.Rules.Dispatch.Dispatcher.Once.{bit}

module _ {N S : Type 0} where
  -- The last fire of a rule on a symbol.
  abbrev pub last_fire : String → String → DispatchState N S → Option ℕ
  last_fire id y s = Map.get (interval_key id y) s.last_interval_fire

module _ {N S : Type 0} ⦃f : Float N⦄ (store : LatchStore S) (id y : String) (ms : ℕ)
    (ok : no_bar y ≡ true) where
  -- A candidate on a symbol id without the separator, of a `OncePerInterval` rule of the interval
  -- if it is of the rule.
  abbrev pub IsSpaced : Candidate N → Type 0
  IsSpaced c =
      (c.rule.id ≡ id → c.rule.trigger ≡ once_per_interval ms) × (no_bar c.firing_symbol_id ≡ true)

  -- No fire and the last one stays; or one fire, at the time, an interval or more after the last.
  abbrev pub Spaced : ℕ → ℕ → DispatchState N S → DispatchState N S → Type 0
  Spaced ts fires before after =
      ((fires ≡ 0) × (last_fire id y after ≡ last_fire id y before))
      ⊎ ((fires ≡ 1)
          × (last_fire id y after ≡ some ts)
          × (elapsed ts ms (last_fire id y before) ≡ true))

  claim-fires :
      (rule : Rule N) (s : DispatchState N S)
      → (claim store rule s).1.last_interval_fire ≡ s.last_interval_fire
  unfolding claim
  claim-fires rule s = ground arith

  record_fire-fires :
      (rule : Rule N) (event : EvaluationTriggerEvent N) (z : String) (s : DispatchState N S)
      → ((record_fire store rule event z s).last_interval_fire ≡ s.last_interval_fire)
        ⊎ ((record_fire store rule event z s).last_interval_fire
            ≡ Map.set (interval_key rule.id z) (event_ts event) s.last_interval_fire)
  unfolding record_fire
  record_fire-fires rule event z s = go rule.trigger refl
    where
      go :
          (trigger : Trigger)
          → rule.trigger ≡ trigger
          → ((record_fire store rule event z s).last_interval_fire ≡ s.last_interval_fire)
            ⊎ ((record_fire store rule event z s).last_interval_fire
                ≡ Map.set (interval_key rule.id z) (event_ts event) s.last_interval_fire)
      go (once_per_interval n) e = inr (ground arith)
      go every_time e = inl (ground arith)
      go once e = inl (ground arith)
      go (once_per_bar q) e = inl (ground arith)
      go (once_per_bar_open q) e = inl (ground arith)
      go (once_per_bar_close q) e = inl (ground arith)

  record_fire-elsewhere :
      (rule : Rule N) (event : EvaluationTriggerEvent N) (z : String) (s : DispatchState N S)
      → no_bar z ≡ true
      → (rule.id == id && z == y) ≡ false
      → last_fire id y (record_fire store rule event z s) ≡ last_fire id y s
  record_fire-elsewhere rule event z s is apart = elim (record_fire-fires rule event z s) [
    | inl same ↦ ap (Map.get (interval_key id y)) same
    | inr set ↦
        let other = interval_key-other rule.id id z y is ok apart in
        ap (Map.get (interval_key id y)) set
        ∙ ground (
          arith,
          get-set (interval_key rule.id z) (interval_key id y) (event_ts event)
              s.last_interval_fire,
        )
  ]

  record_fire-here :
      (rule : Rule N) (event : EvaluationTriggerEvent N) (s : DispatchState N S)
      → rule.id ≡ id
      → rule.trigger ≡ once_per_interval ms
      → last_fire id y (record_fire store rule event y s) ≡ some (event_ts event)
  unfolding record_fire
  record_fire-here rule event s same e = ground (
    arith,
    get-set (interval_key rule.id y) (interval_key id y) (event_ts event) s.last_interval_fire,
    ==_refl (interval_key id y),
    ap (λ i. interval_key i y) same,
  )

  gate-elapsed :
      (rule : Rule N) (event : EvaluationTriggerEvent N) (s : DispatchState N S)
      → rule.id ≡ id
      → rule.trigger ≡ once_per_interval ms
      → gate_allows store rule event y s ≡ elapsed (event_ts event) ms (last_fire id y s)
  unfolding gate_allows
  gate-elapsed rule event s same e = ground (arith, ap (λ i. interval_key i y) same)

  module _ (build_context : EvaluationTriggerEvent N → String → String → EvaluationContext N)
      (event : EvaluationTriggerEvent N) where
    run_candidate-fires :
        (c : Candidate N) (s : DispatchState N S)
        → (((run_candidate store build_context event c s).0 ≡ false)
            × ((run_candidate store build_context event c s).1.last_interval_fire
                ≡ s.last_interval_fire))
          ⊎ ((gate_allows store c.rule event c.firing_symbol_id s ≡ true)
              × ((run_candidate store build_context event c s).0 ≡ true)
              × ((run_candidate store build_context event c s).1
                  ≡ record_fire store c.rule event c.firing_symbol_id (claim store c.rule s).1))
    unfolding run_candidate
    run_candidate-fires c s =
        let ctx = build_context event c.firing_symbol_id c.rule.profile_id in
        elim (Bool-cases (evaluate_condition c.rule.condition ctx)) [
          | inr e ↦ inl (ground arith)
          | inl e ↦ elim (Bool-cases (gate_allows store c.rule event c.firing_symbol_id s)) [
            | inr g ↦ inl (ground arith)
            | inl g ↦ elim (Bool-cases (claim store c.rule s).0) [
              | inr w ↦ inl ground (arith, claim-fires c.rule s)
              | inl w ↦ inr (g, ground arith, ground arith)
            ]
          ]
        ]

    abbrev counted : Candidate N → Bool → ℕ
    counted c b = if c.rule.id == id && c.firing_symbol_id == y then bit b else 0

    run_candidate-Spaced :
        (c : Candidate N) (s : DispatchState N S)
        → IsSpaced c
        → Spaced
            (event_ts event)
            (counted c (run_candidate store build_context event c s).0)
            s
            (run_candidate store build_context event c s).1
    run_candidate-Spaced c s (named, is) = elim (run_candidate-fires c s) [
      | inl (a, b) ↦ inl (ground arith, ap (Map.get (interval_key id y)) b)
      | inr (g, a, b) ↦
          let after = ap (last_fire id y) b in
          let claimed = ap (Map.get (interval_key id y)) (claim-fires c.rule s) in
          let s' = (claim store c.rule s).1 in
          elim (Bool-cases (c.rule.id == id && c.firing_symbol_id == y)) [
            | inr apart ↦ inl (
              ground arith,
              after ∙ record_fire-elsewhere c.rule event c.firing_symbol_id s' is apart ∙ claimed,
            )
            | inl own ↦
                let same_id : c.rule.id ≡ id = ground (arith, ==_iff c.rule.id id) in
                let same_symbol : c.firing_symbol_id ≡ y =
                  ground (arith, ==_iff c.firing_symbol_id y) in
                inr (
                  ground arith,
                  after
                      ∙ ap (λ z. last_fire id y (record_fire store c.rule event z s')) same_symbol
                      ∙ record_fire-here c.rule event s' same_id (named same_id),
                  sym (gate-elapsed c.rule event s same_id (named same_id))
                      ∙ ap (λ z. gate_allows store c.rule event z s) (sym same_symbol)
                      ∙ g,
                )
          ]
    ]

    Spaced-trans :
        (m n : ℕ) (a b c : DispatchState N S)
        → 0 < ms
        → Spaced (event_ts event) m a b
        → Spaced (event_ts event) n b c
        → Spaced (event_ts event) (m + n) a c
    unfolding elapsed
    Spaced-trans m n a b c pos (inl (h, k)) (inl (h', k')) = inl (omega arith, k' ∙ k)
    Spaced-trans m n a b c pos (inl (h, k)) (inr (h', k', e)) =
        inr (omega arith, k', ap (elapsed (event_ts event) ms) (sym k) ∙ e)
    Spaced-trans m n a b c pos (inr (h, k, e)) (inl (h', k')) = inr (omega arith, k' ∙ k, e)
    Spaced-trans m n a b c pos (inr (h, k, e)) (inr (h', k', e')) =
        let again : elapsed (event_ts event) ms (some (event_ts event)) ≡ true =
          ap (elapsed (event_ts event) ms) (sym k) ∙ e' in
        absurd (ground arith)

    count_fires_on-emit :
        (c : Candidate N) (b : Bool) (fires : List (FireRecord N))
        → counted c b + count_fires_on id y fires
          ≡ count_fires_on id y (emit b (fire_of event c) fires)
    count_fires_on-emit c true fires = ground arith
    count_fires_on-emit c false fires = ground arith

    Spaced-count :
        (m n : ℕ) (a b : DispatchState N S)
        → m ≡ n
        → Spaced (event_ts event) m a b
        → Spaced (event_ts event) n a b
    Spaced-count m n a b q h = rw q at h

    -- Over the candidates of an event on symbols without the separator, of which those of the rule
    -- are of the trigger `OncePerInterval` with a positive interval: the rule does not fire on the
    -- symbol and its last fire there stays, or it fires once, at the event's time, which then is its
    -- last fire, and an interval or more after the last fire before, if there was one.
    pub run_candidates-Spaced :
        (cs : List (Candidate N)) (s : DispatchState N S)
        → 0 < ms
        → All IsSpaced cs
        → Spaced
            (event_ts event)
            (count_fires_on id y (run_candidates store build_context event cs s).0)
            s
            (run_candidates store build_context event cs s).1
    unfolding run_candidates
    run_candidates-Spaced [] s pos h = inl (refl, refl)
    run_candidates-Spaced (c ∷ cs) s pos h =
        let s' = (run_candidate store build_context event c s).1 in
        let s'' = (run_candidates store build_context event cs s').1 in
        let both =
          Spaced-trans _ _ s s' s'' pos (run_candidate-Spaced c s h.0)
            (run_candidates-Spaced cs s' pos h.1) in
        Spaced-count _ _ s s''
          (count_fires_on-emit c (run_candidate store build_context event c s).0
            (run_candidates store build_context event cs s').0)
          both
