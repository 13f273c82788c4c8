-- ===== src/Backtesting/Executor/Edges.antt =====
-- Which writes a run reacts to.
use lametrader.Prelude.{
  ◌⊎◌, ℕ, String, ◌≡◌, ap, some, arith, ==_refl, text_keyed, true, Bool-cases, Option-cases, inl,
  inr,
}
use lametrader.Prelude.Map
use lametrader.Prelude.Map.{Map, get-set, set-set}
use lametrader.Float.{Float}
use lametrader.State.{StateValue, state_value_equals}
use lametrader.Rules.EventEntry.{BaseEntry, state_set, symbol}
use lametrader.Backtesting.Trade.{signal, OpenLot}
use lametrader.Backtesting.Executor.{
  Executor, exit_signal_matches, signal_matches, act_on, close_position, open_position,
  record_transition, consume,
}

module _ {N : Type 0} ⦃f : Float N⦄ where
  module _ (t : ℕ) (close : N) (base : BaseEntry) (key : String) (value : StateValue N)
      (same : state_value_equals value value ≡ true) where
    abbrev write : Executor N → Executor N
    write x = consume t close (state_set base symbol key value) x

    abbrev observe : Executor N → Executor N
    observe x = record x { last_values = Map.set key value x.last_values }

    get-observed : (m : Map String (StateValue N)) → Map.get key (Map.set key value m) ≡ some value
    get-observed m = ground (arith, get-set key key value m, ==_refl key)

    write-again :
        (y : Executor N) (m : Map String (StateValue N))
        → y.last_values ≡ Map.set key value m
        → write y ≡ y
    unfolding consume record_transition
    write-again y m e = ground (arith, get-observed m, set-set key value m, same, e)

    act_on-cases :
        (x : Executor N)
        → (act_on t close key value x ≡ x)
          ⊎ (act_on t close key value x ≡ open_position t close x)
          ⊎ ((pos : OpenLot N) × (x.position ≡ some pos)
              × (act_on t close key value x ≡ close_position t close signal x))
    unfolding act_on
    act_on-cases x = elim (Option-cases x.position) [
      | inl e ↦ elim (Bool-cases (signal_matches x.entry_signal key value)) [
        | inl b ↦ inr (inl (ground arith))
        | inr b ↦ inl (ground arith)
      ]
      | inr (pos, e) ↦ elim (Bool-cases (exit_signal_matches x.exit.exit_signal key value)) [
        | inl b ↦ inr (inr (pos, e, ground arith))
        | inr b ↦ inl (ground arith)
      ]
    ]

    write-cases :
        (x : Executor N)
        → (write x ≡ observe x)
          ⊎ (write x ≡ open_position t close (observe x))
          ⊎ ((pos : OpenLot N) × (x.position ≡ some pos)
              × (write x ≡ close_position t close signal (observe x)))
    unfolding consume record_transition
    write-cases x = elim (Option-cases (Map.get key x.last_values)) [
      | inl e ↦
          let acted : write x ≡ act_on t close key value (observe x) = ground arith in
          rw acted (act_on-cases (observe x))
      | inr (prev, e) ↦ elim (Bool-cases (state_value_equals prev value)) [
        | inl b ↦ inl (ground arith)
        | inr b ↦
            let acted : write x ≡ act_on t close key value (observe x) = ground arith in
            rw acted (act_on-cases (observe x))
      ]
    ]

    -- For a value that equals itself: when the same write of a symbol's key comes twice in a row,
    -- the second changes nothing, or the first closed the position that was open.
    pub consume-again :
        (x : Executor N)
        → (consume t close
              (state_set base symbol key value)
              (consume t close (state_set base symbol key value) x)
            ≡ consume t close (state_set base symbol key value) x)
          ⊎ ((pos : OpenLot N) × (x.position ≡ some pos)
              × (consume t close (state_set base symbol key value) x
                  ≡ close_position t close signal
                      (record x { last_values = Map.set key value x.last_values })))
    unfolding open_position
    consume-again x = elim (write-cases x) [
      | inl e ↦ inl (write-again _ x.last_values (ap (λ y. y.last_values) e))
      | inr (inl e) ↦ inl (write-again _ x.last_values (ap (λ y. y.last_values) e))
      | inr (inr c) ↦ inr c
    ]
