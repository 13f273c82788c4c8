-- ===== src/Tests/Ticks.antt =====
-- A tick whose every event cascades into another, and writes of one key.
use lametrader.Prelude.{
  All, true, text_keyed, refl, ℕ, ◌+◌, ◌*◌, ◌≤◌, ◌≡◌, some, none, List, [], ◌∷◌, arith,
}
use lametrader.Float.Integers.{ℤ, pos, int_float}
use lametrader.State.{text, state_value_equals}
use lametrader.State.Repository.{
  set_symbol_state, remove_symbol_state, get_symbol_state, StateRepository, one_symbol,
}
use lametrader.State.Repository.Changes.{apply_write, StateWrite, set_symbol, remove_symbol, read}
use lametrader.State.Repository.Replay.{apply_writes, replay, apply_writes-replay}
use lametrader.Prelude.Map
use lametrader.Text.{no_bar}
use lametrader.Rules.Lookups.{LiveEvaluationLookups, mirrored_symbol_state}
use lametrader.Rules.Lookups.Mirror.{IsPlain, mirrored, mirror_all, mirrored-read}
use lametrader.Rules.Event.{tick, timer}
use lametrader.Rules.Orchestrator.{
  OrchestratorDeps, process, process_one_event, run_fires, record_cycle_overflow,
}
use lametrader.Rules.Orchestrator.CycleLimit.{process_ends}

-- The state counts the events; the cascade never stops by itself.
abbrev endless : OrchestratorDeps ℤ ℕ
endless = record {
  dispatch = λ event watched s. ([], s);
  get_rule = λ id s. none;
  save_rule = λ rule s. s;
  run_actions = λ rule symbol_id ts event s. ([], s);
  append_rule_event = λ id entry s. s;
  append_symbol_event = λ id entry s. s;
  watchlist = λ s. [];
  take_cascaded = λ s. (timer s ∷ [], s + 1);
}

process_ends_example :
    (r : ℕ) × (process endless 4 (tick 7 "BTC" (pos 100)) 0 ≡ some r) × (r ≤ 0 + ((4 + 1) * 1 + 0))
unfolding process_one_event run_fires record_cycle_overflow
process_ends_example =
    process_ends endless (λ s. s) 1 0 (λ event s. omega arith) (λ event limit s. omega arith) 4
      (tick 7 "BTC" (pos 100)) 0

abbrev no_state : StateRepository ℤ
no_state = record { symbol_store = []; global_store = [] }

abbrev writes : List (StateWrite ℤ)
writes =
    set_symbol "p1" "BTC" "trend" (text "up") 1
    ∷ set_symbol "p1" "BTC" "trend" (text "up") 2
    ∷ remove_symbol "p1" "BTC" "trend" 3
    ∷ []

apply_writes-replay_example :
    read "p1" (one_symbol "BTC") "trend" (apply_writes writes no_state).1
    ≡ replay
        (apply_writes writes no_state).0
        "p1"
        (one_symbol "BTC")
        "trend"
        (read "p1" (one_symbol "BTC") "trend" no_state)
apply_writes-replay_example = apply_writes-replay writes no_state "p1" (one_symbol "BTC") "trend"

abbrev fresh : LiveEvaluationLookups ℤ
fresh = record {
  tick_price = [];
  ohlcv = [];
  indicator_state = [];
  symbol_state = [];
  global_state = [];
}

IsPlain-writes : All IsPlain (apply_writes writes no_state).0
unfolding apply_writes apply_write set_symbol_state remove_symbol_state no_bar Map.get Map.set
    state_value_equals
IsPlain-writes = ((refl, refl), (tt, ((refl, refl), tt)))

plain_profile : no_bar "p1" ≡ true
unfolding no_bar
plain_profile = refl

plain_symbol : no_bar "BTC" ≡ true
unfolding no_bar
plain_symbol = refl

nothing_yet :
    mirrored "p1" (one_symbol "BTC") "trend" fresh ≡ read "p1" (one_symbol "BTC") "trend" no_state
unfolding mirrored_symbol_state get_symbol_state Map.get
nothing_yet = refl

mirrored-read_example :
    mirrored "p1" (one_symbol "BTC") "trend" (mirror_all (apply_writes writes no_state).0 fresh)
    ≡ read "p1" (one_symbol "BTC") "trend" (apply_writes writes no_state).1
mirrored-read_example =
    mirrored-read writes no_state fresh "p1" (one_symbol "BTC") "trend" IsPlain-writes plain_profile
      plain_symbol nothing_yet
