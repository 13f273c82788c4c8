-- ===== src/Tests/Firing.antt =====
-- A fire that sets a symbol's key twice and sends a message.
use Prim.Native.Char.{Char}
use lametrader.Rules.Actions.Template.{Vars}
use lametrader.Rules.Actions.Rendering.{letter, placeholder, Segment}
use lametrader.Prelude.{◌≡◌, ◌++◌, none, [], ◌∷◌, length, suc, true, List}
use lametrader.Float.Integers.{ℤ, pos, int_float}
use lametrader.State.{text}
use lametrader.State.Repository.Replay.{apply_writes}
use lametrader.Rules.Condition.{and_node, nil}
use lametrader.Rules.Event.{EvaluationTriggerEvent, tick, every_time}
use lametrader.Rules.Rule.{Rule, one_symbol, notification, set_symbol_state}
use lametrader.Rules.Actions.{ActionRunner, RunState, run_fire}
use lametrader.Rules.Actions.Effects.{writes_of, all_cascades, run_fire-effects}

abbrev runner : ActionRunner ℤ
runner = record {
  send = λ destination message. none;
  lookups = record {
    get_current_value = λ symbol_id. none;
    get_open_value = λ symbol_id period. none;
    get_high_value = λ symbol_id period. none;
    get_low_value = λ symbol_id period. none;
    get_close_value = λ symbol_id period. none;
    get_volume_value = λ symbol_id period. none;
  };
  inherited = λ name. none;
  shown = record { show_value = λ x. "100"; show_ts = λ ts. "5" };
}

abbrev trend_up : Rule ℤ
trend_up = record {
  id = "r1";
  profile_id = "p1";
  name = "trend up";
  description = none;
  scope = one_symbol "BTC";
  condition = and_node nil;
  trigger = every_time;
  expiration = none;
  actions =
      set_symbol_state "trend" (text "up")
      ∷ notification "me" "{symbolId} is at {current}"
      ∷ set_symbol_state "trend" (text "up")
      ∷ [];
  enabled = true;
  order = 0;
  created_at = 0;
  updated_at = 0;
  last_fired_at = none;
}

abbrev fresh : RunState ℤ
fresh = record { state = record { symbol_store = []; global_store = [] }; cascaded = []; sent = [] }

abbrev price_tick : EvaluationTriggerEvent ℤ
price_tick = tick 5 "BTC" (pos 100)

run_fire-effects_example :
    let writes = writes_of trend_up "BTC" 5 trend_up.actions in
    let (entries, after) = run_fire runner trend_up "BTC" 5 price_tick fresh in
    (length entries ≡ suc (length trend_up.actions))
    × (after.state ≡ (apply_writes writes fresh.state).1)
    × (after.cascaded ≡ fresh.cascaded ++ all_cascades (apply_writes writes fresh.state).0)
run_fire-effects_example = run_fire-effects runner trend_up "BTC" 5 price_tick fresh

-- {ts} {no}, of which the second token is no variable.
abbrev greeting : List Segment
greeting = placeholder "ts" ∷ letter " " ∷ placeholder "no" ∷ []

abbrev greeted : Vars
greeted = record { symbol_id = "BTC"; ts = "7"; prev = "1"; current = "2" }
