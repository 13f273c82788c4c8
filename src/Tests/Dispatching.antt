-- ===== src/Tests/Dispatching.antt =====
-- A `Once` rule on one symbol, always true, and the dispatch of a tick.
use lametrader.Prelude.{
  ◌+◌, ◌≤◌, arith, ◌≡◌, refl, ◌↔◌, inl, inr, ap, true, false, none, some, List, [], ◌∷◌, String, In,
  text_keyed,
}
use lametrader.Prelude.Map
use lametrader.Float.Integers.{ℤ, pos, int_float}
use lametrader.Config.{one_minute}
use lametrader.Rules.Condition.{and_node, nil}
use lametrader.Rules.Event.{
  EvaluationTriggerEvent, tick, evaluation_trigger, once_per_interval, once_per_bar, once,
}
use lametrader.Rules.Rule.{Rule, one_symbol}
use lametrader.Rules.Series.{EvaluationContext}
use lametrader.Rules.Repository.{
  RuleRepository, list_enabled_for_symbol, claim_once_fire, sort_by_order,
  filter_by_enabled_profile, list_for_symbol, list_from, scope_matches,
}
use lametrader.Rules.Repository.Sorting.{IsOrdered}
use lametrader.Rules.Repository.Active.{
  IsLive, never_expires, expires_later, IsActive, list_enabled_for_symbol-IsActive,
}
use lametrader.Prelude.Map.{values}
use lametrader.Rules.Repository.Claim.{enabled_in}
use lametrader.Text.{no_bar}
use lametrader.Rules.Dispatch.Latch.InMemory.{in_memory_latch, in_memory_latch-LatchLaws}
use lametrader.Rules.Dispatch.Dispatcher.{
  DispatchState, FireRecord, Candidate, dispatch, run_candidates, candidates, dispatch_trigger,
  expand, expand_rule, enabled_rules, rearm_latches, reaches, firing_symbols_for, run_candidate,
  gate_allows, claim, record_fire,
}
use lametrader.Rules.Dispatch.Routes.{
  symbol_id_of, profile_id_of, is_cascade_event, routes, is_tick,
}
use lametrader.Rules.Dispatch.TickRuleCache.{cached_list, cache_key}
use lametrader.Rules.Condition.Normalize.{normalize_rule, normalize_node}
use lametrader.Rules.Operators.Evaluate.{evaluate_condition}
use lametrader.Rules.Dispatch.Dispatcher.Fires.{Fires, dispatch-Fires}
use lametrader.Rules.Dispatch.Dispatcher.Once.{count_fires, bit}
use lametrader.Rules.Dispatch.Dispatcher.PerBar.{count_fires_on, is_open_at, run_candidates-per_bar}
use lametrader.Rules.Dispatch.Dispatcher.PerInterval.{Spaced, run_candidates-Spaced}
use lametrader.Rules.Dispatch.Dispatcher.Sequence.{Round, dispatch_all, dispatch_all-once}

abbrev single_shot : Rule ℤ
single_shot = record {
  id = "r1";
  profile_id = "p1";
  name = "single shot";
  description = none;
  scope = one_symbol "BTC";
  condition = and_node nil;
  trigger = once;
  expiration = none;
  actions = [];
  enabled = true;
  order = 0;
  created_at = 0;
  updated_at = 0;
  last_fired_at = none;
}

abbrev rules : RuleRepository ℤ
rules = record { by_id = ("r1", single_shot) ∷ []; profiles = none }

abbrev idle : DispatchState ℤ (List String)
idle = record { rules = rules; rule_lists = []; latches = []; last_interval_fire = [] }

abbrev empty_context : EvaluationTriggerEvent ℤ → String → String → EvaluationContext ℤ
empty_context event symbol_id profile_id = record {
  symbol_id = symbol_id;
  resolve_latest = λ operand interval. none;
  resolve_prev = λ operand interval. none;
  resolve_series = λ operand interval. record { backward_walk = []; as_of = λ ts. none };
}

abbrev btc_tick : EvaluationTriggerEvent ℤ
btc_tick = tick 5 "BTC" (pos 100)

abbrev shot : FireRecord ℤ
shot = record { rule_id = "r1"; firing_symbol_id = "BTC"; event = btc_tick }

abbrev shots : List (Candidate ℤ)
shots =
    record { rule = single_shot; firing_symbol_id = "BTC" }
    ∷ record { rule = single_shot; firing_symbol_id = "ETH" }
    ∷ []

abbrev ticks : List (Round ℤ)
ticks =
    record { event = evaluation_trigger btc_tick; watched = none; new_tick = true }
    ∷ record { event = evaluation_trigger btc_tick; watched = none; new_tick = false }
    ∷ []

dispatch_all-once_example :
    count_fires "r1" (dispatch_all in_memory_latch empty_context ticks idle).0
      + bit (enabled_in "r1" (dispatch_all in_memory_latch empty_context ticks idle).1.rules)
    ≤ bit (enabled_in "r1" rules)
dispatch_all-once_example =
    dispatch_all-once in_memory_latch empty_context "r1" ticks idle
      (record { stored = (λ e. refl, tt); cached = tt })

tick_fires :
    In shot (dispatch in_memory_latch empty_context (evaluation_trigger btc_tick) none idle).0
unfolding dispatch dispatch_trigger run_candidates candidates expand expand_rule enabled_rules
    symbol_id_of cached_list Map.get Map.set rearm_latches list_enabled_for_symbol sort_by_order
    filter_by_enabled_profile list_for_symbol list_from profile_id_of scope_matches normalize_rule
    normalize_node reaches is_cascade_event routes is_tick firing_symbols_for run_candidate
    evaluate_condition gate_allows claim claim_once_fire record_fire cache_key
tick_fires = inl refl

dispatch-Fires_example :
    (trigger : EvaluationTriggerEvent ℤ) × (evaluation_trigger btc_tick
      ≡ evaluation_trigger trigger)
    × Fires in_memory_latch empty_context trigger none idle shot
dispatch-Fires_example =
    dispatch-Fires in_memory_latch empty_context (evaluation_trigger btc_tick) none idle shot
      tick_fires

abbrev expiring : RuleRepository ℤ
expiring = record {
  by_id =
      ("r1", single_shot) ∷ ("r2", record single_shot { id = "r2"; expiration = some 100 }) ∷ [];
  profiles = some (record { id = "p1"; enabled = true } ∷ []);
}

expiring-IsLive : (r : Rule ℤ) → In r (values expiring.by_id) → IsLive 7 r
expiring-IsLive r (inl q) = never_expires (ap (λ x. x.expiration) q)
expiring-IsLive r (inr (inl q)) = expires_later 100 (ap (λ x. x.expiration) q) (omega arith)
expiring-IsLive r (inr (inr h)) = absurd h

list_enabled_for_symbol-IsActive_example :
    ((r : Rule ℤ)
      → In r (list_enabled_for_symbol (some "BTC") (some "p1") expiring)
        ↔ IsActive 7 (some "BTC") (some "p1") expiring r)
    × IsOrdered (list_enabled_for_symbol (some "BTC") (some "p1") expiring)
list_enabled_for_symbol-IsActive_example =
    list_enabled_for_symbol-IsActive (some "BTC") (some "p1") expiring 7 expiring-IsLive

abbrev rule_id : String
rule_id = "r1"

abbrev symbol_id : String
symbol_id = "BTC"

abbrev per_bar : Candidate ℤ
per_bar = record {
  rule = record single_shot { trigger = once_per_bar one_minute };
  firing_symbol_id = "BTC";
}

run_candidates-per_bar_example :
    count_fires_on "r1" "BTC"
        (run_candidates in_memory_latch empty_context btc_tick (per_bar ∷ per_bar ∷ []) idle).0
      + bit (
          is_open_at in_memory_latch "r1" "BTC" one_minute
            (run_candidates in_memory_latch empty_context btc_tick (per_bar ∷ per_bar ∷ []) idle).1)
    ≤ bit (is_open_at in_memory_latch "r1" "BTC" one_minute idle)
unfolding no_bar
run_candidates-per_bar_example =
    run_candidates-per_bar in_memory_latch (λ id. no_bar id ≡ true) in_memory_latch-LatchLaws "r1"
      "BTC" one_minute refl empty_context btc_tick (per_bar ∷ per_bar ∷ []) idle
      ((λ e. refl, refl), ((λ e. refl, refl), tt))

abbrev spaced : Candidate ℤ
spaced = record {
  rule = record single_shot { trigger = once_per_interval 60 };
  firing_symbol_id = "BTC";
}

btc-no_bar : no_bar "BTC" ≡ true
unfolding no_bar
btc-no_bar = refl

run_candidates-Spaced_example :
    Spaced in_memory_latch "r1" "BTC" 60 btc-no_bar 5
      (count_fires_on "r1" "BTC"
        (run_candidates in_memory_latch empty_context btc_tick (spaced ∷ spaced ∷ []) idle).0)
      idle
      (run_candidates in_memory_latch empty_context btc_tick (spaced ∷ spaced ∷ []) idle).1
unfolding no_bar
run_candidates-Spaced_example =
    run_candidates-Spaced in_memory_latch "r1" "BTC" 60 btc-no_bar empty_context btc_tick
      (spaced ∷ spaced ∷ []) idle (omega arith) ((λ e. refl, refl), ((λ e. refl, refl), tt))
