-- ===== src/Tests/Streams.antt =====
-- The bridges, the timers and the chains on short runs.
use lametrader.Prelude.{
  ℕ, ◌*◌, ◌≤◌, ◌⊎◌, length, ◌≡◌, ◌≢◌, ◌↔◌, refl, true, none, String, List, [], ◌∷◌, All, inl,
  ==_iff, number_keyed, text_keyed, arith,
}
use lametrader.Prelude.Map
use lametrader.Prelude.Map.{Map}
use lametrader.Prelude.Sort.{Pairwise}
use lametrader.Float.Integers.{ℤ, pos, int_float}
use lametrader.Config.{one_minute}
use lametrader.Market.Candle.{CandleEvent, fx}
use lametrader.Rules.Bridges.BarLifecycle.{handle_candles}
use lametrader.Rules.Bridges.BarLifecycle.InOrder.{
  InOrder, is_seen, bar_events, handle_candles-bar_events,
}
use lametrader.Rules.Bridges.IndicatorCascade.{number, IndicatorBridge}
use lametrader.Rules.Bridges.IndicatorCascade.Changes.{
  BridgeCall, bound, received, run_calls, Leads, run_calls-Leads,
}
use lametrader.Rules.Dispatch.Scheduler
use lametrader.Rules.Dispatch.Scheduler.{
  IntervalScheduler, Timeout, started, stopped, called, fired, begins, steps, no_timers, run_call,
  fire_timeout,
}
use lametrader.Rules.Dispatch.Scheduler.Timers.{scheduler-one_each}
use lametrader.Rules.Orchestrator.Serializer
use lametrader.Rules.Orchestrator.Serializer.{
  Serializer, enqueue, no_chains, queued, turns, ran, run_job, settle_job, settled,
}
use lametrader.Rules.Orchestrator.Serializer.InTurn.{InTurn, serializer-InTurn}
use lametrader.State.Repository.{bucket_at}
use lametrader.Delivery.Subscriptions.{
  SocketEvent, acquired, unsubscribed, closes, no_subscriptions, subscribe_acquired, unsubscribe,
  cleanup,
}
use lametrader.Delivery.Subscriptions.Released.{IsHeld, IsFresh, run_events, run_events-IsHeld}
use lametrader.Rules.Orchestrator.Serializer.Drains.{
  runs_here, runs_later, Works, starts, settles, Run, rests, works, serializer-drains,
}

abbrev poll : ℕ → CandleEvent ℤ
poll minute = record {
  id = "EURUSD";
  period = one_minute;
  candle =
      fx (record {
        time = minute * 60_000;
        «open» = pos 1;
        high = pos 1;
        low = pos 1;
        close = pos 1;
      });
  final = true;
}

abbrev polls : List (CandleEvent ℤ)
polls = poll 0 ∷ poll 0 ∷ poll 1 ∷ []

polls-InOrder : InOrder [] polls
unfolding InOrder is_seen
polls-InOrder = (
  (λ ts h. ground arith),
  ((λ ts h. ground (arith, ==_iff 0 ts)), ((λ ts h. ground (arith, ==_iff 0 ts)), tt)),
)

handle_candles-bar_events_example : handle_candles polls [] ≡ bar_events [] polls
handle_candles-bar_events_example = handle_candles-bar_events polls polls-InOrder

abbrev row : ℕ → BridgeCall ℤ
row n = received (record {
  subscription_id = "s1";
  id = "BTC";
  period = one_minute;
  state = record { time = n; entries = ("time", number (pos n)) ∷ ("value", number (pos 7)) ∷ [] };
})

abbrev calls : List (BridgeCall ℤ)
calls = bound "s1" "sma" "p1" ∷ row 1 ∷ row 2 ∷ []

abbrev fresh : IndicatorBridge ℤ
fresh = record { cache = []; subscription_instance = [] }

run_calls-Leads_example :
    let (emitted, b') = run_calls calls fresh in Leads fresh.cache emitted b'.cache
run_calls-Leads_example = run_calls-Leads calls fresh

abbrev one_timer : IntervalScheduler
one_timer = run_call (started "r1" 1000) no_timers

abbrev first_timeout : Timeout
first_timeout = record { handle = 0; rule_id = "r1"; interval_ms = 1000 }

-- The callback of a due timeout stops its rule and starts it again.
abbrev restarted : IntervalScheduler
restarted = fire_timeout first_timeout (stopped "r1" ∷ started "r1" 500 ∷ []) one_timer

restarted-Reachable : Scheduler.Reachable restarted
unfolding run_call Scheduler.start_timer Scheduler.schedule_next Map.get
restarted-Reachable =
    steps (steps begins (called (started "r1" 1000)))
      (fired first_timeout (stopped "r1" ∷ started "r1" 500 ∷ []) (inl refl))

scheduler-one_each_example :
    Pairwise (λ t u. t.rule_id ≢ u.rule_id) restarted.armed
    × ((r : String)
        → (Map.get r restarted.timers ≡ none) ↔ All (λ t. t.rule_id ≢ r) restarted.armed)
scheduler-one_each_example = scheduler-one_each restarted-Reachable

-- Two events of one symbol, of which the first runs.
abbrev two_queued : Serializer String String
two_queued = enqueue (λ e. e) "BTC" (enqueue (λ e. e) "BTC" (no_chains (λ e. e)))

abbrev one_running : Serializer String String
one_running = record two_queued { jobs = run_job 0 two_queued.jobs }

one_running-Reachable : Serializer.Reachable (λ e. e) one_running
unfolding enqueue Serializer.may_run Serializer.has_settled Map.get Map.set
one_running-Reachable = turns (queued "BTC" (queued "BTC" Serializer.begins)) (ran 0 refl)

serializer-InTurn_example : Pairwise (InTurn (λ e. e)) one_running.jobs
serializer-InTurn_example = serializer-InTurn (λ e. e) one_running-Reachable

-- The first event settles and the second one runs.
abbrev one_settled : Serializer String String
one_settled = record one_running { jobs = settle_job 0 one_running.jobs }

abbrev second_running : Serializer String String
second_running = record one_settled { jobs = run_job 1 one_settled.jobs }

two_turns : Run (λ e. e) 2 one_running second_running
unfolding enqueue Serializer.may_run Serializer.has_settled Map.get Map.set run_job settle_job
two_turns = works (settles 0 (runs_later (runs_here refl refl))) (works (starts 1 refl) rests)

serializer-drains_example :
    (2 ≤ 2 * length one_running.jobs)
    × (All (λ j. j.status ≡ settled) second_running.jobs
        ⊎ ((s : Serializer String String) × Works (λ e. e) second_running s))
serializer-drains_example =
    serializer-drains (λ e. e) one_running-Reachable 2 second_running two_turns

-- A quote that is acquired only after the socket has closed.
abbrev late_quote : List SocketEvent
late_quote =
    acquired "subscribe" "BTC"
    ∷ acquired "subscribe-quote" "BTC"
    ∷ unsubscribed "subscribe" "BTC"
    ∷ closes
    ∷ acquired "subscribe-quote" "ETH"
    ∷ []

late_quote-IsFresh : IsFresh late_quote no_subscriptions
unfolding subscribe_acquired unsubscribe cleanup bucket_at Map.get Map.set Map.delete
late_quote-IsFresh = (refl, (refl, (refl, tt)))

run_events-IsHeld_example : IsHeld (run_events late_quote no_subscriptions)
run_events-IsHeld_example = run_events-IsHeld late_quote late_quote-IsFresh
