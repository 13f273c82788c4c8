-- ===== src/Tests/Services.antt =====
-- A backfill of two candles, their pages, and a rule service's calls and reads.
use mathlib.Core.List.{reverse}
use lametrader.Prelude.{
  ℕ, ◌≤◌, ◌≡◌, refl, true, none, some, String, List, [], ◌∷◌, ◌++◌, length, filter, All, arith,
}
use lametrader.Float.Integers.{ℤ, pos}
use lametrader.Config.{one_minute}
use lametrader.State.{num}
use lametrader.Market.Candles.{InMemoryCandles, save_candles, within}
use lametrader.Market.Symbol.{WatchedSymbol, crypto, symbol_type, source_for_type}
use lametrader.Market.Backfill.{
  BackfillProgress, CandleFeed, backfilled, backfill, read_page, assert_backfillable, first_time,
  last_time,
}
use lametrader.Market.Backfill.Chunks.{backfill-saved_once, saved_once}
use lametrader.Market.Backfill.Pages.{read_on, read_on-window}
use lametrader.Rules.Condition.{and_node, nil}
use lametrader.Rules.Condition.Validate.{valid, validate_rule_condition}
use lametrader.Rules.Rule.{Rule, all_symbols}
use lametrader.Rules.Event.{every_time}
use lametrader.Rules.EventEntry.{RuleEventEntry, state_set, error, symbol}
use lametrader.Rules.Repository.{get, list_rules}
use lametrader.Rules.Service.{RuleCreateInput, RulePatch}
use lametrader.Rules.Service.Accepted.{
  RuleCall, created, patched_by, claimed, removed, run_rule_calls, IsAccepted,
  run_rule_calls-IsAccepted,
}
use lametrader.Rules.Service.Paging.{EventListOptions, paginate}
use lametrader.Rules.Service.Paging.Laws.{IsPage, as_asked, paginate_lem}
use lametrader.Tests.Stored.{candle, two_minutes, minute_reads, minute_laws}

abbrev watched : WatchedSymbol
watched = record { id = "crypto:BTC"; type = crypto; periods = one_minute ∷ [] }

abbrev feed : CandleFeed ℤ
feed = record {
  types = crypto ∷ [];
  fetch_candles = λ id p range. record {
    candles = candle 0 10 ∷ candle 1 12 ∷ [];
    complete = true;
    reported = [];
  };
}

abbrev no_candles : InMemoryCandles ℤ
no_candles = record { series = [] }

is_backfillable : assert_backfillable (some watched) "crypto:BTC" one_minute ≡ none
unfolding assert_backfillable
is_backfillable = refl

is_crypto : symbol_type "crypto:BTC" ≡ some crypto
unfolding symbol_type
is_crypto = refl

is_served : source_for_type (λ s. s.types) (feed ∷ []) crypto ≡ some feed
unfolding source_for_type
is_served = refl

backfill-saved_once_example :
    let fetched = feed.fetch_candles "crypto:BTC" one_minute none in
    (frames : List BackfillProgress) × (backfill save_candles 3
        (feed ∷ [])
        (some watched)
        "crypto:BTC"
        one_minute
        none
        no_candles
      ≡ backfilled
          (record {
            id = "crypto:BTC";
            period = one_minute;
            from = first_time fetched.candles;
            to = last_time fetched.candles;
            fetched = length fetched.candles;
            saved = length fetched.candles;
            complete = fetched.complete;
          })
          (fetched.reported ++ frames)
          (saved_once "crypto:BTC" one_minute fetched.candles no_candles))
    × All (λ f. f.done ≤ length fetched.candles) frames
backfill-saved_once_example =
    backfill-saved_once 3 (feed ∷ []) (some watched) "crypto:BTC" one_minute none no_candles crypto
      feed is_backfillable is_crypto is_served (omega arith)

read_on-window_example :
    (read_on (λ t. read_page minute_reads "BTC" one_minute t 120_000 1 none) 3 0
      ≡ some (reverse (filter (within 0 120_000) (two_minutes "BTC" one_minute))))
    × ((t : ℕ) → length (read_page minute_reads "BTC" one_minute t 120_000 1 none).candles ≤ 1)
read_on-window_example =
    read_on-window minute_reads two_minutes minute_laws "BTC" one_minute 120_000 1 none 0 3
      (omega arith) (omega arith)

abbrev always : RuleCreateInput ℤ
always = record {
  profile_id = "p1";
  name = "always";
  description = none;
  scope = all_symbols;
  condition = and_node nil;
  trigger = every_time;
  expiration = none;
  actions = [];
  enabled = true;
  order = 0;
  last_fired_at = none;
}

abbrev renamed : RulePatch ℤ
renamed = record {
  profile_id = none;
  name = some "now and then";
  description = none;
  scope = none;
  condition = none;
  trigger = none;
  expiration = none;
  actions = none;
  enabled = none;
  order = some 2;
  last_fired_at = none;
}

abbrev service_calls : List (RuleCall ℤ)
service_calls =
    created [] "r1" 5 always
    ∷ created [] "r2" 6 always
    ∷ patched_by [] "r1" 7 renamed
    ∷ claimed "r1"
    ∷ removed "r2"
    ∷ []

run_rule_calls-IsAccepted_example :
    let repo = run_rule_calls service_calls (record { by_id = []; profiles = none }) in
    ((id : String) (rule : Rule ℤ) → get id repo ≡ some rule → IsAccepted id rule)
    × All (λ rule. validate_rule_condition rule.condition ≡ valid) (list_rules repo)
run_rule_calls-IsAccepted_example = run_rule_calls-IsAccepted service_calls none

abbrev entry_at : ℕ → RuleEventEntry ℤ
entry_at n =
    state_set (record { ts = n; rule_id = "r1"; symbol_id = "BTC" }) symbol "trend" (num (pos n))

abbrev log_entries : List (RuleEventEntry ℤ)
log_entries =
    entry_at 1
    ∷ error (record { ts = 2; rule_id = "r1"; symbol_id = "BTC" }) "no such variable"
    ∷ entry_at 4
    ∷ entry_at 3
    ∷ []

abbrev of_trend : EventListOptions
of_trend = record {
  limit = some 5;
  before = none;
  from = some 2;
  to = none;
  chart_states = some ("trend" ∷ []);
}

paginate_lem_example : IsPage 5 log_entries of_trend (paginate log_entries of_trend)
paginate_lem_example = paginate_lem log_entries of_trend 5 (as_asked (omega arith))
