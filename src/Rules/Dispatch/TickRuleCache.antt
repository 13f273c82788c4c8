-- ===== src/Rules/Dispatch/TickRuleCache.antt =====
-- The rule lists of one tick (packages/backend/src/analytics/rules/dispatch/tick-rule-cache.ts).
-- The promise that the source caches is its list here.
use lametrader.Prelude.{String, Option, none, some, List, text_keyed}
use lametrader.Prelude.Map
use lametrader.Prelude.Map.{Map}
use lametrader.Text.{append}
use lametrader.Rules.Rule.{Rule}
use lametrader.Rules.Repository.{RuleRepository, list_enabled_for_symbol}

abbrev pub TickRuleCache : Type 0 → Type 0
TickRuleCache N = Map String (List (Rule N))

abbrev or_else : Option String → String → String
or_else none d = d
or_else (some s) d = s

unfoldable pub cache_key : Option String → Option String → String
cache_key symbol_id profile_id =
    append (or_else symbol_id "\0null") (append "\0" (or_else profile_id "\0none"))

module _ {N : Type 0} where
  -- The list, and the cache after the call.
  unfoldable pub cached_list :
      Option String
      → Option String
      → RuleRepository N
      → TickRuleCache N
      → List (Rule N) × TickRuleCache N
  cached_list symbol_id profile_id source cache =
      let key = cache_key symbol_id profile_id in
      elim (Map.get key cache) [
        | some cached ↦ (cached, cache)
        | none ↦
            let found = list_enabled_for_symbol symbol_id profile_id source in
            (found, Map.set key found cache)
      ]
