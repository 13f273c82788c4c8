-- ===== src/Rules/Dispatch/Dispatcher/Keeps.antt =====
-- What all stored rules have in common, the rules of every candidate have, and every dispatch keeps.
use lametrader.Prelude.{
  ◌⊎◌, String, ◌≡◌, refl, inl, inr, Option, none, some, List, [], ◌∷◌, In, All, arith, Option-cases,
  Bool-cases, text_keyed,
}
use lametrader.Prelude.Members.{All-In}
use lametrader.Prelude.Map
use lametrader.Prelude.Map.{Map, values}
use lametrader.Rules.Condition.Normalize.{normalize_rule}
use lametrader.Rules.Event.{EvaluationTriggerEvent}
use lametrader.Rules.Rule.{Rule}
use lametrader.Rules.Dispatch.Latch.{LatchStore}
use lametrader.Rules.Dispatch.Dispatcher.Fires.{expand-IsCandidate}
use lametrader.Rules.Repository.{RuleRepository, sort_by_order, list_enabled_for_symbol}
use lametrader.Rules.Repository.Sorting.{sort_by_order-mem}
use lametrader.Rules.Repository.Listing.{list_enabled_for_symbol_iff}
use lametrader.Rules.Dispatch.Routes.{symbol_id_of, profile_id_of}
use lametrader.Rules.Dispatch.TickRuleCache.{TickRuleCache, cached_list, cache_key}
use lametrader.Rules.Dispatch.Dispatcher.{
  put_all, gather, all_enabled_across_scopes, enabled_rules, or_empty, expand, DispatchState,
  candidates,
}

module _ {A : Type 0} (P : A → Type 0) where
  In-All : (xs : List A) → ((a : A) → In a xs → P a) → All P xs
  In-All [] g = tt
  In-All (x ∷ xs) g = (g x (inl refl), In-All xs (λ a i. g a (inr i)))

  pub values-set :
      (k : String) (v : A) (m : Map String A)
      → All P (values m)
      → P v
      → All P (values (Map.set k v m))
  unfolding Map.set
  values-set k v [] h p = (p, tt)
  values-set k v ((j, w) ∷ m) h p = elim (Bool-cases (text_keyed.is_same j k)) [
    | inl e ↦ rw e (p, h.1)
    | inr e ↦ rw e (h.0, values-set k v m h.1 p)
  ]

  pub values-get :
      (k : String) (v : A) (m : Map String A) → All P (values m) → Map.get k m ≡ some v → P v
  unfolding Map.get
  values-get k v [] h e = absurd (ground arith)
  values-get k v ((j, w) ∷ m) h e = elim (Bool-cases (text_keyed.is_same j k)) [
    | inl b ↦ let q : w ≡ v = ground arith in rw⁻¹ q h.0
    | inr b ↦ values-get k v m h.1 (ground arith)
  ]

module _ {N : Type 0} where
  enabled_rules-cases :
      (event : EvaluationTriggerEvent N) (watched : Option (List String))
      (source : RuleRepository N) (cache : TickRuleCache N)
      → (enabled_rules event watched source cache
          ≡ all_enabled_across_scopes (profile_id_of event) watched source cache)
        ⊎ ((symbol_id : String) × (enabled_rules event watched source cache
              ≡ cached_list (some symbol_id) (profile_id_of event) source cache))
  unfolding enabled_rules
  enabled_rules-cases event watched source cache = elim (Option-cases (symbol_id_of event)) [
    | inl e ↦ inl (ground arith)
    | inr (symbol_id, e) ↦ inr (symbol_id, ground arith)
  ]

module _ {N : Type 0} (P : Rule N → Type 0) where
  -- The rules of the cache of the tick.
  abbrev pub CacheHas : TickRuleCache N → Type 0
  CacheHas cache = All (λ rules. All P rules) (values cache)

  -- All stored and cached rules have it.
  pub record IsKept {S : Type 0} (s : DispatchState N S) : Type 0 where
    pub stored : All P (values s.rules.by_id)
    pub cached : CacheHas s.rule_lists

module _ {N : Type 0} (P : Rule N → Type 0)
    (normal : (rule : Rule N) → P rule → P (normalize_rule rule)) where
  listed-All :
      (symbol_id profile_id : Option String) (source : RuleRepository N)
      → All P (values source.by_id)
      → All P (list_enabled_for_symbol symbol_id profile_id source)
  listed-All symbol_id profile_id source h = In-All P _ (λ rule i.
      let l = ((list_enabled_for_symbol_iff symbol_id profile_id source).0 rule).0 i in
      rw l.normalized (normal l.stored (All-In P _ l.stored h l.is_stored)))

  cached_list-cases :
      (symbol_id profile_id : Option String) (source : RuleRepository N) (cache : TickRuleCache N)
      → (cached_list symbol_id profile_id source cache ≡ (
        list_enabled_for_symbol symbol_id profile_id source,
        Map.set
            (cache_key symbol_id profile_id)
            (list_enabled_for_symbol symbol_id profile_id source)
            cache,
      ))
        ⊎ ((rules : List (Rule N)) × (Map.get (cache_key symbol_id profile_id) cache ≡ some rules)
            × (cached_list symbol_id profile_id source cache ≡ (rules, cache)))
  unfolding cached_list
  cached_list-cases symbol_id profile_id source cache =
      elim (Option-cases (Map.get (cache_key symbol_id profile_id) cache)) [
        | inl e ↦ inl (ground arith)
        | inr (rules, e) ↦ inr (rules, e, ground arith)
      ]

  cached_list-All :
      (symbol_id profile_id : Option String) (source : RuleRepository N) (cache : TickRuleCache N)
      → All P (values source.by_id)
      → CacheHas P cache
      → All P (cached_list symbol_id profile_id source cache).0
        × CacheHas P (cached_list symbol_id profile_id source cache).1
  cached_list-All symbol_id profile_id source cache h k =
      elim (cached_list-cases symbol_id profile_id source cache) [
        | inl q ↦
            let found = listed-All symbol_id profile_id source h in
            rw q (found, values-set (λ rules. All P rules) _ _ cache k found)
        | inr (rules, e, q) ↦ rw q (values-get (λ rules. All P rules) _ rules cache k e, k)
      ]

  put_all-All :
      (rules : List (Rule N)) (m : Map String (Rule N))
      → All P rules
      → All P (values m)
      → All P (values (put_all rules m))
  unfolding put_all
  put_all-All [] m h k = k
  put_all-All (rule ∷ rules) m h k = put_all-All rules _ h.1 (values-set P rule.id rule m k h.0)

  gather-All :
      (profile_id : Option String) (source : RuleRepository N) (watched : List String)
      (cache : TickRuleCache N) (m : Map String (Rule N))
      → All P (values source.by_id)
      → CacheHas P cache
      → All P (values m)
      → All P (values (gather profile_id source watched cache m).0)
        × CacheHas P (gather profile_id source watched cache m).1
  unfolding gather
  gather-All profile_id source [] cache m h k p = (p, k)
  gather-All profile_id source (symbol_id ∷ rest) cache m h k p =
      let (a, b) = cached_list-All (some symbol_id) profile_id source cache h k in
      gather-All profile_id source rest _ _ h b (put_all-All _ m a p)

  sorted-All : (rules : List (Rule N)) → All P rules → All P (sort_by_order rules)
  sorted-All rules h =
      In-All P _ (λ rule i. All-In P rules rule h ((sort_by_order-mem rule rules).0 i))

  across-All :
      (profile_id : Option String) (watched : Option (List String)) (source : RuleRepository N)
      (cache : TickRuleCache N)
      → All P (values source.by_id)
      → CacheHas P cache
      → All P (all_enabled_across_scopes profile_id watched source cache).0
        × CacheHas P (all_enabled_across_scopes profile_id watched source cache).1
  unfolding all_enabled_across_scopes
  across-All profile_id watched source cache h k =
      let (a, b) = cached_list-All none profile_id source cache h k in
      let (c, d) =
        gather-All profile_id source (or_empty watched) _ _ h b (put_all-All _ [] a tt) in
      (sorted-All _ c, d)

  enabled_rules-All :
      (event : EvaluationTriggerEvent N) (watched : Option (List String))
      (source : RuleRepository N) (cache : TickRuleCache N)
      → All P (values source.by_id)
      → CacheHas P cache
      → All P (enabled_rules event watched source cache).0
        × CacheHas P (enabled_rules event watched source cache).1
  enabled_rules-All event watched source cache h k =
      elim (enabled_rules-cases event watched source cache) [
        | inl q ↦ rw q (across-All (profile_id_of event) watched source cache h k)
        | inr (symbol_id, q) ↦
            rw q (cached_list-All (some symbol_id) (profile_id_of event) source cache h k)
      ]

  candidates-All :
      (event : EvaluationTriggerEvent N) (watched : Option (List String)) (enabled : List (Rule N))
      → All P enabled
      → All (λ c. P c.rule) (expand event watched enabled)
  candidates-All event watched enabled h =
      In-All (λ c. P c.rule) _
        (λ c i. All-In P enabled c.rule h (expand-IsCandidate event watched enabled c i).listed)

  pub candidates-IsKept :
      {S : Type 0} (store : LatchStore S) (event : EvaluationTriggerEvent N)
      (watched : Option (List String)) (s : DispatchState N S)
      → IsKept P s
      → All (λ c. P c.rule) (candidates store event watched s).0
        × IsKept P (candidates store event watched s).1
  unfolding candidates
  candidates-IsKept store event watched s h =
      let (a, b) = enabled_rules-All event watched s.rules s.rule_lists h.stored h.cached in
      (candidates-All event watched _ a, record { stored = h.stored; cached = b })
