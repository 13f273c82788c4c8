-- ===== src/Rules/Service.antt =====
-- The rule service (packages/backend/src/analytics/rules/rule.service.ts): the checks on a rule
-- before it is stored, and the reads of its log. The generated id and the clock are arguments.
pub mod Accepted
pub mod Paging
use mathlib.Core.List.{reverse}
use lametrader.Prelude.{
  ℕ, Bool, true, false, ◌&&◌, not, String, Option, none, some, List, [], ◌∷◌, ◌++◌, filter, take,
  includes, leb, ltb, if◌then◌else◌, ◌==◌, text_keyed,
}
use lametrader.Prelude.Sort.{sort_by}
use lametrader.Config.{Period, period_eq}
use lametrader.Market.Symbol.{WatchedSymbol}
use lametrader.Rules.Condition.{ConditionNode}
use lametrader.Rules.Condition.Validate.{
  valid, invalid_rule_condition, validate_rule_condition, collect_condition_intervals,
}
use lametrader.Rules.Event.{
  Trigger, every_time, once, once_per_bar, once_per_bar_open, once_per_bar_close, once_per_interval,
}
use lametrader.Rules.EventEntry.{
  RuleEventEntry, BaseEntry, fired, notification_sent, state_set, state_removed, error,
  cycle_overflow,
}
use lametrader.Rules.Rule.{Rule, RuleScope, one_symbol, symbols, all_symbols, Action}
use lametrader.Rules.Repository.{RuleRepository, get, save, remove, list_rules, sort_by_order}

-- What a client may set of a rule.
pub record RuleCreateInput (N : Type 0) : Type 0 where
  pub profile_id : String
  pub name : String
  pub description : Option String
  pub scope : RuleScope
  pub condition : ConditionNode N
  pub trigger : Trigger
  pub expiration : Option ℕ
  pub actions : List (Action N)
  pub enabled : Bool
  pub order : ℕ
  pub last_fired_at : Option ℕ

-- A `Partial` of it: a field is `none` where it is left out.
pub record RulePatch (N : Type 0) : Type 0 where
  pub profile_id : Option String
  pub name : Option String
  pub description : Option (Option String)
  pub scope : Option RuleScope
  pub condition : Option (ConditionNode N)
  pub trigger : Option Trigger
  pub expiration : Option (Option ℕ)
  pub actions : Option (List (Action N))
  pub enabled : Option Bool
  pub order : Option ℕ
  pub last_fired_at : Option (Option ℕ)

pub record RuleListFilters : Type 0 where
  pub profile_id : Option String
  pub symbol_id : Option String
  pub enabled : Option Bool

pub data RuleError : Type 0 where
  rule_not_found : String → RuleError
  invalid_condition : RuleError
  intervals_not_watched : List Period → RuleError
  tick_rule_not_eligible : List String → RuleError

-- An error, or a value with the repository after.
pub data ServiceResult (A S : Type 0) : Type 0 where
  failed : RuleError → ServiceResult A S
  done : A → S → ServiceResult A S

-- `TICK_CADENCE_TRIGGERS`
abbrev pub is_tick_cadence : Trigger → Bool
is_tick_cadence every_time = true
is_tick_cadence once = true
is_tick_cadence (once_per_bar p) = true
is_tick_cadence _ = false

abbrev pub referenced_symbol_ids : RuleScope → Option (List String)
referenced_symbol_ids (one_symbol s) = some (s ∷ [])
referenced_symbol_ids (symbols ss) = some ss
referenced_symbol_ids all_symbols = none

unfoldable pub scope_admits_symbol : RuleScope → String → Bool
scope_admits_symbol (one_symbol s) symbol_id = s == symbol_id
scope_admits_symbol (symbols ss) symbol_id = includes ss symbol_id
scope_admits_symbol all_symbols symbol_id = true

-- The watchlist's `get`.
unfoldable pub find_watched : String → List WatchedSymbol → Option WatchedSymbol
find_watched id [] = none
find_watched id (w ∷ ws) = let rest = find_watched id ws in if w.id == id then some w else rest

abbrev pub is_watched : Option WatchedSymbol → Bool
is_watched none = false
is_watched (some w) = true

abbrev pub periods_of : Option WatchedSymbol → List Period
periods_of none = []
periods_of (some w) = w.periods

unfoldable pub unwatched_symbols : List WatchedSymbol → List String → List String
unwatched_symbols watchlist = filter (λ id. not (is_watched (find_watched id watchlist)))

unfoldable pub watched_periods : List WatchedSymbol → List String → List Period
watched_periods watchlist [] = []
watched_periods watchlist (id ∷ ids) =
    periods_of (find_watched id watchlist) ++ watched_periods watchlist ids

abbrev pub tick_verdict : List String → Option RuleError
tick_verdict [] = none
tick_verdict (s ∷ ss) = some (tick_rule_not_eligible (s ∷ ss))

unfoldable pub assert_tick_eligible : List WatchedSymbol → Trigger → RuleScope → Option RuleError
unfolding unwatched_symbols
assert_tick_eligible watchlist trigger scope =
    if is_tick_cadence trigger
    then elim (referenced_symbol_ids scope) [
      | none ↦ none
      | some ids ↦ tick_verdict (unwatched_symbols watchlist ids)
    ]
    else none

abbrev pub interval_verdict : List Period → Option RuleError
interval_verdict [] = none
interval_verdict (p ∷ ps) = some (intervals_not_watched (p ∷ ps))

-- Nothing is checked where no symbol of the scope is watched.
abbrev pub unwatched_intervals : List Period → List Period → List Period
unwatched_intervals [] intervals = []
unwatched_intervals (p ∷ ps) intervals = filter (λ i. not (includes (p ∷ ps) i)) intervals

unfoldable pub assert_intervals_watched :
    List WatchedSymbol → List Period → RuleScope → Option RuleError
unfolding watched_periods
assert_intervals_watched watchlist intervals scope = elim (referenced_symbol_ids scope) [
  | none ↦ none
  | some ids ↦ interval_verdict (unwatched_intervals (watched_periods watchlist ids) intervals)
]

abbrev pub patched : {A : Type 0} → Option A → A → A
patched none old = old
patched (some new) old = new

abbrev pub has_text : Option String → String → Bool
has_text none s = true
has_text (some wanted) s = s == wanted

abbrev pub has_flag : Option Bool → Bool → Bool
has_flag none b = true
has_flag (some true) b = b
has_flag (some false) b = not b

abbrev pub has_scope : Option String → RuleScope → Bool
has_scope none scope = true
has_scope (some symbol_id) scope = scope_admits_symbol scope symbol_id

module _ {N : Type 0} where
  -- The three checks, in order: the first error, if there is one.
  unfoldable pub check_rule : List WatchedSymbol → Rule N → Option RuleError
  unfolding assert_intervals_watched assert_tick_eligible
  check_rule watchlist rule = elim (validate_rule_condition rule.condition) [
    | invalid_rule_condition ↦ some invalid_condition
    | valid ↦
        elim (assert_intervals_watched watchlist (collect_condition_intervals rule.condition)
          rule.scope) [
            | some e ↦ some e
            | none ↦ assert_tick_eligible watchlist rule.trigger rule.scope
          ]
  ]

  unfoldable pub checked_save :
      List WatchedSymbol → Rule N → RuleRepository N → ServiceResult (Rule N) (RuleRepository N)
  unfolding check_rule
  checked_save watchlist rule repo = elim (check_rule watchlist rule) [
    | some e ↦ failed e
    | none ↦ done rule (save rule repo)
  ]

  unfoldable pub new_rule : String → ℕ → RuleCreateInput N → Rule N
  new_rule new_id now input = record {
    id = new_id;
    profile_id = input.profile_id;
    name = input.name;
    description = input.description;
    scope = input.scope;
    condition = input.condition;
    trigger = input.trigger;
    expiration = input.expiration;
    actions = input.actions;
    enabled = input.enabled;
    order = input.order;
    created_at = now;
    updated_at = now;
    last_fired_at = input.last_fired_at;
  }

  unfoldable pub create_rule :
      List WatchedSymbol
      → String
      → ℕ
      → RuleCreateInput N
      → RuleRepository N
      → ServiceResult (Rule N) (RuleRepository N)
  unfolding checked_save new_rule
  create_rule watchlist new_id now input repo =
      checked_save watchlist (new_rule new_id now input) repo

  unfoldable pub merge_rule : ℕ → RulePatch N → Rule N → Rule N
  merge_rule now partial existing = record existing {
    profile_id = patched partial.profile_id existing.profile_id;
    name = patched partial.name existing.name;
    description = patched partial.description existing.description;
    scope = patched partial.scope existing.scope;
    condition = patched partial.condition existing.condition;
    trigger = patched partial.trigger existing.trigger;
    expiration = patched partial.expiration existing.expiration;
    actions = patched partial.actions existing.actions;
    enabled = patched partial.enabled existing.enabled;
    order = patched partial.order existing.order;
    updated_at = now;
    last_fired_at = patched partial.last_fired_at existing.last_fired_at;
  }

  unfoldable pub patch_rule :
      List WatchedSymbol
      → String
      → ℕ
      → RulePatch N
      → RuleRepository N
      → ServiceResult (Rule N) (RuleRepository N)
  unfolding checked_save merge_rule
  patch_rule watchlist id now partial repo = elim (get id repo) [
    | none ↦ failed (rule_not_found id)
    | some existing ↦ checked_save watchlist (merge_rule now partial existing) repo
  ]

  unfoldable pub remove_rule :
      String → RuleRepository N → ServiceResult (Unit {0}) (RuleRepository N)
  remove_rule id repo = elim (get id repo) [
    | none ↦ failed (rule_not_found id)
    | some existing ↦ done tt (remove id repo)
  ]

  unfoldable pub list_service_rules : RuleListFilters → RuleRepository N → List (Rule N)
  unfolding scope_admits_symbol
  list_service_rules filters repo = sort_by_order (
      filter
        (λ rule.
          has_text filters.profile_id rule.profile_id
          && has_flag filters.enabled rule.enabled
          && has_scope filters.symbol_id rule.scope)
        (list_rules repo))
