-- ===== src/Rules/Service/Paging.antt =====
-- The reads of an event log (`paginate` and `matchesChartStates` of
-- packages/backend/src/analytics/rules/rule.service.ts).
pub mod Laws
use mathlib.Core.List.{reverse, reverse-cons}
use lametrader.Prelude.{
  ℕ, zero, suc, ◌≤◌, ◌<◌, ◌≡◌, sym, ap, ◌∙◌, ◌↔◌, Bool, true, false, ◌&&◌, String, Option, none,
  some, List, [], ◌∷◌, ◌++◌, length, filter, take, includes, In, All, leb, ltb, if◌then◌else◌,
  Bool-cases, ◌⊎◌, inl, inr, text_keyed, arith,
}
use lametrader.Prelude.Sort.{sort_by, sort_by-mem, Pairwise, sort_by-Pairwise, Pairwise-unit}
use lametrader.Prelude.Timed.{take_short}
use lametrader.Rules.EventEntry.{
  RuleEventEntry, BaseEntry, fired, notification_sent, state_set, state_removed, error,
  cycle_overflow,
}

pub record EventListOptions : Type 0 where
  pub limit : Option ℕ
  pub before : Option ℕ
  pub from : Option ℕ
  pub to : Option ℕ
  pub chart_states : Option (List String)

-- `DEFAULT_EVENT_PAGE_SIZE` and `MAX_EVENT_PAGE_SIZE`
abbrev pub default_event_page_size : ℕ
default_event_page_size = 50

abbrev pub max_event_page_size : ℕ
max_event_page_size = 500

-- `Math.min(options.limit ?? DEFAULT_EVENT_PAGE_SIZE, MAX_EVENT_PAGE_SIZE)`
abbrev pub page_limit : Option ℕ → ℕ
page_limit none = default_event_page_size
page_limit (some n) = if leb n max_event_page_size then n else max_event_page_size

abbrev pub is_key_of : List String → Option String → Bool
is_key_of keys none = false
is_key_of keys (some key) = includes keys key

abbrev pub is_before : Option ℕ → ℕ → Bool
is_before none ts = true
is_before (some t) ts = ltb ts t

abbrev pub is_from : Option ℕ → ℕ → Bool
is_from none ts = true
is_from (some t) ts = leb t ts

module _ {N : Type 0} where
  abbrev pub logged_base : RuleEventEntry N → BaseEntry
  logged_base (fired b event snapshot) = b
  logged_base (notification_sent b destination body) = b
  logged_base (state_set b scope key value) = b
  logged_base (state_removed b scope key) = b
  logged_base (error b reason) = b
  logged_base (cycle_overflow b limit) = b

  abbrev pub entry_ts : RuleEventEntry N → ℕ
  entry_ts entry = (logged_base entry).ts

  abbrev pub state_key_of : RuleEventEntry N → Option String
  state_key_of (state_set b scope key value) = some key
  state_key_of (state_removed b scope key) = some key
  state_key_of _ = none

  unfoldable pub matches_chart_states : RuleEventEntry N → List String → Bool
  matches_chart_states entry keys = is_key_of keys (state_key_of entry)

  abbrev pub is_shown : Option (List String) → RuleEventEntry N → Bool
  is_shown none entry = true
  is_shown (some keys) entry = matches_chart_states entry keys

  unfoldable pub passes : EventListOptions → RuleEventEntry N → Bool
  unfolding matches_chart_states
  passes options entry =
      is_before options.before (entry_ts entry)
      && is_from options.from (entry_ts entry)
      && is_before options.to (entry_ts entry)
      && is_shown options.chart_states entry

  unfoldable pub paginate : List (RuleEventEntry N) → EventListOptions → List (RuleEventEntry N)
  unfolding passes sort_by
  paginate events options =
      take (page_limit options.limit)
        (sort_by (λ a b. leb (entry_ts b) (entry_ts a)) (reverse (filter (passes options) events)))
