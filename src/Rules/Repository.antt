-- ===== src/Rules/Repository.antt =====
-- The in-memory rule repository
-- (packages/backend/src/analytics/rules/in-memory-rule.repository.ts).
pub mod Sorting
pub mod Listing
pub mod Active
pub mod Claim
use lametrader.Prelude.{
  ℕ, String, Bool, true, false, Option, none, some, List, [], ◌∷◌, map, filter, includes,
  if◌then◌else◌, ◌==◌, text_keyed, leb,
}
use lametrader.Prelude.Map
use lametrader.Prelude.Sort.{sort_by}
use lametrader.Prelude.Map.{Map, values}
use lametrader.Rules.Condition.Normalize.{normalize_rule}
use lametrader.Rules.Rule.{RuleScope, one_symbol, symbols, all_symbols, Rule}

-- What the repository reads of a profile.
pub record Profile : Type 0 where
  pub id : String
  pub enabled : Bool

pub record RuleRepository (N : Type 0) : Type 0 where
  pub by_id : Map String (Rule N)
  -- the profiles of the injected repository, if one is injected
  pub profiles : Option (List Profile)

-- Whether the scope admits a symbol; `none` is the `null` of an event without a symbol.
unfoldable pub scope_matches : RuleScope → Option String → Bool
scope_matches all_symbols symbol_id = true
scope_matches scope none = false
scope_matches (one_symbol s) (some symbol_id) = s == symbol_id
scope_matches (symbols ss) (some symbol_id) = includes ss symbol_id

abbrev pub profile_admits : Option String → String → Bool
profile_admits none profile_id = true
profile_admits (some wanted) profile_id = profile_id == wanted

abbrev pub enabled_profile_ids : List Profile → List String
enabled_profile_ids profiles = map (λ p. p.id) (filter (λ p. p.enabled) profiles)

module _ {N : Type 0} where
  unfoldable pub seed : List (Rule N) → Map String (Rule N) → Map String (Rule N)
  seed [] m = m
  seed (rule ∷ rules) m = seed rules (Map.set rule.id rule m)

  unfoldable pub new_repository : List (Rule N) → Option (List Profile) → RuleRepository N
  unfolding seed
  new_repository rules profiles = record { by_id = seed rules []; profiles = profiles }

  unfoldable pub list_rules : RuleRepository N → List (Rule N)
  list_rules repo = map normalize_rule (values repo.by_id)

  unfoldable pub list_from : Option String → Option String → List (Rule N) → List (Rule N)
  list_from symbol_id profile_id [] = []
  list_from symbol_id profile_id (rule ∷ rules) =
      let out = list_from symbol_id profile_id rules in
      if profile_admits profile_id rule.profile_id
      then (if scope_matches rule.scope symbol_id then normalize_rule rule ∷ out else out)
      else out

  unfoldable pub list_for_symbol : Option String → Option String → RuleRepository N → List (Rule N)
  list_for_symbol symbol_id profile_id repo = list_from symbol_id profile_id (values repo.by_id)

  -- A stable sort by `order`, ascending.
  unfoldable pub sort_by_order : List (Rule N) → List (Rule N)
  unfolding sort_by
  sort_by_order = sort_by (λ r s. leb r.order s.order)

  unfoldable pub filter_by_enabled_profile : Option (List Profile) → List (Rule N) → List (Rule N)
  filter_by_enabled_profile none rules = rules
  filter_by_enabled_profile (some profiles) rules =
      filter (λ rule. includes (enabled_profile_ids profiles) rule.profile_id) rules

  unfoldable pub list_enabled_for_symbol :
      Option String → Option String → RuleRepository N → List (Rule N)
  list_enabled_for_symbol symbol_id profile_id repo = sort_by_order (
      filter_by_enabled_profile repo.profiles
        (filter (λ rule. rule.enabled) (list_for_symbol symbol_id profile_id repo)))

  unfoldable pub get : String → RuleRepository N → Option (Rule N)
  get id repo = elim (Map.get id repo.by_id) [
    | none ↦ none
    | some rule ↦ some (normalize_rule rule)
  ]

  unfoldable pub save : Rule N → RuleRepository N → RuleRepository N
  save rule repo = record repo { by_id = Map.set rule.id rule repo.by_id }

  unfoldable pub remove : String → RuleRepository N → RuleRepository N
  remove id repo = record repo { by_id = Map.delete id repo.by_id }

  unfoldable pub delete_all : List String → Map String (Rule N) → Map String (Rule N)
  delete_all [] m = m
  delete_all (id ∷ ids) m = delete_all ids (Map.delete id m)

  -- The removed ids, with the repository after.
  unfoldable pub remove_for_profile : String → RuleRepository N → List String × RuleRepository N
  unfolding delete_all
  remove_for_profile profile_id repo =
      let removed : List String =
        map (λ rule. rule.id)
          (filter (λ rule. rule.profile_id == profile_id) (values repo.by_id)) in
      (removed, record repo { by_id = delete_all removed repo.by_id })

  -- The atomic claim of a `Once` rule's single fire.
  unfoldable pub claim_once_fire : String → RuleRepository N → Bool × RuleRepository N
  claim_once_fire id repo = elim (Map.get id repo.by_id) [
    | none ↦ (false, repo)
    | some rule ↦
        if rule.enabled
        then (true, record repo { by_id = Map.set id (record rule { enabled = false }) repo.by_id })
        else (false, repo)
  ]
