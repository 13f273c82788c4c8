-- ===== src/Rules/Service/Accepted.antt =====
-- What the service stores has passed its checks.
use lametrader.Prelude.{
  ℕ, ◌≡◌, refl, sym, ◌∙◌, false, String, Option, none, some, List, [], ◌∷◌, map, All, inl, inr,
  Bool-cases, Option-cases, ◌==◌, ==_iff, text_keyed, arith,
}
use lametrader.Prelude.Map
use lametrader.Prelude.Map.{Map, values}
use lametrader.Market.Symbol.{WatchedSymbol}
use lametrader.Rules.Condition.Normalize.{normalize_rule}
use lametrader.Rules.Condition.Normalize.Laws.{normalize_node_keeps}
use lametrader.Rules.Condition.Validate.{
  valid, invalid_rule_condition, Validation, validate_rule_condition,
}
use lametrader.Rules.Rule.{Rule}
use lametrader.Rules.Repository.{
  RuleRepository, Profile, get, save, remove, list_rules, claim_once_fire, remove_for_profile,
  delete_all,
}
use lametrader.Rules.Service.{
  RuleCreateInput, RulePatch, ServiceResult, failed, done, check_rule, checked_save, new_rule,
  create_rule, merge_rule, patch_rule, remove_rule,
}

-- What changes the stored rules: calls of the service, and the engine's own writes.
pub data RuleCall (N : Type 0) : Type 0 where
  created : List WatchedSymbol → String → ℕ → RuleCreateInput N → RuleCall N
  patched_by : List WatchedSymbol → String → ℕ → RulePatch N → RuleCall N
  removed : String → RuleCall N
  claimed : String → RuleCall N
  profile_removed : String → RuleCall N

module _ {A S : Type 0} where
  -- The store after a call: as it was, where the call fails.
  abbrev pub store_after : S → ServiceResult A S → S
  store_after s (failed e) = s
  store_after s (done a s') = s'

module _ {N : Type 0} where
  abbrev pub run_call : RuleCall N → RuleRepository N → RuleRepository N
  run_call (created watchlist id now input) repo =
      store_after repo (create_rule watchlist id now input repo)
  run_call (patched_by watchlist id now partial) repo =
      store_after repo (patch_rule watchlist id now partial repo)
  run_call (removed id) repo = store_after repo (remove_rule id repo)
  run_call (claimed id) repo = (claim_once_fire id repo).1
  run_call (profile_removed profile_id) repo = (remove_for_profile profile_id repo).1

  abbrev pub run_rule_calls : List (RuleCall N) → RuleRepository N → RuleRepository N
  run_rule_calls [] repo = repo
  run_rule_calls (c ∷ calls) repo = run_rule_calls calls (run_call c repo)

  -- A rule that stands under its id and whose condition passes.
  abbrev pub IsAccepted : String → Rule N → Type 0
  IsAccepted id rule = (rule.id ≡ id) × (validate_rule_condition rule.condition ≡ valid)

  abbrev IsStored : Map String (Rule N) → Type 0
  IsStored [] = Unit
  IsStored ((id, rule) ∷ m) = IsAccepted id rule × IsStored m

  set-IsStored :
      (id : String) (rule : Rule N) (m : Map String (Rule N))
      → IsAccepted id rule
      → IsStored m
      → IsStored (Map.set id rule m)
  unfolding Map.set
  set-IsStored id rule [] a h = (a, tt)
  set-IsStored id rule ((j, r) ∷ m) a h = elim (Bool-cases (j == id)) [
    | inl e ↦ rw (e, Map.set) ((a.0 ∙ sym ((==_iff j id).0 e), a.1), h.1)
    | inr e ↦ rw (e, Map.set) (h.0, set-IsStored id rule m a h.1)
  ]

  delete-IsStored :
      (id : String) (m : Map String (Rule N)) → IsStored m → IsStored (Map.delete id m)
  unfolding Map.delete
  delete-IsStored id [] h = tt
  delete-IsStored id ((j, r) ∷ m) h = elim (Bool-cases (j == id)) [
    | inl e ↦ rw (e, Map.delete) (delete-IsStored id m h.1)
    | inr e ↦ rw (e, Map.delete) (h.0, delete-IsStored id m h.1)
  ]

  delete_all-IsStored :
      (ids : List String) (m : Map String (Rule N)) → IsStored m → IsStored (delete_all ids m)
  unfolding delete_all
  delete_all-IsStored [] m h = h
  delete_all-IsStored (id ∷ ids) m h =
      delete_all-IsStored ids (Map.delete id m) (delete-IsStored id m h)

  get-IsAccepted :
      (id : String) (m : Map String (Rule N)) (rule : Rule N)
      → IsStored m
      → Map.get id m ≡ some rule
      → IsAccepted id rule
  unfolding Map.get
  get-IsAccepted id [] rule h e = absurd (ground arith)
  get-IsAccepted id ((j, r) ∷ m) rule h e = elim (Bool-cases (j == id)) [
    | inl q ↦ let same : r ≡ rule = ground arith in rw (← same) (h.0.0 ∙ (==_iff j id).0 q, h.0.1)
    | inr q ↦ get-IsAccepted id m rule h.1 (ground arith)
  ]

  check-valid :
      (watchlist : List WatchedSymbol) (rule : Rule N)
      → check_rule watchlist rule ≡ none
      → validate_rule_condition rule.condition ≡ valid
  unfolding check_rule
  check-valid watchlist rule e = by_verdict (validate_rule_condition rule.condition) refl
    where
      by_verdict :
          (v : Validation)
          → validate_rule_condition rule.condition ≡ v
          → validate_rule_condition rule.condition ≡ valid
      by_verdict valid q = q
      by_verdict invalid_rule_condition q = absurd (ground arith)

  checked_save-IsStored :
      (watchlist : List WatchedSymbol) (rule : Rule N) (repo : RuleRepository N)
      → IsStored repo.by_id
      → IsStored (store_after repo (checked_save watchlist rule repo)).by_id
  unfolding checked_save save
  checked_save-IsStored watchlist rule repo h = elim (Option-cases (check_rule watchlist rule)) [
    | inl e ↦
        rw (e, checked_save)
          (set-IsStored rule.id rule repo.by_id (refl, check-valid watchlist rule e) h)
    | inr (fault, e) ↦ rw (e, checked_save) h
  ]

  claim-IsStored :
      (id : String) (repo : RuleRepository N)
      → IsStored repo.by_id
      → IsStored (claim_once_fire id repo).1.by_id
  unfolding claim_once_fire
  claim-IsStored id repo h = elim (Option-cases (Map.get id repo.by_id)) [
    | inl e ↦ rw (e, claim_once_fire) h
    | inr (rule, e) ↦ elim (Bool-cases rule.enabled) [
      | inl on ↦
          rw (e, claim_once_fire, on)
            (set-IsStored id (record rule { enabled = false }) repo.by_id
              (get-IsAccepted id repo.by_id rule h e) h)
      | inr off ↦ rw (e, claim_once_fire, off) h
    ]
  ]

  run_call-IsStored :
      (c : RuleCall N) (repo : RuleRepository N)
      → IsStored repo.by_id
      → IsStored (run_call c repo).by_id
  unfolding create_rule patch_rule remove_rule remove claim_once_fire remove_for_profile
  run_call-IsStored (created watchlist id now input) repo h =
      checked_save-IsStored watchlist (new_rule id now input) repo h
  run_call-IsStored (patched_by watchlist id now partial) repo h =
      elim (Option-cases (get id repo)) [
        | inl e ↦ rw (e, patch_rule) h
        | inr (existing, e) ↦
            rw (e, patch_rule)
              (checked_save-IsStored watchlist (merge_rule now partial existing) repo h)
      ]
  run_call-IsStored (removed id) repo h = elim (Option-cases (get id repo)) [
    | inl e ↦ rw (e, remove_rule) h
    | inr (existing, e) ↦ rw (e, remove_rule) (delete-IsStored id repo.by_id h)
  ]
  run_call-IsStored (claimed id) repo h = claim-IsStored id repo h
  run_call-IsStored (profile_removed profile_id) repo h =
      delete_all-IsStored (remove_for_profile profile_id repo).0 repo.by_id h

  run_rule_calls-IsStored :
      (calls : List (RuleCall N)) (repo : RuleRepository N)
      → IsStored repo.by_id
      → IsStored (run_rule_calls calls repo).by_id
  run_rule_calls-IsStored [] repo h = h
  run_rule_calls-IsStored (c ∷ calls) repo h =
      run_rule_calls-IsStored calls (run_call c repo) (run_call-IsStored c repo h)

  listed :
      (m : Map String (Rule N))
      → IsStored m
      → All (λ rule. validate_rule_condition rule.condition ≡ valid) (map normalize_rule (values m))
  unfolding normalize_rule
  listed [] h = tt
  listed ((id, rule) ∷ m) h = ((normalize_node_keeps rule.condition).2 ∙ h.0.1, listed m h.1)

  -- After any calls of the service, and the engine's own claims and removals, from the empty
  -- repository: the rule that an id gives has that id and a condition that passes the validation,
  -- and so do all the listed ones' conditions.
  pub run_rule_calls-IsAccepted :
      (calls : List (RuleCall N)) (profiles : Option (List Profile))
      → let repo = run_rule_calls calls (record { by_id = []; profiles = profiles }) in
        ((id : String) (rule : Rule N) → get id repo ≡ some rule → IsAccepted id rule)
        × All (λ rule. validate_rule_condition rule.condition ≡ valid) (list_rules repo)
  unfolding get list_rules normalize_rule
  run_rule_calls-IsAccepted calls profiles =
      let repo = run_rule_calls calls (record { by_id = []; profiles = profiles }) in
      let whole = run_rule_calls-IsStored calls (record { by_id = []; profiles = profiles }) tt in
      (
        λ id rule e. elim (Option-cases (Map.get id repo.by_id)) [
          | inl q ↦ absurd (ground arith)
          | inr (r, q) ↦
              let a = get-IsAccepted id repo.by_id r whole q in
              let same : normalize_rule r ≡ rule = ground arith in
              rw (← same) (a.0, (normalize_node_keeps r.condition).2 ∙ a.1)
        ],
        listed repo.by_id whole,
      )
