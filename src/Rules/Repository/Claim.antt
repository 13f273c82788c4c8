-- ===== src/Rules/Repository/Claim.antt =====
-- The claim of a `Once` rule's single fire.
use lametrader.Prelude.{
  String, ◌≡◌, inl, inr, Bool, false, none, some, arith, if◌then◌else◌, Option-cases, text_keyed,
  ◌==◌, ==_iff,
}
use lametrader.Prelude.Map
use lametrader.Prelude.Map.{get-set}
use lametrader.Rules.Repository.{RuleRepository, claim_once_fire}

module _ {N : Type 0} where
  -- Whether the rule with the id is stored and enabled.
  unfoldable pub enabled_in : String → RuleRepository N → Bool
  enabled_in id repo = elim (Map.get id repo.by_id) [ none ↦ false | some rule ↦ rule.enabled ]

  pub claim_wins :
      (id : String) (repo : RuleRepository N) → (claim_once_fire id repo).0 ≡ enabled_in id repo
  unfolding claim_once_fire enabled_in
  claim_wins id repo = ground arith

  -- A claim switches its own rule off and leaves the other switches.
  pub enabled_in-claim :
      (id other : String) (repo : RuleRepository N)
      → enabled_in other (claim_once_fire id repo).1
        ≡ (if id == other then false else enabled_in other repo)
  unfolding claim_once_fire enabled_in
  enabled_in-claim id other repo = elim (Option-cases (Map.get id repo.by_id)) [
    | inl e ↦ ground (arith, ==_iff id other)
    | inr (rule, e) ↦
        ground
          (arith, ==_iff id other, get-set id other (record rule { enabled = false }) repo.by_id)
  ]
