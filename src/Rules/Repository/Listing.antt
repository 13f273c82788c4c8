-- ===== src/Rules/Repository/Listing.antt =====
-- What `listEnabledForSymbol` lists.
use lametrader.Prelude.{
  String, ◌≡◌, refl, ◌↔◌, inl, inr, Bool, true, Option, none, some, List, [], ◌∷◌, In, includes,
  text_keyed, Bool-cases,
}
use lametrader.Prelude.Members.{In-filter, filter-In}
use lametrader.Prelude.Map.{values}
use lametrader.Rules.Condition.Normalize.{normalize_rule}
use lametrader.Rules.Rule.{Rule}
use lametrader.Rules.Repository.{
  Profile, RuleRepository, scope_matches, profile_admits, enabled_profile_ids, list_from,
  list_for_symbol, filter_by_enabled_profile, list_enabled_for_symbol,
}
use lametrader.Rules.Repository.Sorting.{IsOrdered, sort_by_order-mem, sort_by_order-IsOrdered}

-- The profile's own switch: without a profile repository every profile is on.
abbrev pub profile_on : Option (List Profile) → String → Bool
profile_on none id = true
profile_on (some profiles) id = includes (enabled_profile_ids profiles) id

module _ {N : Type 0} where
  -- A stored rule that a lookup admits.
  pub record IsListed (symbol_id profile_id : Option String) (repo : RuleRepository N)
      (listed : Rule N) : Type 0 where
    pub stored : Rule N
    pub is_stored : In stored (values repo.by_id)
    pub normalized : listed ≡ normalize_rule stored
    pub profile : profile_admits profile_id stored.profile_id ≡ true
    pub scope : scope_matches stored.scope symbol_id ≡ true
    pub enabled : stored.enabled ≡ true
    pub profile_enabled : profile_on repo.profiles stored.profile_id ≡ true

  -- A member of a listing, as it is before the filters on the switches.
  record IsMatched (symbol_id profile_id : Option String) (rules : List (Rule N)) (listed : Rule N)
      : Type 0 where
    stored : Rule N
    is_stored : In stored rules
    normalized : listed ≡ normalize_rule stored
    profile : profile_admits profile_id stored.profile_id ≡ true
    scope : scope_matches stored.scope symbol_id ≡ true

  module _ (symbol_id profile_id : Option String) where
    IsMatched-cons :
        {rules : List (Rule N)} {listed : Rule N} (r : Rule N)
        → IsMatched symbol_id profile_id rules listed
        → IsMatched symbol_id profile_id (r ∷ rules) listed
    IsMatched-cons r m = record {
      stored = m.stored;
      is_stored = inr m.is_stored;
      normalized = m.normalized;
      profile = m.profile;
      scope = m.scope;
    }

    list_from-IsMatched :
        (rules : List (Rule N)) (listed : Rule N)
        → In listed (list_from symbol_id profile_id rules)
        → IsMatched symbol_id profile_id rules listed
    unfolding list_from
    list_from-IsMatched [] listed h = elim h [ ]
    list_from-IsMatched (r ∷ rules) listed h =
        elim (Bool-cases (profile_admits profile_id r.profile_id)) [
          | inr e ↦ IsMatched-cons r (list_from-IsMatched rules listed (rw (e, list_from) at h))
          | inl e ↦ elim (Bool-cases (scope_matches r.scope symbol_id)) [
            | inr e' ↦
                IsMatched-cons r (list_from-IsMatched rules listed (rw (e, e', list_from) at h))
            | inl e' ↦
                elim (let k : In listed (normalize_rule r ∷ list_from symbol_id profile_id rules) =
                    rw (e, e', list_from) at h in
                  k) [
                    | inl q ↦ record {
                      stored = r;
                      is_stored = inl refl;
                      normalized = q;
                      profile = e;
                      scope = e';
                    }
                    | inr i ↦ IsMatched-cons r (list_from-IsMatched rules listed i)
                  ]
          ]
        ]

    IsMatched-list_from :
        (rules : List (Rule N)) (r : Rule N)
        → In r rules
        → profile_admits profile_id r.profile_id ≡ true
        → scope_matches r.scope symbol_id ≡ true
        → In (normalize_rule r) (list_from symbol_id profile_id rules)
    unfolding list_from
    IsMatched-list_from (x ∷ rules) r (inl q) p s =
        let p' : profile_admits profile_id x.profile_id ≡ true = rw q at p in
        let s' : scope_matches x.scope symbol_id ≡ true = rw q at s in
        rw (p', s', list_from) (inl (rw q refl))
    IsMatched-list_from (x ∷ rules) r (inr i) p s =
        let rest = IsMatched-list_from rules r i p s in
        elim (Bool-cases (profile_admits profile_id x.profile_id)) [
          | inr e ↦ rw (e, list_from) rest
          | inl e ↦ elim (Bool-cases (scope_matches x.scope symbol_id)) [
            | inr e' ↦ rw (e, e', list_from) rest
            | inl e' ↦ rw (e, e', list_from) (inr rest)
          ]
        ]
    IsMatched-list_from [] r h p s = elim h [ ]

  filter_by_profile-In :
      (ps : Option (List Profile)) (r : Rule N) (rules : List (Rule N))
      → In r (filter_by_enabled_profile ps rules)
      → In r rules × (profile_on ps r.profile_id ≡ true)
  unfolding filter_by_enabled_profile
  filter_by_profile-In none r rules h = (h, refl)
  filter_by_profile-In (some ps) r rules h =
      In-filter (λ rule. includes (enabled_profile_ids ps) rule.profile_id) r rules h

  filter-In_by_profile :
      (ps : Option (List Profile)) (r : Rule N) (rules : List (Rule N))
      → In r rules
      → profile_on ps r.profile_id ≡ true
      → In r (filter_by_enabled_profile ps rules)
  unfolding filter_by_enabled_profile
  filter-In_by_profile none r rules h p = h
  filter-In_by_profile (some ps) r rules h p =
      filter-In (λ rule. includes (enabled_profile_ids ps) rule.profile_id) r rules h p

  module _ (symbol_id profile_id : Option String) (repo : RuleRepository N) where
    list_enabled-IsListed :
        (r : Rule N)
        → In r (list_enabled_for_symbol symbol_id profile_id repo)
        → IsListed symbol_id profile_id repo r
    unfolding list_enabled_for_symbol list_for_symbol
    list_enabled-IsListed r h =
        let (i, on) = filter_by_profile-In repo.profiles r _ ((sort_by_order-mem r _).0 h) in
        let (j, enabled) = In-filter (λ rule. rule.enabled) r _ i in
        let m = list_from-IsMatched symbol_id profile_id (values repo.by_id) r j in
        record {
          stored = m.stored;
          is_stored = m.is_stored;
          normalized = m.normalized;
          profile = m.profile;
          scope = m.scope;
          enabled = unfold normalize_rule in rw m.normalized at enabled;
          profile_enabled = unfold normalize_rule in rw m.normalized at on;
        }

    IsListed-list_enabled :
        (r : Rule N)
        → IsListed symbol_id profile_id repo r
        → In r (list_enabled_for_symbol symbol_id profile_id repo)
    unfolding list_enabled_for_symbol list_for_symbol normalize_rule
    IsListed-list_enabled r l = rw l.normalized (
        (sort_by_order-mem _ _).1 (
          filter-In_by_profile repo.profiles _ _
            (filter-In (λ rule. rule.enabled) _ _
              (IsMatched-list_from symbol_id profile_id _ l.stored l.is_stored l.profile l.scope)
              l.enabled)
            l.profile_enabled))

    -- The enabled rules for a symbol are, normalized, exactly the stored rules that are enabled, lie
    -- in an enabled profile and in the wanted one if one is given, and admit the symbol by their
    -- scope; and they come in ascending order.
    pub list_enabled_for_symbol_iff :
        ((r : Rule N)
          → In r (list_enabled_for_symbol symbol_id profile_id repo)
            ↔ IsListed symbol_id profile_id repo r)
        × IsOrdered (list_enabled_for_symbol symbol_id profile_id repo)
    list_enabled_for_symbol_iff = (
      λ r. (list_enabled-IsListed r, IsListed-list_enabled r),
      unfold list_enabled_for_symbol in sort_by_order-IsOrdered _,
    )
