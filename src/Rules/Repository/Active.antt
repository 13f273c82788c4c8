-- ===== src/Rules/Repository/Active.antt =====
-- The rules that may fire on a symbol, against `listEnabledForSymbol` of
-- packages/backend/src/analytics/rules/in-memory-rule.repository.ts. The repository never reads
-- `expiration`, so the two agree at a time when no stored rule has expired.
use lametrader.Prelude.{
  ℕ, ◌<◌, String, ◌≡◌, refl, ap, ◌↔◌, inl, inr, true, Option, none, some, List, [], ◌∷◌, In, map,
  filter, ==_iff, text_keyed,
}
use lametrader.Prelude.Members.{In-filter, filter-In, includes_iff}
use lametrader.Prelude.Map.{values}
use lametrader.Rules.Condition.Normalize.{normalize_rule}
use lametrader.Rules.Rule.{RuleScope, one_symbol, symbols, all_symbols, Rule}
use lametrader.Rules.Repository.{
  Profile, RuleRepository, scope_matches, profile_admits, list_enabled_for_symbol,
}
use lametrader.Rules.Repository.Sorting.{IsOrdered}
use lametrader.Rules.Repository.Listing.{IsListed, profile_on, list_enabled_for_symbol_iff}

-- A rule's scope admits the symbol of an event, or its absence.
pub data Admits : RuleScope → Option String → Type 0 where
  all_admit : {symbol_id : Option String} → Admits all_symbols symbol_id
  one_admits : {s : String} → Admits (one_symbol s) (some s)
  list_admits : {ss : List String} {s : String} → In s ss → Admits (symbols ss) (some s)

-- The profile is stored and enabled, where profiles are stored at all.
pub data IsProfileOn : Option (List Profile) → String → Type 0 where
  no_profiles : {id : String} → IsProfileOn none id
  profile_enabled :
      {profiles : List Profile} (p : Profile)
      → In p profiles
      → p.enabled ≡ true
      → IsProfileOn (some profiles) p.id

-- The rule has not expired at a time.
pub data IsLive {N : Type 0} (now : ℕ) (rule : Rule N) : Type 0 where
  never_expires : rule.expiration ≡ none → IsLive now rule
  expires_later : (t : ℕ) → rule.expiration ≡ some t → now < t → IsLive now rule

-- A rule that may fire: it is stored and enabled, has not expired, belongs to the wanted profile,
-- where one is wanted, and to an enabled one, and its scope admits the symbol. It is listed in
-- its normal form.
pub record IsActive {N : Type 0} (now : ℕ) (symbol_id profile_id : Option String)
    (repo : RuleRepository N) (listed : Rule N) : Type 0 where
  pub stored : Rule N
  pub is_stored : In stored (values repo.by_id)
  pub normalized : listed ≡ normalize_rule stored
  pub enabled : stored.enabled ≡ true
  pub live : IsLive now stored
  pub profile : (wanted : String) → profile_id ≡ some wanted → stored.profile_id ≡ wanted
  pub profile_is_on : IsProfileOn repo.profiles stored.profile_id
  pub scope : Admits stored.scope symbol_id

matches-Admits :
    (scope : RuleScope) (symbol_id : Option String)
    → scope_matches scope symbol_id ≡ true
    → Admits scope symbol_id
unfolding scope_matches
matches-Admits all_symbols symbol_id h = all_admit
matches-Admits (one_symbol s) (some y) h = rw ((==_iff s y).0 h) one_admits
matches-Admits (symbols ss) (some y) h = list_admits ((includes_iff ss y).0 h)
matches-Admits (one_symbol s) none h = cc
matches-Admits (symbols ss) none h = cc

Admits-matches :
    {scope : RuleScope} {symbol_id : Option String}
    → Admits scope symbol_id
    → scope_matches scope symbol_id ≡ true
unfolding scope_matches
Admits-matches all_admit = refl
Admits-matches (one_admits {s}) = (==_iff s s).1 refl
Admits-matches (list_admits {ss} {s} i) = (includes_iff ss s).1 i

-- A member of a list of ids is the id of a member.
map-In :
    (id : String) (ps : List Profile)
    → In id (map (λ p. p.id) ps)
    → (p : Profile) × In p ps × (id ≡ p.id)
map-In id [] h = absurd h
map-In id (p ∷ ps) (inl q) = (p, inl refl, q)
map-In id (p ∷ ps) (inr h) = let (r, i, q) = map-In id ps h in (r, inr i, q)

In-map : (p : Profile) (ps : List Profile) → In p ps → In p.id (map (λ p. p.id) ps)
In-map p [] h = absurd h
In-map p (x ∷ ps) (inl q) = inl (ap (λ p. p.id) q)
In-map p (x ∷ ps) (inr h) = inr (In-map p ps h)

profile_on-IsProfileOn :
    (profiles : Option (List Profile)) (id : String)
    → profile_on profiles id ≡ true
    → IsProfileOn profiles id
profile_on-IsProfileOn none id h = no_profiles
profile_on-IsProfileOn (some ps) id h =
    let (p, i, q) = map-In id (filter (λ p. p.enabled) ps) ((includes_iff _ id).0 h) in
    let (j, e) = In-filter (λ p. p.enabled) p ps i in rw q (profile_enabled p j e)

IsProfileOn-profile_on :
    {profiles : Option (List Profile)} {id : String}
    → IsProfileOn profiles id
    → profile_on profiles id ≡ true
IsProfileOn-profile_on no_profiles = refl
IsProfileOn-profile_on (profile_enabled {profiles} p i e) =
    (includes_iff _ p.id).1 (In-map p _ (filter-In (λ p. p.enabled) p profiles i e))

admits-wanted :
    (profile_id : Option String) (id : String)
    → profile_admits profile_id id ≡ true
    → (wanted : String) → profile_id ≡ some wanted
    → id ≡ wanted
admits-wanted profile_id id h wanted q =
    let k : profile_admits (some wanted) id ≡ true = rw q at h in (==_iff id wanted).0 k

wanted-admits :
    (profile_id : Option String) (id : String)
    → ((wanted : String) → profile_id ≡ some wanted → id ≡ wanted)
    → profile_admits profile_id id ≡ true
wanted-admits none id h = refl
wanted-admits (some wanted) id h = (==_iff id wanted).1 (h wanted refl)

module _ {N : Type 0} (symbol_id profile_id : Option String) (repo : RuleRepository N) (now : ℕ)
    (live : (r : Rule N) → In r (values repo.by_id) → IsLive now r) where
  listed-IsActive :
      (r : Rule N) → IsListed symbol_id profile_id repo r → IsActive now symbol_id profile_id repo r
  listed-IsActive r l = record {
    stored = l.stored;
    is_stored = l.is_stored;
    normalized = l.normalized;
    enabled = l.enabled;
    live = live l.stored l.is_stored;
    profile = admits-wanted profile_id _ l.profile;
    profile_is_on = profile_on-IsProfileOn repo.profiles _ l.profile_enabled;
    scope = matches-Admits l.stored.scope symbol_id l.scope;
  }

  active-IsListed :
      (r : Rule N) → IsActive now symbol_id profile_id repo r → IsListed symbol_id profile_id repo r
  active-IsListed r a = record {
    stored = a.stored;
    is_stored = a.is_stored;
    normalized = a.normalized;
    profile = wanted-admits profile_id _ a.profile;
    scope = Admits-matches a.scope;
    enabled = a.enabled;
    profile_enabled = IsProfileOn-profile_on a.profile_is_on;
  }

  -- At a time when no stored rule has expired, the listing for a symbol, or for an event without
  -- one, holds in normal form exactly the stored rules that may fire: enabled, not expired, in the
  -- wanted profile where one is wanted and in an enabled one where profiles are stored, with a
  -- scope that admits the symbol; and it is in ascending order.
  pub list_enabled_for_symbol-IsActive :
      ((r : Rule N)
        → In r (list_enabled_for_symbol symbol_id profile_id repo)
          ↔ IsActive now symbol_id profile_id repo r)
      × IsOrdered (list_enabled_for_symbol symbol_id profile_id repo)
  list_enabled_for_symbol-IsActive =
      let (members, ordered) = list_enabled_for_symbol_iff symbol_id profile_id repo in
      (
        λ r. (λ h. listed-IsActive r ((members r).0 h), λ a. (members r).1 (active-IsListed r a)),
        ordered,
      )
