-- ===== src/Rules/Dispatch/Latch/InMemory.antt =====
-- The in-memory latch store
-- (packages/backend/src/analytics/rules/dispatch/in-memory-once-per-bar-latch.store.ts).
use text.Mathlib.TextLemmas.{cons-append, append_assoc, nil-append}
use lametrader.Prelude.{
  ℕ, String, ◌≡◌, refl, sym, ap, ◌∙◌, Bool, true, not, ◌&&◌, ◌||◌, List, [], ◌∷◌, ◌++◌, filter,
  includes, includes-append, includes-filter, if◌then◌else◌, arith, ◌==◌, ==_iff, text_keyed,
  Bool-cases, inl, inr,
}
use lametrader.Config.{Period, period_value, period_eq}
use lametrader.Config.Keys.{period_key_injective}
use lametrader.Text.{append, ends_with, ends_with_iff, ends_with-append, bar, no_bar, last_part}
use lametrader.Rules.Dispatch.Latch.{LatchStore, LatchLaws}

abbrev sep : String
sep = "|"

-- `<ruleId>|<symbolId>|<period>`
pub latch_key : String → String → Period → String
latch_key rule_id symbol_id period =
    append rule_id (append sep (append symbol_id (append sep (period_value period))))

-- `|<symbolId>|<period>`
rearm_suffix : String → Period → String
rearm_suffix symbol_id period = append sep (append symbol_id (append sep (period_value period)))

-- The set of latched keys, in insertion order.
pub is_latched : List String → String → String → Period → Bool
unfolding latch_key
is_latched latched rule_id symbol_id period = includes latched (latch_key rule_id symbol_id period)

pub latch : List String → String → String → Period → ℕ → List String
unfolding latch_key
latch latched rule_id symbol_id period ttl_ms =
    let key = latch_key rule_id symbol_id period in
    if includes latched key then latched else latched ++ (key ∷ [])

pub rearm : List String → String → Period → List String
unfolding rearm_suffix
rearm latched symbol_id period =
    let suffix = rearm_suffix symbol_id period in
    filter (λ entry. not (ends_with entry suffix)) latched

unfoldable pub in_memory_latch : LatchStore (List String)
unfolding is_latched latch rearm
in_memory_latch = record { is_latched = is_latched; latch = latch; rearm = rearm }

and_comm : (a b : Bool) → (a && b) ≡ (b && a)
and_comm a b = ground arith

-- A key, split at its last two separators.
latch_key-split :
    (r y : String) (p : Period)
    → latch_key r y p ≡ append (append r (String.◌∷◌ bar y)) (String.◌∷◌ bar (period_value p))
unfolding latch_key
latch_key-split r y p =
    rw (append_assoc, cons-append, cons-append, nil-append, cons-append, nil-append) refl

-- Where the symbols have no separator, a key determines its three parts.
pub latch_key_injective :
    (r r' y y' : String) (p p' : Period)
    → no_bar y ≡ true
    → no_bar y' ≡ true
    → latch_key r y p ≡ latch_key r' y' p'
    → (r ≡ r') × (y ≡ y') × (p ≡ p')
latch_key_injective r r' y y' p p' ny ny' e =
    let (front, periods) =
      period_key_injective (append r (String.◌∷◌ bar y)) (append r' (String.◌∷◌ bar y')) p p'
        (sym (latch_key-split r y p) ∙ e ∙ latch_key-split r' y' p') in
    let (rules, symbols) = last_part r r' y y' ny ny' front in (rules, symbols, periods)

key_append : (r y : String) (p : Period) → latch_key r y p ≡ append r (rearm_suffix y p)
unfolding latch_key rearm_suffix
key_append r y p = refl

-- A key ends with a suffix exactly when the symbols and the periods are the same.
key-ends_with :
    (r y y' : String) (p p' : Period)
    → no_bar y ≡ true
    → no_bar y' ≡ true
    → ends_with (latch_key r y p) (rearm_suffix y' p') ≡ (y' == y && p' == p)
key-ends_with r y y' p p' ny ny' =
    elim (Bool-cases (ends_with (latch_key r y p) (rearm_suffix y' p'))) [
      | inl e ↦
          let (before, q) = (ends_with_iff (latch_key r y p) (rearm_suffix y' p')).0 e in
          let (_, ys, ps) =
            latch_key_injective r before y y' p p' ny ny' (q ∙ sym (key_append before y' p')) in
          ground (arith, ==_iff y' y, ==_iff p' p)
      | inr e ↦ elim (Bool-cases (y' == y && p' == p)) [
        | inr d ↦ e ∙ sym d
        | inl d ↦
            let ys : y' ≡ y = ground (arith, ==_iff y' y) in
            let ps : p' ≡ p = ground (arith, ==_iff p' p) in
            absurd (ground (arith, same_ends ys ps))
      ]
    ]
  where
    same_ends : y' ≡ y → p' ≡ p → ends_with (latch_key r y p) (rearm_suffix y' p') ≡ true
    same_ends ys ps = rw (ys, ps, key_append r y p) (ends_with-append r (rearm_suffix y p))

key_beq :
    (r r' y y' : String) (p p' : Period)
    → no_bar y ≡ true
    → no_bar y' ≡ true
    → (latch_key r y p == latch_key r' y' p') ≡ (r == r' && (y == y' && p == p'))
key_beq r r' y y' p p' ny ny' = elim (Bool-cases (latch_key r y p == latch_key r' y' p')) [
  | inl e ↦
      let (rs, ys, ps) =
        latch_key_injective r r' y y' p p' ny ny'
          ((==_iff (latch_key r y p) (latch_key r' y' p')).0 e) in
      ground (arith, ==_iff r r', ==_iff y y', ==_iff p p')
  | inr e ↦ elim (Bool-cases (r == r' && (y == y' && p == p'))) [
    | inr d ↦ e ∙ sym d
    | inl d ↦
        let rs : r ≡ r' = ground (arith, ==_iff r r') in
        let ys : y ≡ y' = ground (arith, ==_iff y y') in
        let ps : p ≡ p' = ground (arith, ==_iff p p') in absurd (ground (arith, same_keys rs ys ps))
  ]
]
  where
    same_keys : r ≡ r' → y ≡ y' → p ≡ p' → (latch_key r y p == latch_key r' y' p') ≡ true
    same_keys rs ys ps = rw (rs, ys, ps) ((==_iff (latch_key r' y' p') (latch_key r' y' p')).1 refl)

-- Membership after an addition to a set.
includes-add :
    (s : List String) (k k' : String)
    → includes (if includes s k then s else s ++ (k ∷ [])) k' ≡ ((k == k') || includes s k')
includes-add s k k' = ground (arith, includes-append s k k', ==_iff k k')

-- The in-memory store keeps the laws of a latch on symbol ids without the separator: a latch sets
-- the one key of its rule, symbol and period, and a re-arm clears the latches of every rule on its
-- symbol and period and no other, also where one symbol id ends with another.
pub in_memory_latch-LatchLaws : LatchLaws in_memory_latch (λ symbol_id. no_bar symbol_id ≡ true)
unfolding in_memory_latch
in_memory_latch-LatchLaws = record {
  is_latched-latch = λ s r y r' y' p p' ttl ny ny'.
      includes-add s (latch_key r y p) (latch_key r' y' p')
      ∙ ap (λ b. b || includes s (latch_key r' y' p')) (key_beq r r' y y' p p' ny ny');
  is_latched-rearm = λ s y r' y' p p' ny ny'.
      rw (includes-filter, key-ends_with r' y' y p' p ny' ny)
        (and_comm (includes s (latch_key r' y' p')) (not (y == y' && p == p')));
}
