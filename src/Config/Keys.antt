-- ===== src/Config/Keys.antt =====
-- Composite keys that end with a period's value.
use text.Mathlib.TextLemmas.{cons-append, nil-append}
use lametrader.Prelude.{
  String, ◌≡◌, refl, sym, ap, ◌∙◌, true, ◌&&◌, some, ◌==◌, ==_iff, text_keyed, Bool-cases, inl, inr,
  arith,
}
use lametrader.Text.{append, bar, no_bar, last_part}
use lametrader.Config.{
  Period, one_minute, five_minutes, fifteen_minutes, thirty_minutes, one_hour, four_hours, one_day,
  one_week, period_value, period_of, period_of-value, period_eq,
}

pub no_bar-value : (p : Period) → no_bar (period_value p) ≡ true
unfolding no_bar period_value
no_bar-value one_minute = refl
no_bar-value five_minutes = refl
no_bar-value fifteen_minutes = refl
no_bar-value thirty_minutes = refl
no_bar-value one_hour = refl
no_bar-value four_hours = refl
no_bar-value one_day = refl
no_bar-value one_week = refl

pub period_value_injective : (p q : Period) → period_value p ≡ period_value q → p ≡ q
period_value_injective p q e =
    let s : some p ≡ some q = sym (period_of-value p) ∙ ap period_of e ∙ period_of-value q in cc

-- Such a key determines its two parts.
pub period_key_injective :
    (x y : String) (p q : Period)
    → append x (String.◌∷◌ bar (period_value p)) ≡ append y (String.◌∷◌ bar (period_value q))
    → (x ≡ y) × (p ≡ q)
period_key_injective x y p q e =
    let (front, values) =
      last_part x y (period_value p) (period_value q) (no_bar-value p) (no_bar-value q) e in
    (front, period_value_injective p q values)

-- `<text>|<period>`
abbrev pub period_key : String → Period → String
period_key x p = append x (append "|" (period_value p))

period_key-bar :
    (x : String) (p : Period) → period_key x p ≡ append x (String.◌∷◌ bar (period_value p))
period_key-bar x p = rw (cons-append, nil-append) refl

-- Two such keys are the same when their parts are.
pub period_key-eq :
    (x y : String) (p q : Period) → (period_key x p == period_key y q) ≡ (x == y && p == q)
period_key-eq x y p q = elim (Bool-cases (period_key x p == period_key y q)) [
  | inl e ↦
      let (front, periods) =
        period_key_injective x y p q
          (sym (period_key-bar x p) ∙ (==_iff _ _).0 e ∙ period_key-bar y q) in
      ground (arith, ==_iff x y, ==_iff p q)
  | inr e ↦ elim (Bool-cases (x == y && p == q)) [
    | inl r ↦
        let front : x ≡ y = ground (arith, ==_iff x y) in
        let periods : p ≡ q = ground (arith, ==_iff p q) in
        let k : period_key x p ≡ period_key y q =
          ap (λ z. period_key z p) front ∙ ap (period_key y) periods in
        ground (arith, ==_iff (period_key x p) (period_key y q))
    | inr r ↦ e ∙ sym r
  ]
]
