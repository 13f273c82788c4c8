-- ===== src/Rules/Dispatch/Dispatcher/IntervalKey.antt =====
-- The keys of the last interval fires.
use text.Mathlib.TextLemmas.{cons-append, nil-append}
use lametrader.Prelude.{
  String, ◌≡◌, sym, ap, ◌∙◌, inl, inr, true, false, ◌&&◌, arith, Bool-cases, ◌==◌, ==_iff,
  text_keyed,
}
use lametrader.Text.{append, bar, no_bar, last_part}
use lametrader.Rules.Dispatch.Dispatcher.{interval_key}

interval_key-injective :
    (r r' y z : String)
    → no_bar y ≡ true
    → no_bar z ≡ true
    → interval_key r y ≡ interval_key r' z
    → (r ≡ r') × (y ≡ z)
unfolding interval_key
interval_key-injective r r' y z ny nz e =
    last_part r r' y z ny nz (ap (append r) (sym (barred y)) ∙ e ∙ ap (append r') (barred z))
  where
    barred : (s : String) → append "|" s ≡ String.◌∷◌ bar s
    barred s = cons-append bar String.[] s ∙ ap (String.◌∷◌ bar) (nil-append s)

pub interval_key-other :
    (r r' y z : String)
    → no_bar y ≡ true
    → no_bar z ≡ true
    → (r == r' && y == z) ≡ false
    → (interval_key r y == interval_key r' z) ≡ false
interval_key-other r r' y z ny nz apart =
    elim (Bool-cases (interval_key r y == interval_key r' z)) [
      | inl e ↦
          let (a, b) =
            interval_key-injective r r' y z ny nz
              ((==_iff (interval_key r y) (interval_key r' z)).0 e) in
          absurd (ground (arith, ==_iff r r', ==_iff y z))
      | inr e ↦ e
    ]
