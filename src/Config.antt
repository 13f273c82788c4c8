-- ===== src/Config.antt =====
-- The candle periods (packages/core/src/types/config/config.types.ts, packages/core/src/period.ts)
-- and the checks on lists of them (packages/backend/src/common/domain).
pub mod Keys
use lametrader.Prelude.{
  ℕ, refl, Option, none, some, if◌then◌else◌, ◌==◌, text_keyed, String, ◌≡◌, ◌↔◌, true, arith,
  Keyed, nat_beq,
}

pub data Period : Type 0 where
  one_minute five_minutes fifteen_minutes thirty_minutes one_hour four_hours one_day one_week :
      Period

-- The enum's string values.
unfoldable pub period_value : Period → String
period_value one_minute = "1m"
period_value five_minutes = "5m"
period_value fifteen_minutes = "15m"
period_value thirty_minutes = "30m"
period_value one_hour = "1h"
period_value four_hours = "4h"
period_value one_day = "1d"
period_value one_week = "1w"

-- A period by its value, if it is one (`PERIOD_VALUES`).
unfoldable pub period_of : String → Option Period
period_of s =
    if s == "1m"
    then some one_minute
    else if s == "5m"
    then some five_minutes
    else if s == "15m"
    then some fifteen_minutes
    else if s == "30m"
    then some thirty_minutes
    else if s == "1h"
    then some one_hour
    else if s == "4h"
    then some four_hours
    else if s == "1d"
    then some one_day
    else if s == "1w"
    then some one_week
    else none

pub period_of-value : (p : Period) → period_of (period_value p) ≡ some p
unfolding period_of period_value
period_of-value one_minute = refl
period_of-value five_minutes = refl
period_of-value fifteen_minutes = refl
period_of-value thirty_minutes = refl
period_of-value one_hour = refl
period_of-value four_hours = refl
period_of-value one_day = refl
period_of-value one_week = refl

-- `PERIOD_MILLIS` and `periodMillis`.
abbrev pub period_millis : Period → ℕ
period_millis one_minute = 60_000
period_millis five_minutes = 300_000
period_millis fifteen_minutes = 900_000
period_millis thirty_minutes = 1_800_000
period_millis one_hour = 3_600_000
period_millis four_hours = 14_400_000
period_millis one_day = 86_400_000
period_millis one_week = 604_800_000

-- Two periods are equal when they are as long.
pub period_beq_iff : (p q : Period) → (nat_beq (period_millis p) (period_millis q) ≡ true) ↔ (p ≡ q)
period_beq_iff p q = ground arith

instance abbrev pub period_eq : Keyed Period
period_eq = record {
  is_same = λ p q. nat_beq (period_millis p) (period_millis q);
  is_same_iff = period_beq_iff;
}
