-- ===== src/Rules/Dispatch/Scheduler/Timers.antt =====
-- Each started rule has one timeout, and no other rule has one.
use lametrader.Prelude.{
  ℕ, ◌≡◌, ◌≢◌, ◌↔◌, refl, sym, ap, ◌∙◌, inl, inr, false, String, none, some, List, [], ◌∷◌, All,
  ==_iff, number_keyed, text_keyed, Option-cases, arith,
}
use lametrader.Prelude.Map
use lametrader.Prelude.Map.{Map, get-set, get-delete}
use lametrader.Prelude.Sort.{Pairwise}
use lametrader.Rules.Dispatch.Scheduler.{Timeout, IntervalScheduler, Reachable}
use lametrader.Rules.Dispatch.Scheduler.Kept.{is_armed}
use lametrader.Rules.Dispatch.Scheduler.Fired.{Reachable-IsKept}

rules-apart :
    (m : Map String ℕ) (t : Timeout) (ts : List Timeout)
    → Map.get t.rule_id m ≡ some t.handle
    → All (λ u. Map.get u.rule_id m ≡ some u.handle) ts
    → All (λ u. t.handle ≢ u.handle) ts
    → All (λ u. t.rule_id ≢ u.rule_id) ts
rules-apart m t [] own k d = tt
rules-apart m t (u ∷ ts) own k d = (
  (λ e.
      let same : some t.handle ≡ some u.handle = sym own ∙ ap (λ r. Map.get r m) e ∙ k.0 in
      d.0 (ground arith)),
  rules-apart m t ts own k.1 d.1,
)

all-apart :
    (m : Map String ℕ) (ts : List Timeout)
    → All (λ u. Map.get u.rule_id m ≡ some u.handle) ts
    → Pairwise (λ t u. t.handle ≢ u.handle) ts
    → Pairwise (λ t u. t.rule_id ≢ u.rule_id) ts
all-apart m [] k d = tt
all-apart m (t ∷ ts) k d = (rules-apart m t ts k.0 k.1 d.0, all-apart m ts k.1 d.1)

none_pending :
    (m : Map String ℕ) (r : String) (ts : List Timeout)
    → Map.get r m ≡ none
    → All (λ u. Map.get u.rule_id m ≡ some u.handle) ts
    → All (λ u. u.rule_id ≢ r) ts
none_pending m r [] e k = tt
none_pending m r (u ∷ ts) e k = (
  (λ same.
      let both : some u.handle ≡ none = sym k.0 ∙ ap (λ q. Map.get q m) same ∙ e in ground arith),
  none_pending m r ts e k.1,
)

not_armed :
    (r : String) (h : ℕ) (ts : List Timeout) → All (λ u. u.rule_id ≢ r) ts → is_armed r h ts ≡ false
not_armed r h [] k = refl
not_armed r h (u ∷ ts) k =
    let apart = k.0 in ground (arith, ==_iff u.rule_id r, not_armed r h ts k.1)

-- After any calls and due timeouts, in any order, and whatever a callback's `emit` starts and
-- stops: no two pending timeouts are of one rule; and a rule has a pending timeout exactly when
-- the scheduler holds a timer for it.
pub scheduler-one_each :
    {s : IntervalScheduler}
    → Reachable s
    → Pairwise (λ t u. t.rule_id ≢ u.rule_id) s.armed
      × ((r : String) → (Map.get r s.timers ≡ none) ↔ All (λ t. t.rule_id ≢ r) s.armed)
scheduler-one_each {s} reach =
    let k = Reachable-IsKept reach in
    (
      all-apart s.timers s.armed k.stored k.distinct,
      λ r. (
        λ e. none_pending s.timers r s.armed e k.stored,
        λ absent. elim (Option-cases (Map.get r s.timers)) [
          | inl e ↦ e
          | inr (h, e) ↦
              let there = k.pending r h e in
              let not_there = not_armed r h s.armed absent in absurd (ground arith)
        ],
      ),
    )
