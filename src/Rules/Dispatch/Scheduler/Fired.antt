-- ===== src/Rules/Dispatch/Scheduler/Fired.antt =====
-- What the scheduler keeps through a due timeout.
use lametrader.Prelude.{
  ℕ, ◌≡◌, ◌≢◌, sym, ap, ◌∙◌, inl, inr, true, false, not, String, Option, none, some, List, [], ◌∷◌,
  All, In, ◌==◌, ==_iff, ==_refl, number_keyed, text_keyed, Bool-cases, Option-cases, arith,
}
use lametrader.Prelude.Map
use lametrader.Prelude.Map.{Map, get-set, get-delete}
use lametrader.Prelude.Timed.{All-filter, Pairwise-filter}
use lametrader.Rules.Dispatch.Scheduler.{
  Timeout, IntervalScheduler, start_timer, clear_timeout, stop_timer, is_handle, rearm_timer,
  TimerCall, started, stopped, run_call, run_calls, fire_timeout, SchedulerStep, called, fired,
  Reachable, begins, steps,
}
use lametrader.Rules.Dispatch.Scheduler.Kept.{
  IsKept, schedule_next-IsKept, is_armed-clear, stored-without, cleared, stop-IsKept,
}

pub run_call-IsKept :
    (running : Option Timeout) (c : TimerCall) (s : IntervalScheduler)
    → IsKept running s
    → IsKept running (run_call c s)
unfolding run_call
run_call-IsKept running (started r ms) s k = elim (Option-cases (Map.get r s.timers)) [
  | inl e ↦ rw (e, start_timer) (schedule_next-IsKept running r ms s k e)
  | inr (h, e) ↦ rw (e, start_timer) k
]
run_call-IsKept running (stopped r) s k = elim (Option-cases (Map.get r s.timers)) [
  | inl e ↦ rw (e, stop_timer) k
  | inr (h, e) ↦ rw (e, stop_timer) (stop-IsKept running r s h e k)
]

pub run_calls-IsKept :
    (running : Option Timeout) (calls : List TimerCall) (s : IntervalScheduler)
    → IsKept running s
    → IsKept running (run_calls calls s)
unfolding run_calls
run_calls-IsKept running [] s k = k
run_calls-IsKept running (c ∷ calls) s k =
    run_calls-IsKept running calls (run_call c s) (run_call-IsKept running c s k)

pub others-apart :
    (h : ℕ) (ts : List Timeout) → All (λ u. h ≢ u.handle) ts → All (λ t. t.handle ≢ h) ts
others-apart h [] k = tt
others-apart h (t ∷ ts) k = ((λ e. k.0 (sym e)), others-apart h ts k.1)

-- The callback that is still the rule's gives the rule's place up, to take it again.
pub released-IsKept :
    (t : Timeout) (s : IntervalScheduler)
    → Map.get t.rule_id s.timers ≡ some t.handle
    → IsKept (some t) s
    → IsKept none (record s { timers = Map.delete t.rule_id s.timers })
released-IsKept t s own kept = record {
  stored =
      stored-without t.rule_id s t.handle own s.armed kept.stored
        (others-apart t.handle s.armed kept.callback.1);
  distinct = kept.distinct;
  used = kept.used;
  given = λ q h' e.
      let at = get-delete t.rule_id q s.timers in let old = kept.given q h' in ground arith;
  single = λ q q' h' e e'.
      let at = get-delete t.rule_id q s.timers in
      let at' = get-delete t.rule_id q' s.timers in let old = kept.single q q' h' in ground arith;
  pending = λ q h' e.
      let at = get-delete t.rule_id q s.timers in
      let old = kept.pending q h' in
      let same = kept.callback.2 q in ground (arith, ==_iff t.rule_id q, ==_iff t.handle h');
  callback = tt;
}

-- The callback's handle stands for no rule, where it is no longer its own rule's.
pub not_own :
    (t : Timeout) (s : IntervalScheduler)
    → IsKept (some t) s
    → is_handle (Map.get t.rule_id s.timers) t.handle ≡ false
    → (q : String) (h : ℕ) → Map.get q s.timers ≡ some h
    → t.handle ≢ h
not_own t s kept e q h at same =
    let is : q ≡ t.rule_id = kept.callback.2 q (at ∙ ap some (sym same)) in
    let got : Map.get t.rule_id s.timers ≡ some t.handle =
      ap (λ r. Map.get r s.timers) (sym is) ∙ at ∙ ap some (sym same) in
    ground (arith, ==_refl t.handle)

pub rearm_timer-IsKept :
    (t : Timeout) (s : IntervalScheduler) → IsKept (some t) s → IsKept none (rearm_timer t s)
unfolding rearm_timer
rearm_timer-IsKept t s kept = elim (Bool-cases (is_handle (Map.get t.rule_id s.timers) t.handle)) [
  | inl e ↦
      let own : Map.get t.rule_id s.timers ≡ some t.handle =
        ground (arith, is_handle_iff (Map.get t.rule_id s.timers) t.handle) in
      let gone : Map.get t.rule_id (Map.delete t.rule_id s.timers) ≡ none =
        (let at = get-delete t.rule_id t.rule_id s.timers in ground (arith, ==_refl t.rule_id)) in
      rw e (schedule_next-IsKept none t.rule_id t.interval_ms _ (released-IsKept t s own kept) gone)
  | inr e ↦
      let mine = not_own t s kept e in
      rw e record {
        stored = kept.stored;
        distinct = kept.distinct;
        used = kept.used;
        given = kept.given;
        single = kept.single;
        pending = λ q h' q_has.
            let old = kept.pending q h' q_has in
            ground (arith, ==_iff t.handle h', mine q h' q_has);
        callback = tt;
      }
]
  where
    is_handle_iff : (o : Option ℕ) (h : ℕ) → is_handle o h ≡ true → o ≡ some h
    is_handle_iff none h e = cc
    is_handle_iff (some j) h e = ap some ((==_iff j h).0 e)

pub stored-In :
    (t : Timeout) (m : Map String ℕ) (ts : List Timeout)
    → All (λ u. Map.get u.rule_id m ≡ some u.handle) ts
    → In t ts
    → Map.get t.rule_id m ≡ some t.handle
stored-In t m [] k i = absurd i
stored-In t m (u ∷ ts) k (inl e) = rw e k.0
stored-In t m (u ∷ ts) k (inr i) = stored-In t m ts k.1 i

pub cleared-apart : (h : ℕ) (ts : List Timeout) → All (λ u. h ≢ u.handle) (clear_timeout h ts)
cleared-apart h ts = turned (clear_timeout h ts) (cleared h ts)
  where
    turned : (us : List Timeout) → All (λ u. u.handle ≢ h) us → All (λ u. h ≢ u.handle) us
    turned [] k = tt
    turned (u ∷ us) k = ((λ e. k.0 (sym e)), turned us k.1)

-- A due timeout is taken from the pending ones, and its callback runs.
pub due-IsKept :
    (t : Timeout) (s : IntervalScheduler)
    → IsKept none s
    → Map.get t.rule_id s.timers ≡ some t.handle
    → IsKept (some t) (record s { armed = clear_timeout t.handle s.armed })
due-IsKept t s kept own = record {
  stored =
      unfold clear_timeout in All-filter _ (λ u. not (u.handle == t.handle)) s.armed kept.stored;
  distinct = unfold clear_timeout in Pairwise-filter _ _ s.armed kept.distinct;
  used = unfold clear_timeout in All-filter _ (λ u. not (u.handle == t.handle)) s.armed kept.used;
  given = kept.given;
  single = kept.single;
  pending = λ q h e.
      let old = kept.pending q h e in
      let still = λ (n : h ≢ t.handle). is_armed-clear q h t.handle s.armed n in
      elim (Bool-cases (t.handle == h)) [
        | inl x ↦ ground arith
        | inr x ↦
            let n : h ≢ t.handle = λ y. ground (arith, ==_iff t.handle h) in
            let there = still n (ground arith) in ground arith
      ];
  callback = (
    kept.given t.rule_id t.handle own,
    cleared-apart t.handle s.armed,
    λ q e. kept.single q t.rule_id t.handle e own,
  );
}

pub step-IsKept : {s s' : IntervalScheduler} → SchedulerStep s s' → IsKept none s → IsKept none s'
unfolding fire_timeout
step-IsKept {s} (called c) k = run_call-IsKept none c s k
step-IsKept {s} (fired t during i) k = rearm_timer-IsKept t _ (
    run_calls-IsKept (some t) during _ (due-IsKept t s k (stored-In t s.timers s.armed k.stored i)))

pub Reachable-IsKept : {s : IntervalScheduler} → Reachable s → IsKept none s
Reachable-IsKept begins = record {
  stored = tt;
  distinct = tt;
  used = tt;
  given = λ r h e. unfold Map.get in absurd (ground arith);
  single = λ r r' h e e'. unfold Map.get in absurd (ground arith);
  pending = λ r h e. unfold Map.get in absurd (ground arith);
  callback = tt;
}
Reachable-IsKept (steps r st) = step-IsKept st (Reachable-IsKept r)
