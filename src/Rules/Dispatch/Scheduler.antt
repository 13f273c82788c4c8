-- ===== src/Rules/Dispatch/Scheduler.antt =====
-- The timers of `OncePerInterval` rules
-- (packages/backend/src/analytics/rules/dispatch/interval-scheduler.ts). The runtime's pending
-- timeouts are part of the state, and a handle is a number that is used once.
pub mod Kept
pub mod Fired
pub mod Timers
use lametrader.Prelude.{
  ℕ, ◌+◌, ◌≡◌, Bool, true, false, not, String, Option, none, some, List, [], ◌∷◌, filter, In,
  if◌then◌else◌, ◌==◌, number_keyed, text_keyed,
}
use lametrader.Prelude.Map
use lametrader.Prelude.Map.{Map}

-- A pending `setTimeout`, with what its callback has captured.
pub record Timeout : Type 0 where
  pub handle : ℕ
  pub rule_id : String
  pub interval_ms : ℕ

pub record IntervalScheduler : Type 0 where
  pub timers : Map String ℕ
  pub armed : List Timeout
  pub next_handle : ℕ

unfoldable pub schedule_next : String → ℕ → IntervalScheduler → IntervalScheduler
schedule_next rule_id interval_ms s = record {
  timers = Map.set rule_id s.next_handle s.timers;
  armed = record { handle = s.next_handle; rule_id = rule_id; interval_ms = interval_ms } ∷ s.armed;
  next_handle = s.next_handle + 1;
}

unfoldable pub start_timer : String → ℕ → IntervalScheduler → IntervalScheduler
start_timer rule_id interval_ms s = elim (Map.get rule_id s.timers) [
  | none ↦ schedule_next rule_id interval_ms s
  | some handle ↦ s
]

-- `clearTimeout`, also what the runtime does with a timeout that is due.
unfoldable pub clear_timeout : ℕ → List Timeout → List Timeout
clear_timeout handle = filter (λ t. not (t.handle == handle))

unfoldable pub stop_timer : String → IntervalScheduler → IntervalScheduler
stop_timer rule_id s = elim (Map.get rule_id s.timers) [
  | none ↦ s
  | some handle ↦ record s {
    timers = Map.delete rule_id s.timers;
    armed = clear_timeout handle s.armed;
  }
]

abbrev pub is_handle : Option ℕ → ℕ → Bool
is_handle none handle = false
is_handle (some h) handle = h == handle

-- The end of a callback, after `emit`.
unfoldable pub rearm_timer : Timeout → IntervalScheduler → IntervalScheduler
rearm_timer t s =
    if is_handle (Map.get t.rule_id s.timers) t.handle
    then schedule_next t.rule_id t.interval_ms (record s { timers = Map.delete t.rule_id s.timers })
    else s

-- A call from outside, or from within `emit`.
pub data TimerCall : Type 0 where
  started : String → ℕ → TimerCall
  stopped : String → TimerCall

unfoldable pub run_call : TimerCall → IntervalScheduler → IntervalScheduler
unfolding start_timer stop_timer
run_call (started rule_id interval_ms) s = start_timer rule_id interval_ms s
run_call (stopped rule_id) s = stop_timer rule_id s

unfoldable pub run_calls : List TimerCall → IntervalScheduler → IntervalScheduler
unfolding run_call
run_calls [] s = s
run_calls (c ∷ calls) s = run_calls calls (run_call c s)

-- A due timeout: it is no longer pending, its callback emits, whatever `emit` calls runs, and the
-- callback ends.
unfoldable pub fire_timeout : Timeout → List TimerCall → IntervalScheduler → IntervalScheduler
unfolding run_calls rearm_timer clear_timeout
fire_timeout t during s =
    rearm_timer t (run_calls during (record s { armed = clear_timeout t.handle s.armed }))

abbrev pub no_timers : IntervalScheduler
no_timers = record { timers = []; armed = []; next_handle = 0 }

-- Calls and due timeouts, in any order.
pub data SchedulerStep (s : IntervalScheduler) : IntervalScheduler → Type 0 where
  called : (c : TimerCall) → SchedulerStep s (run_call c s)
  fired :
      (t : Timeout) (during : List TimerCall)
      → In t s.armed
      → SchedulerStep s (fire_timeout t during s)

pub data Reachable : IntervalScheduler → Type 0 where
  begins : Reachable no_timers
  steps : {s s' : IntervalScheduler} → Reachable s → SchedulerStep s s' → Reachable s'
