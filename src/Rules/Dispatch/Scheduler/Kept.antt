-- ===== src/Rules/Dispatch/Scheduler/Kept.antt =====
-- What the scheduler keeps through a start and a stop.
use lametrader.Prelude.{
  ℕ, ◌+◌, ◌<◌, ◌≡◌, ◌≢◌, inl, inr, Bool, true, false, not, ◌&&◌, ◌||◌, String, Option, none, some,
  List, [], ◌∷◌, any, All, if◌then◌else◌, ◌==◌, ==_iff, ==_refl, number_keyed, text_keyed,
  Bool-cases, arith,
}
use lametrader.Prelude.Map
use lametrader.Prelude.Map.{Map, get-set, get-delete}
use lametrader.Prelude.Sort.{Pairwise}
use lametrader.Prelude.Timed.{All-filter, Pairwise-filter}
use lametrader.Rules.Dispatch.Scheduler.{Timeout, IntervalScheduler, schedule_next, clear_timeout}

-- A pending timeout of a rule with a handle.
abbrev pub is_armed : String → ℕ → List Timeout → Bool
is_armed rule_id handle = any (λ t. t.rule_id == rule_id && t.handle == handle)

-- What is known of a timeout whose callback is running: its handle was used, is not pending, and
-- stands for no rule but its own.
abbrev pub IsRunning : Option Timeout → IntervalScheduler → Type 0
IsRunning none s = Unit
IsRunning (some t) s =
    (t.handle < s.next_handle)
    × All (λ u. t.handle ≢ u.handle) s.armed
    × ((r : String) → Map.get r s.timers ≡ some t.handle → r ≡ t.rule_id)

abbrev pub runs : Option Timeout → ℕ → Bool
runs none h = false
runs (some t) h = t.handle == h

-- The bookkeeping, while the callback of a timeout may be running.
pub record IsKept (running : Option Timeout) (s : IntervalScheduler) : Type 0 where
  pub stored : All (λ t. Map.get t.rule_id s.timers ≡ some t.handle) s.armed
  pub distinct : Pairwise (λ t u. t.handle ≢ u.handle) s.armed
  pub used : All (λ t. t.handle < s.next_handle) s.armed
  pub given : (r : String) (h : ℕ) → Map.get r s.timers ≡ some h → h < s.next_handle
  pub single :
      (r r' : String) (h : ℕ) → Map.get r s.timers ≡ some h → Map.get r' s.timers ≡ some h → r ≡ r'
  pub pending :
      (r : String) (h : ℕ)
      → Map.get r s.timers ≡ some h
      → (is_armed r h s.armed || runs running h) ≡ true
  pub callback : IsRunning running s

pub get_put :
    (r r' : String) (h : ℕ) (m : Map String ℕ)
    → Map.get r' (Map.set r h m) ≡ (if r == r' then some h else Map.get r' m)
get_put r r' h m = get-set r r' h m

module _ (running : Option Timeout) (r : String) (ms : ℕ) (s : IntervalScheduler)
    (kept : IsKept running s) (free : Map.get r s.timers ≡ none) where
  pub stored-other :
      (ts : List Timeout)
      → All (λ t. Map.get t.rule_id s.timers ≡ some t.handle) ts
      → All (λ t. Map.get t.rule_id (Map.set r s.next_handle s.timers) ≡ some t.handle) ts
  stored-other [] h = tt
  stored-other (t ∷ ts) h = (
    (let at = get_put r t.rule_id s.next_handle s.timers in
        ground (arith, ==_iff r t.rule_id, h.0)),
    stored-other ts h.1,
  )

  pub fresh :
      (ts : List Timeout)
      → All (λ t. t.handle < s.next_handle) ts
      → All (λ t. s.next_handle ≢ t.handle) ts
  fresh [] h = tt
  fresh (t ∷ ts) h = (λ e. omega arith, fresh ts h.1)

  pub grown :
      (ts : List Timeout)
      → All (λ t. t.handle < s.next_handle) ts
      → All (λ t. t.handle < s.next_handle + 1) ts
  grown [] h = tt
  grown (t ∷ ts) h = (omega arith, grown ts h.1)

  pub IsRunning-later :
      (run : Option Timeout) → IsRunning run s → IsRunning run (schedule_next r ms s)
  unfolding schedule_next
  IsRunning-later none k = tt
  IsRunning-later (some t) k = (
    (let low = k.0 in omega arith),
    ((λ e. let low = k.0 in omega arith), k.1),
    λ q e.
        let at = get_put r q s.next_handle s.timers in
        let low = k.0 in let old = k.2 q in ground arith,
  )

  pub schedule_next-IsKept : IsKept running (schedule_next r ms s)
  unfolding schedule_next
  schedule_next-IsKept = record {
    stored = (
      (let at = get_put r r s.next_handle s.timers in ground (arith, ==_refl r)),
      stored-other s.armed kept.stored,
    );
    distinct = (fresh s.armed kept.used, kept.distinct);
    used = (omega arith, grown s.armed kept.used);
    given = λ q h e.
        let at = get_put r q s.next_handle s.timers in let old = kept.given q h in ground arith;
    single = λ q q' h e e'.
        let at = get_put r q s.next_handle s.timers in
        let at' = get_put r q' s.next_handle s.timers in
        let low = kept.given q h in
        let low' = kept.given q' h in
        let same = kept.single q q' h in ground (arith, ==_iff r q, ==_iff r q');
    pending = λ q h e.
        let at = get_put r q s.next_handle s.timers in
        let old = kept.pending q h in ground (arith, ==_iff s.next_handle h);
    callback = IsRunning-later running kept.callback;
  }

pub is_armed-clear :
    (r : String) (h h' : ℕ) (ts : List Timeout)
    → h ≢ h'
    → is_armed r h ts ≡ true
    → is_armed r h (clear_timeout h' ts) ≡ true
unfolding clear_timeout
is_armed-clear r h h' [] n e = e
is_armed-clear r h h' (t ∷ ts) n e =
    ground (arith, ==_iff t.handle h, ==_iff t.handle h', is_armed-clear r h h' ts n)

module _ (r : String) (s : IntervalScheduler) (h : ℕ) (own : Map.get r s.timers ≡ some h) where
  -- Without the rule, its timeout aside.
  pub stored-without :
      (ts : List Timeout)
      → All (λ t. Map.get t.rule_id s.timers ≡ some t.handle) ts
      → All (λ t. t.handle ≢ h) ts
      → All (λ t. Map.get t.rule_id (Map.delete r s.timers) ≡ some t.handle) ts
  stored-without [] k n = tt
  stored-without (t ∷ ts) k n = (
    (let at = get-delete r t.rule_id s.timers in
        let apart = n.0 in ground (arith, ==_iff r t.rule_id, k.0)),
    stored-without ts k.1 n.1,
  )

pub cleared : (h : ℕ) (ts : List Timeout) → All (λ t. t.handle ≢ h) (clear_timeout h ts)
unfolding clear_timeout
cleared h [] = tt
cleared h (t ∷ ts) = elim (Bool-cases (t.handle == h)) [
  | inl e ↦ rw e (cleared h ts)
  | inr e ↦ rw e ((λ q. cc ((==_iff t.handle h).1 q)), cleared h ts)
]

module _ (running : Option Timeout) (r : String) (s : IntervalScheduler) (h : ℕ)
    (own : Map.get r s.timers ≡ some h) (kept : IsKept running s) where
  pub IsRunning-without :
      (run : Option Timeout)
      → IsRunning run s
      → IsRunning run (record s { timers = Map.delete r s.timers; armed = clear_timeout h s.armed })
  unfolding clear_timeout
  IsRunning-without none k = tt
  IsRunning-without (some t) k = (
    k.0,
    All-filter (λ u. t.handle ≢ u.handle) (λ u. not (u.handle == h)) s.armed k.1,
    λ q e. let at = get-delete r q s.timers in let old = k.2 q in ground arith,
  )

  pub stop-IsKept :
      IsKept running (record s { timers = Map.delete r s.timers; armed = clear_timeout h s.armed })
  stop-IsKept = record {
    stored =
        stored-without r s h own (clear_timeout h s.armed)
          (unfold clear_timeout in All-filter _ (λ u. not (u.handle == h)) s.armed kept.stored)
          (cleared h s.armed);
    distinct = unfold clear_timeout in Pairwise-filter _ _ s.armed kept.distinct;
    used = unfold clear_timeout in All-filter _ (λ u. not (u.handle == h)) s.armed kept.used;
    given = λ q h' e. let at = get-delete r q s.timers in let old = kept.given q h' in ground arith;
    single = λ q q' h' e e'.
        let at = get-delete r q s.timers in
        let at' = get-delete r q' s.timers in let old = kept.single q q' h' in ground arith;
    pending = λ q h' e.
        let at = get-delete r q s.timers in
        let old = kept.pending q h' in
        let same = kept.single q r h' in
        let apart : h' ≢ h = λ x. ground (arith, ==_iff r q) in
        let still = is_armed-clear q h' h s.armed apart in ground arith;
    callback = IsRunning-without running kept.callback;
  }
