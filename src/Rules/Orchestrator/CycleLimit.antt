-- ===== src/Rules/Orchestrator/CycleLimit.antt =====
-- What the cycle limit bounds.
use lametrader.Prelude.{
  ℕ, zero, suc, ◌+◌, ◌*◌, ◌≤◌, ◌<◌, ◌≡◌, refl, ◌∙◌, Option, some, List, [], ◌∷◌, ◌++◌, All,
  All-append, arith,
}
use lametrader.Rules.Event.{EvaluationTriggerEvent}
use lametrader.Rules.Orchestrator.{
  OrchestratorDeps, CycleGuard, enter, Queued, admit, queue_cascaded, process_one_event,
  record_cycle_overflow, drain, process,
}

module _ {N S : Type 0} (deps : OrchestratorDeps N S) where
  abbrev IsCascaded : Queued N → Type 0
  IsCascaded next = 0 < next.cascade_depth

  queue_cascaded-IsCascaded :
      (depth : ℕ) (events : List (EvaluationTriggerEvent N))
      → All IsCascaded (queue_cascaded deps (depth + 1) events)
  queue_cascaded-IsCascaded depth [] = tt
  queue_cascaded-IsCascaded depth (event ∷ events) =
      (omega arith, queue_cascaded-IsCascaded depth events)

  admit-cascaded :
      (guard : CycleGuard) (next : Queued N) → IsCascaded next → admit deps guard next ≡ enter guard
  unfolding admit
  admit-cascaded guard next h = ground arith

  module _ (cost : S → ℕ) (per_event per_overflow : ℕ)
      (event_cost : (event : EvaluationTriggerEvent N) (s : S)
        → cost (deps.take_cascaded (process_one_event deps event s)).1 ≤ cost s + per_event)
      (overflow_cost : (event : EvaluationTriggerEvent N) (limit : ℕ) (s : S)
        → cost (record_cycle_overflow deps event limit s) ≤ cost s + per_overflow) where
    -- The loop ends, at the cost of at most so many more events and one overflow.
    abbrev Ends : ℕ → S → Option S → Type 0
    Ends events s result =
        (r : S) × (result ≡ some r) × (cost r ≤ cost s + (events * per_event + per_overflow))

    drain-Ends :
        (k : ℕ) (guard : CycleGuard) (queue : List (Queued N)) (s : S)
        → All IsCascaded queue
        → guard.limit ≡ guard.count + k
        → Ends k s (drain deps (suc k) guard queue s)
    unfolding drain enter
    drain-Ends k guard [] s h e = (s, refl, omega arith)
    drain-Ends zero guard (next ∷ queue) s h e =
        let q = admit-cascaded guard next h.0 in
        (
          record_cycle_overflow deps next.event guard.limit s,
          ground arith,
          (let charge = overflow_cost next.event guard.limit s in omega arith),
        )
    drain-Ends (suc k) guard (next ∷ queue) s h e =
        let q = admit-cascaded guard next h.0 in
        let (cascaded, s') = deps.take_cascaded (process_one_event deps next.event s) in
        let (r, is, bound) =
          drain-Ends k (record guard { count = guard.count + 1 })
            (queue ++ queue_cascaded deps (next.cascade_depth + 1) cascaded) s'
            (All-append IsCascaded queue _ h.1
              (queue_cascaded-IsCascaded next.cascade_depth cascaded))
            (omega arith) in
        (r, ground arith, let charge = event_cost next.event s in omega arith)

    process-initial :
        (cycle_limit : ℕ) (initial : EvaluationTriggerEvent N) (s : S)
        → let (cascaded, s') = deps.take_cascaded (process_one_event deps initial s) in
          process deps cycle_limit initial s
          ≡ drain deps
              (suc cycle_limit)
              (record { count = 0; limit = cycle_limit })
              (queue_cascaded deps 1 cascaded)
              s'
    unfolding process drain admit
    process-initial cycle_limit initial s = refl

    -- A tick always ends, whatever its cascades. When processing an event raises a cost by at most
    -- `per_event`, and recording an overflow raises it by at most `per_overflow`, a tick raises it by
    -- at most `cycle_limit + 1` events and one overflow.
    pub process_ends :
        (cycle_limit : ℕ) (initial : EvaluationTriggerEvent N) (s : S)
        → (r : S) × (process deps cycle_limit initial s ≡ some r)
          × (cost r ≤ cost s + ((cycle_limit + 1) * per_event + per_overflow))
    process_ends cycle_limit initial s =
        let (cascaded, s') = deps.take_cascaded (process_one_event deps initial s) in
        let (r, is, bound) =
          drain-Ends cycle_limit (record { count = 0; limit = cycle_limit })
            (queue_cascaded deps 1 cascaded) s' (queue_cascaded-IsCascaded 0 cascaded)
            (omega arith) in
        let charge = event_cost initial s in
        (r, process-initial cycle_limit initial s ∙ is, omega arith)
