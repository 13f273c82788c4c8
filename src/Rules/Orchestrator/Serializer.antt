-- ===== src/Rules/Orchestrator/Serializer.antt =====
-- The chains of events, one for each symbol
-- (packages/backend/src/analytics/rules/orchestrator/per-symbol-serializer.ts). A promise of a
-- chain is a job with a number; a key is the event's symbol id, or its absence.
pub mod InTurn
pub mod Drains
use lametrader.Prelude.{
  ℕ, ◌+◌, ◌≡◌, Bool, true, false, ◌&&◌, Option, none, some, List, [], ◌∷◌, if◌then◌else◌, ◌==◌,
  Keyed, number_keyed,
}
use lametrader.Prelude.Map
use lametrader.Prelude.Map.{Map}

pub data JobStatus : Type 0 where
  waiting running settled : JobStatus

-- `prev.then(() => process(event))`, whose promise settles also where `process` fails. `after` is
-- `none` where `prev` is the resolved promise.
pub record Job (E : Type 0) : Type 0 where
  pub id : ℕ
  pub event : E
  pub after : Option ℕ
  pub status : JobStatus

-- The last promise of each chain, and all jobs, the newest first.
pub record Serializer (K E : Type 0) : Type 0 where
  pub chains : Map K ℕ
  pub jobs : List (Job E)
  pub next_id : ℕ

abbrev pub is_settled : JobStatus → Bool
is_settled settled = true
is_settled _ = false

abbrev pub is_waiting : JobStatus → Bool
is_waiting waiting = true
is_waiting _ = false

abbrev pub is_running : JobStatus → Bool
is_running running = true
is_running _ = false

abbrev pub is_last : Option ℕ → ℕ → Bool
is_last none id = false
is_last (some last) id = last == id

module _ {E : Type 0} where
  -- Whether a job has settled.
  unfoldable pub has_settled : ℕ → List (Job E) → Bool
  has_settled id [] = false
  has_settled id (j ∷ jobs) =
      let rest = has_settled id jobs in if j.id == id then is_settled j.status else rest

  abbrev pub is_ready : Option ℕ → List (Job E) → Bool
  is_ready none jobs = true
  is_ready (some id) jobs = has_settled id jobs

  -- A waiting job may run once the promise before it, of an older job, has settled.
  unfoldable pub may_run : ℕ → List (Job E) → Bool
  unfolding has_settled
  may_run id [] = false
  may_run id (j ∷ jobs) =
      let rest = may_run id jobs in
      if j.id == id then is_waiting j.status && is_ready j.after jobs else rest

  unfoldable pub run_job : ℕ → List (Job E) → List (Job E)
  run_job id [] = []
  run_job id (j ∷ jobs) =
      (if j.id == id && is_waiting j.status then record j { status = running } else j)
      ∷ run_job id jobs

  unfoldable pub settle_job : ℕ → List (Job E) → List (Job E)
  settle_job id [] = []
  settle_job id (j ∷ jobs) =
      (if j.id == id && is_running j.status then record j { status = settled } else j)
      ∷ settle_job id jobs

module _ {K E : Type 0} ⦃keyed : Keyed K⦄ (key_of : E → K) where
  unfoldable pub enqueue : E → Serializer K E → Serializer K E
  enqueue event s =
      let key = key_of event in
      record {
        chains = Map.set key s.next_id s.chains;
        jobs =
            record { id = s.next_id; event = event; after = Map.get key s.chains; status = waiting }
            ∷ s.jobs;
        next_id = s.next_id + 1;
      }

  -- The `finally` of a promise: its chain goes if it is still the last of it.
  unfoldable pub clean_chain : K → ℕ → Serializer K E → Serializer K E
  clean_chain key id s =
      if is_last (Map.get key s.chains) id then record s { chains = Map.delete key s.chains } else s

  -- What the runtime does on its own: a job whose turn it is runs, a running one settles, and the
  -- `finally` of a settled one.
  pub data Turn (s : Serializer K E) : Serializer K E → Type 0 where
    ran : (id : ℕ) → may_run id s.jobs ≡ true → Turn s (record s { jobs = run_job id s.jobs })
    ended : (id : ℕ) → Turn s (record s { jobs = settle_job id s.jobs })
    cleaned : (key : K) (id : ℕ) → has_settled id s.jobs ≡ true → Turn s (clean_chain key id s)

  abbrev pub no_chains : Serializer K E
  no_chains = record { chains = []; jobs = []; next_id = 0 }

  pub data Reachable : Serializer K E → Type 0 where
    begins : Reachable no_chains
    queued : {s : Serializer K E} (event : E) → Reachable s → Reachable (enqueue event s)
    turns : {s s' : Serializer K E} → Reachable s → Turn s s' → Reachable s'
