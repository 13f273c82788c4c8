-- ===== src/Rules/Orchestrator/Serializer/Drains.antt =====
-- How the chains run empty, where every running job settles.
use lametrader.Prelude.{
  ℕ, suc, ◌+◌, ◌*◌, ◌<◌, ◌≤◌, ◌≡◌, ltb, refl, ◌⊎◌, inl, inr, Bool, true, false, ◌||◌, Option, none,
  some, List, [], ◌∷◌, All, length, ◌==◌, ==_refl, ==_iff, Keyed, number_keyed, Bool-cases, arith,
}
use lametrader.Rules.Orchestrator.Serializer.{
  JobStatus, waiting, running, settled, Job, Serializer, has_settled, is_ready, may_run, run_job,
  settle_job, clean_chain, Turn, ran, ended, cleaned, Reachable, turns,
}
use lametrader.Rules.Orchestrator.Serializer.InTurn.{
  newest, newest-lt, Covers, IsLined, Reachable-IsServed,
}

-- How many turns a job has left.
abbrev turns_left : JobStatus → ℕ
turns_left waiting = 2
turns_left running = 1
turns_left settled = 0

module _ {E : Type 0} where
  abbrev pub all_left : List (Job E) → ℕ
  all_left [] = 0
  all_left (j ∷ jobs) = turns_left j.status + all_left jobs

  abbrev is_there : ℕ → List (Job E) → Bool
  is_there id [] = false
  is_there id (j ∷ jobs) = j.id == id || is_there id jobs

  is_there-lt :
      (id top : ℕ) (jobs : List (Job E))
      → is_there id jobs ≡ true
      → All (λ u. u.id < top) jobs
      → id < top
  is_there-lt id top [] h a = absurd (ground arith)
  is_there-lt id top (j ∷ jobs) h a = ground (arith, is_there-lt id top jobs)

  -- A running job of a number.
  pub data RunsAt (id : ℕ) : List (Job E) → Type 0 where
    runs_here :
        {j : Job E} {jobs : List (Job E)} → j.id ≡ id → j.status ≡ running → RunsAt id (j ∷ jobs)
    runs_later : {j : Job E} {jobs : List (Job E)} → RunsAt id jobs → RunsAt id (j ∷ jobs)

  -- A job that can take a turn.
  record CanTurn (jobs : List (Job E)) : Type 0 where
    id : ℕ
    turn : ((may_run id jobs ≡ true) × (is_there id jobs ≡ true)) ⊎ RunsAt id jobs

  run_job-left : (id : ℕ) (jobs : List (Job E)) → all_left (run_job id jobs) ≤ all_left jobs
  unfolding run_job
  run_job-left id [] = omega arith
  run_job-left id (j ∷ jobs) = ground (arith, run_job-left id jobs)

  settle_job-left : (id : ℕ) (jobs : List (Job E)) → all_left (settle_job id jobs) ≤ all_left jobs
  unfolding settle_job
  settle_job-left id [] = omega arith
  settle_job-left id (j ∷ jobs) = ground (arith, settle_job-left id jobs)

  run_job-falls :
      (id : ℕ) (jobs : List (Job E))
      → may_run id jobs ≡ true
      → all_left (run_job id jobs) < all_left jobs
  unfolding may_run run_job
  run_job-falls id [] h = absurd (ground arith)
  run_job-falls id (j ∷ jobs) h = elim (Bool-cases (j.id == id)) [
    | inl e ↦ ground (arith, run_job-left id jobs)
    | inr e ↦ ground (arith, run_job-falls id jobs)
  ]

  settle_job-falls :
      (id : ℕ) {jobs : List (Job E)}
      → RunsAt id jobs
      → all_left (settle_job id jobs) < all_left jobs
  unfolding settle_job
  settle_job-falls id (runs_here {j} {jobs} same e) =
      let own = (==_iff j.id id).1 same in ground (arith, settle_job-left id jobs)
  settle_job-falls id (runs_later r) = ground (arith, settle_job-falls id r)

  over-newer :
      (j : Job E) (jobs : List (Job E))
      → All (λ u. u.id < j.id) jobs
      → CanTurn jobs
      → CanTurn (j ∷ jobs)
  unfolding may_run
  over-newer j jobs a c = record {
    id = c.id;
    turn = elim c.turn [
      | inl (m, t) ↦ let low = is_there-lt c.id j.id jobs t a in inl (ground arith, ground arith)
      | inr r ↦ inr (runs_later r)
    ];
  }

module _ {K E : Type 0} ⦃keyed : Keyed K⦄ (key_of : E → K) where
  newest-done :
      (k : K) (id : ℕ) (jobs : List (Job E))
      → IsLined key_of jobs
      → all_left jobs ≡ 0
      → newest key_of k jobs ≡ some id
      → has_settled id jobs ≡ true
  unfolding newest has_settled
  newest-done k id [] l z n = ground arith
  newest-done k id (j ∷ jobs) l z n = elim (Bool-cases (key_of j.event == k)) [
    | inl e ↦ ground (arith, ==_refl j.id)
    | inr e ↦
        let older : newest key_of k jobs ≡ some id = ground arith in
        let low = newest-lt key_of k id j.id jobs older l.2 in
        ground (arith, newest-done k id jobs l.3)
  ]

  ready-done :
      (j : Job E) (jobs : List (Job E))
      → IsLined key_of (j ∷ jobs)
      → all_left jobs ≡ 0
      → is_ready j.after jobs ≡ true
  ready-done j jobs l z = by_after j.after l.0
    where
      by_after :
          (after : Option ℕ)
          → Covers key_of (key_of j.event) after jobs
          → is_ready after jobs ≡ true
      by_after none c = refl
      by_after (some id) c = newest-done (key_of j.event) id jobs l.3 z c

  -- The newest job takes a turn, where all others are done.
  newest-turns :
      (j : Job E) (jobs : List (Job E))
      → IsLined key_of (j ∷ jobs)
      → all_left jobs ≡ 0
      → 0 < all_left (j ∷ jobs)
      → CanTurn (j ∷ jobs)
  unfolding may_run
  newest-turns j jobs l z h = by_status j.status refl
    where
      by_status : (status : JobStatus) → j.status ≡ status → CanTurn (j ∷ jobs)
      by_status waiting e =
          let ready = ready-done j jobs l z in
          let own = ==_refl j.id in record { id = j.id; turn = inl (ground arith, ground arith) }
      by_status running e = record { id = j.id; turn = inr (runs_here refl e) }
      by_status settled e = absurd (ground arith)

  can_turn : (jobs : List (Job E)) → IsLined key_of jobs → 0 < all_left jobs → CanTurn jobs
  can_turn [] l h = absurd (omega arith)
  can_turn (j ∷ jobs) l h = elim (Bool-cases (ltb 0 (all_left jobs))) [
    | inl e ↦ over-newer j jobs l.2 (can_turn jobs l.3 (ground arith))
    | inr e ↦ newest-turns j jobs l (ground arith) h
  ]

  none_left : (status : JobStatus) → turns_left status ≡ 0 → status ≡ settled
  none_left waiting h = absurd (omega arith)
  none_left running h = absurd (omega arith)
  none_left settled h = refl

  all_done : (jobs : List (Job E)) → all_left jobs ≡ 0 → All (λ j. j.status ≡ settled) jobs
  all_done [] h = tt
  all_done (j ∷ jobs) h = (none_left j.status (omega arith), all_done jobs (omega arith))

  all_left-bound : (jobs : List (Job E)) → all_left jobs ≤ 2 * length jobs
  all_left-bound [] = omega arith
  all_left-bound (j ∷ jobs) = by_status j.status (all_left-bound jobs)
    where
      by_status :
          (status : JobStatus)
          → all_left jobs ≤ 2 * length jobs
          → turns_left status + all_left jobs ≤ 2 * suc (length jobs)
      by_status waiting h = omega arith
      by_status running h = omega arith
      by_status settled h = omega arith

  -- A turn of a job: a waiting job that may run starts, or a running one settles.
  pub data Works (s : Serializer K E) : Serializer K E → Type 0 where
    starts : (id : ℕ) → may_run id s.jobs ≡ true → Works s (record s { jobs = run_job id s.jobs })
    settles : (id : ℕ) → RunsAt id s.jobs → Works s (record s { jobs = settle_job id s.jobs })

  -- So many turns of jobs in a row, without a new event, with any `finally` between them.
  pub data Run : ℕ → Serializer K E → Serializer K E → Type 0 where
    rests : {s : Serializer K E} → Run 0 s s
    works : {n : ℕ} {s s' s'' : Serializer K E} → Works s s' → Run n s' s'' → Run (suc n) s s''
    tidies :
        {n : ℕ} {s s' : Serializer K E} (key : K) (id : ℕ)
        → has_settled id s.jobs ≡ true
        → Run n (clean_chain key_of key id s) s'
        → Run n s s'

  Works-Turn : {s s' : Serializer K E} → Works s s' → Turn key_of s s'
  Works-Turn (starts id m) = ran id m
  Works-Turn (settles id r) = ended id

  Works-falls : {s s' : Serializer K E} → Works s s' → all_left s'.jobs < all_left s.jobs
  Works-falls (starts id m) = run_job-falls id _ m
  Works-falls (settles id r) = settle_job-falls id r

  clean_chain-jobs :
      (key : K) (id : ℕ) (s : Serializer K E) → (clean_chain key_of key id s).jobs ≡ s.jobs
  unfolding clean_chain
  clean_chain-jobs key id s = ground arith

  Run-falls : {n : ℕ} {s s' : Serializer K E} → Run n s s' → n + all_left s'.jobs ≤ all_left s.jobs
  Run-falls rests = omega arith
  Run-falls (works w r) = omega (arith, Works-falls w, Run-falls r)
  Run-falls (tidies {s} key id h r) =
      let rest = Run-falls r in rw (clean_chain-jobs key id s) at rest

  Run-Reachable :
      {n : ℕ} {s s' : Serializer K E} → Reachable key_of s → Run n s s' → Reachable key_of s'
  Run-Reachable h rests = h
  Run-Reachable h (works w r) = Run-Reachable (turns h (Works-Turn w)) r
  Run-Reachable h (tidies key id e r) = Run-Reachable (turns h (cleaned key id e)) r

  can_work : {s : Serializer K E} → CanTurn s.jobs → (s' : Serializer K E) × Works s s'
  can_work c = elim c.turn [ inl (m, t) ↦ (_, starts c.id m) | inr r ↦ (_, settles c.id r) ]

  -- From a state that the serializer reaches, without new events, at most two turns for each job
  -- follow, its start and its settling, in whatever order they come and with any `finally` between
  -- them; and wherever such turns have led, every job has settled or a further turn is possible.
  -- That a running job settles at some time is not stated.
  pub serializer-drains :
      {s : Serializer K E}
      → Reachable key_of s
      → (n : ℕ) (s' : Serializer K E) → Run n s s'
      → (n ≤ 2 * length s.jobs)
        × (All (λ j. j.status ≡ settled) s'.jobs ⊎ ((s'' : Serializer K E) × Works s' s''))
  serializer-drains {s} h n s' r = (
    omega (arith, Run-falls r, all_left-bound s.jobs),
    elim (Bool-cases (ltb 0 (all_left s'.jobs))) [
      | inr e ↦ inl (all_done s'.jobs (ground arith))
      | inl e ↦ inr (
          can_work
            (can_turn s'.jobs (Reachable-IsServed key_of (Run-Reachable h r)).lined (ground arith)))
    ],
  )
