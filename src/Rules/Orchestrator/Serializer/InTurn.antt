-- ===== src/Rules/Orchestrator/Serializer/InTurn.antt =====
-- The events of a chain are processed one at a time, in the order they came.
use lametrader.Prelude.{
  ℕ, ◌+◌, ◌<◌, ◌≡◌, refl, sym, ap, ◌∙◌, inl, inr, Bool, true, false, not, ◌&&◌, ◌||◌, Option, none,
  some, List, [], ◌∷◌, All, if◌then◌else◌, ◌==◌, ==_iff, ==_refl, Keyed, number_keyed, Bool-cases,
  arith,
}
use lametrader.Prelude.Map
use lametrader.Prelude.Map.{Map, get-set, get-delete}
use lametrader.Prelude.Sort.{Pairwise}
use lametrader.Rules.Orchestrator.Serializer.{
  JobStatus, waiting, Job, Serializer, is_settled, is_waiting, is_running, has_settled, is_ready,
  may_run, run_job, settle_job, is_last, enqueue, clean_chain, Turn, ran, ended, cleaned, Reachable,
  begins, queued, turns,
}

pub settled-not_waiting : (s : JobStatus) → is_settled s ≡ true → is_waiting s ≡ false
settled-not_waiting s e = ground arith

is_last_iff : (o : Option ℕ) (id : ℕ) → is_last o id ≡ true → o ≡ some id
is_last_iff none id e = cc
is_last_iff (some i) id e = ap some ((==_iff i id).0 e)

module _ {K E : Type 0} ⦃keyed : Keyed K⦄ (key_of : E → K) where
  -- The newest job of a chain.
  unfoldable pub newest : K → List (Job E) → Option ℕ
  newest k [] = none
  newest k (j ∷ jobs) = let rest = newest k jobs in if key_of j.event == k then some j.id else rest

  -- Every job of a chain has settled.
  pub all_settled : K → List (Job E) → Bool
  all_settled k [] = true
  all_settled k (j ∷ jobs) =
      (not (key_of j.event == k) || is_settled j.status) && all_settled k jobs

  -- What a promise waits for covers the older jobs of its chain.
  abbrev pub Covers : K → Option ℕ → List (Job E) → Type 0
  Covers k none jobs = all_settled k jobs ≡ true
  Covers k (some id) jobs = newest k jobs ≡ some id

  -- Each job waits for the newest of its chain before it, and has the chain's older jobs settled
  -- behind it once it runs.
  abbrev pub IsLined : List (Job E) → Type 0
  IsLined [] = Unit
  IsLined (j ∷ jobs) =
      Covers (key_of j.event) j.after jobs
      × (is_waiting j.status ≡ false → all_settled (key_of j.event) jobs ≡ true)
      × All (λ u. u.id < j.id) jobs
      × IsLined jobs

  newest-run_job :
      (k : K) (id : ℕ) (jobs : List (Job E)) → newest k (run_job id jobs) ≡ newest k jobs
  unfolding newest run_job
  newest-run_job k id [] = refl
  newest-run_job k id (j ∷ jobs) = ground (arith, newest-run_job k id jobs)

  newest-settle_job :
      (k : K) (id : ℕ) (jobs : List (Job E)) → newest k (settle_job id jobs) ≡ newest k jobs
  unfolding newest settle_job
  newest-settle_job k id [] = refl
  newest-settle_job k id (j ∷ jobs) = ground (arith, newest-settle_job k id jobs)

  all_settled-run_job :
      (k : K) (id : ℕ) (jobs : List (Job E))
      → all_settled k jobs ≡ true
      → all_settled k (run_job id jobs) ≡ true
  unfolding all_settled run_job
  all_settled-run_job k id [] h = refl
  all_settled-run_job k id (j ∷ jobs) h = ground (arith, all_settled-run_job k id jobs)

  all_settled-settle_job :
      (k : K) (id : ℕ) (jobs : List (Job E))
      → all_settled k jobs ≡ true
      → all_settled k (settle_job id jobs) ≡ true
  unfolding all_settled settle_job
  all_settled-settle_job k id [] h = refl
  all_settled-settle_job k id (j ∷ jobs) h = ground (arith, all_settled-settle_job k id jobs)

  pub newest-lt :
      (k : K) (id top : ℕ) (jobs : List (Job E))
      → newest k jobs ≡ some id
      → All (λ u. u.id < top) jobs
      → id < top
  unfolding newest
  newest-lt k id top [] n a = absurd (ground arith)
  newest-lt k id top (j ∷ jobs) n a = ground (arith, newest-lt k id top jobs)

  -- The newest job of a chain behind which all is settled.
  newest-settled :
      (k : K) (id : ℕ) (jobs : List (Job E))
      → IsLined jobs
      → newest k jobs ≡ some id
      → has_settled id jobs ≡ true
      → all_settled k jobs ≡ true
  unfolding newest has_settled all_settled
  newest-settled k id [] l n h = refl
  newest-settled k id (j ∷ jobs) l n h = elim (Bool-cases (key_of j.event == k)) [
    | inl e ↦
        let same : key_of j.event ≡ k = (==_iff (key_of j.event) k).0 e in
        let done : is_settled j.status ≡ true = ground (arith, ==_refl j.id) in
        let past : all_settled k jobs ≡ true =
          rw same at (l.1 (settled-not_waiting j.status done)) in
        ground arith
    | inr e ↦
        let older : newest k jobs ≡ some id = ground arith in
        let low = newest-lt k id j.id jobs older l.2 in
        let rest = newest-settled k id jobs l.3 older in ground arith
  ]

  ids-run_job :
      (id top : ℕ) (jobs : List (Job E))
      → All (λ u. u.id < top) jobs
      → All (λ u. u.id < top) (run_job id jobs)
  unfolding run_job
  ids-run_job id top [] h = tt
  ids-run_job id top (j ∷ jobs) h = (ground arith, ids-run_job id top jobs h.1)

  ids-settle_job :
      (id top : ℕ) (jobs : List (Job E))
      → All (λ u. u.id < top) jobs
      → All (λ u. u.id < top) (settle_job id jobs)
  unfolding settle_job
  ids-settle_job id top [] h = tt
  ids-settle_job id top (j ∷ jobs) h = (ground arith, ids-settle_job id top jobs h.1)

  Covers-run_job :
      (k : K) (after : Option ℕ) (id : ℕ) (jobs : List (Job E))
      → Covers k after jobs
      → Covers k after (run_job id jobs)
  Covers-run_job k none id jobs h = all_settled-run_job k id jobs h
  Covers-run_job k (some i) id jobs h = newest-run_job k id jobs ∙ h

  Covers-settle_job :
      (k : K) (after : Option ℕ) (id : ℕ) (jobs : List (Job E))
      → Covers k after jobs
      → Covers k after (settle_job id jobs)
  Covers-settle_job k none id jobs h = all_settled-settle_job k id jobs h
  Covers-settle_job k (some i) id jobs h = newest-settle_job k id jobs ∙ h

  -- A promise that has settled has the chain before it settled.
  ready-all_settled :
      (k : K) (after : Option ℕ) (jobs : List (Job E))
      → IsLined jobs
      → Covers k after jobs
      → is_ready after jobs ≡ true
      → all_settled k jobs ≡ true
  ready-all_settled k none jobs l c r = c
  ready-all_settled k (some id) jobs l c r = newest-settled k id jobs l c r

  settle_job-IsLined : (id : ℕ) (jobs : List (Job E)) → IsLined jobs → IsLined (settle_job id jobs)
  unfolding settle_job
  settle_job-IsLined id [] l = tt
  settle_job-IsLined id (j ∷ jobs) l = elim (Bool-cases (j.id == id && is_running j.status)) [
    | inl e ↦ rw e (
      Covers-settle_job (key_of j.event) j.after id jobs l.0,
      (λ w. all_settled-settle_job (key_of j.event) id jobs (l.1 (ground arith))),
      ids-settle_job id j.id jobs l.2,
      settle_job-IsLined id jobs l.3,
    )
    | inr e ↦ rw e (
      Covers-settle_job (key_of j.event) j.after id jobs l.0,
      (λ w. all_settled-settle_job (key_of j.event) id jobs (l.1 w)),
      ids-settle_job id j.id jobs l.2,
      settle_job-IsLined id jobs l.3,
    )
  ]

  -- Where no job has the number, nothing changes.
  run_job_none : (id : ℕ) (jobs : List (Job E)) → All (λ u. u.id < id) jobs → run_job id jobs ≡ jobs
  unfolding run_job
  run_job_none id [] h = refl
  run_job_none id (j ∷ jobs) h = ground (arith, run_job_none id jobs h.1)

  run_job-IsLined :
      (id : ℕ) (jobs : List (Job E))
      → IsLined jobs
      → may_run id jobs ≡ true
      → IsLined (run_job id jobs)
  unfolding run_job may_run
  run_job-IsLined id [] l m = tt
  run_job-IsLined id (j ∷ jobs) l m = elim (Bool-cases (j.id == id)) [
    | inl e ↦
        let ready : is_ready j.after jobs ≡ true = ground arith in
        let waits : is_waiting j.status ≡ true = ground arith in
        let past = ready-all_settled (key_of j.event) j.after jobs l.3 l.0 ready in
        let same = run_job_none j.id jobs l.2 in
        let is : j.id ≡ id = (==_iff j.id id).0 e in
        let kept : run_job id jobs ≡ jobs = rw is at same in
        rw (e, waits, kept) (l.0, (λ w. past), l.2, l.3)
    | inr e ↦ rw e (
      Covers-run_job (key_of j.event) j.after id jobs l.0,
      (λ w. all_settled-run_job (key_of j.event) id jobs (l.1 w)),
      ids-run_job id j.id jobs l.2,
      run_job-IsLined id jobs l.3 (ground arith),
    )
  ]

  -- The chains' last promises cover all jobs.
  pub record IsServed (s : Serializer K E) : Type 0 where
    pub lined : IsLined s.jobs
    pub used : All (λ u. u.id < s.next_id) s.jobs
    pub chained : (k : K) → Covers k (Map.get k s.chains) s.jobs

  grown :
      (next : ℕ) (jobs : List (Job E))
      → All (λ u. u.id < next) jobs
      → All (λ u. u.id < next + 1) jobs
  grown next [] h = tt
  grown next (j ∷ jobs) h = (omega arith, grown next jobs h.1)

  Covers-other :
      (k : K) (after : Option ℕ) (j : Job E) (jobs : List (Job E))
      → (key_of j.event == k) ≡ false
      → Covers k after jobs
      → Covers k after (j ∷ jobs)
  unfolding newest all_settled
  Covers-other k none j jobs e h = ground arith
  Covers-other k (some id) j jobs e h = ground arith

  newest-own :
      (k : K) (j : Job E) (jobs : List (Job E))
      → (key_of j.event == k) ≡ true
      → newest k (j ∷ jobs) ≡ some j.id
  unfolding newest
  newest-own k j jobs e = rw e refl

  enqueue-IsServed :
      (event : E) (s : Serializer K E) → IsServed s → IsServed (enqueue key_of event s)
  unfolding enqueue
  enqueue-IsServed event s k = record {
    lined = (k.chained (key_of event), (λ w. cc), k.used, k.lined);
    used = (omega arith, grown s.next_id s.jobs k.used);
    chained = λ q.
        let job : Job E = record {
          id = s.next_id;
          event = event;
          after = Map.get (key_of event) s.chains;
          status = waiting;
        } in
        rw (get-set (key_of event) q s.next_id s.chains) (elim (Bool-cases (key_of event == q)) [
          | inl e ↦ rw e (newest-own q job s.jobs e)
          | inr e ↦ rw e (Covers-other q (Map.get q s.chains) job s.jobs e (k.chained q))
        ]);
  }

  clean_chain-IsServed :
      (s : Serializer K E) (key : K) (id : ℕ)
      → has_settled id s.jobs ≡ true
      → IsServed s
      → IsServed (clean_chain key_of key id s)
  unfolding clean_chain
  clean_chain-IsServed s key id h k = elim (Bool-cases (is_last (Map.get key s.chains) id)) [
    | inl e ↦
        let own = is_last_iff (Map.get key s.chains) id e in
        let covers : Covers key (some id) s.jobs = rw own at (k.chained key) in
        let past = newest-settled key id s.jobs k.lined covers h in
        rw (e, clean_chain)
          record {
            lined = k.lined;
            used = k.used;
            chained = λ q. rw (get-delete key q s.chains) (elim (Bool-cases (key == q)) [
              | inl x ↦ rw x (ap (λ y. all_settled y s.jobs) (sym ((==_iff key q).0 x)) ∙ past)
              | inr x ↦ rw x (k.chained q)
            ]);
          }
    | inr e ↦ rw (e, clean_chain) k
  ]

  Turn-IsServed : {s s' : Serializer K E} → Turn key_of s s' → IsServed s → IsServed s'
  Turn-IsServed {s} (ran id m) k = record {
    lined = run_job-IsLined id s.jobs k.lined m;
    used = ids-run_job id s.next_id s.jobs k.used;
    chained = λ q. Covers-run_job q (Map.get q s.chains) id s.jobs (k.chained q);
  }
  Turn-IsServed {s} (ended id) k = record {
    lined = settle_job-IsLined id s.jobs k.lined;
    used = ids-settle_job id s.next_id s.jobs k.used;
    chained = λ q. Covers-settle_job q (Map.get q s.chains) id s.jobs (k.chained q);
  }
  Turn-IsServed {s} (cleaned key id h) k = clean_chain-IsServed s key id h k

  pub Reachable-IsServed : {s : Serializer K E} → Reachable key_of s → IsServed s
  Reachable-IsServed begins = record {
    lined = tt;
    used = tt;
    chained = λ k. unfold all_settled Map.get in refl;
  }
  Reachable-IsServed (queued {s} event r) = enqueue-IsServed event s (Reachable-IsServed r)
  Reachable-IsServed (turns r t) = Turn-IsServed t (Reachable-IsServed r)

  -- The newer job is of another chain, or waits, or the older one has settled.
  abbrev pub InTurn : Job E → Job E → Type 0
  InTurn newer older =
      key_of newer.event ≡ key_of older.event
      → is_waiting newer.status ≡ false
      → is_settled older.status ≡ true

  behind :
      (j : Job E) (jobs : List (Job E))
      → (is_waiting j.status ≡ false → all_settled (key_of j.event) jobs ≡ true)
      → All (InTurn j) jobs
  unfolding all_settled
  behind j [] h = tt
  behind j (u ∷ jobs) h = (
    (λ e w. let done = h w in ground (arith, ==_iff (key_of u.event) (key_of j.event))),
    behind j jobs (λ w. let done = h w in ground arith),
  )

  lined-InTurn : (jobs : List (Job E)) → IsLined jobs → Pairwise InTurn jobs
  lined-InTurn [] l = tt
  lined-InTurn (j ∷ jobs) l = (behind j jobs l.1, lined-InTurn jobs l.3)

  -- After any events queued, processed and cleaned up after, in any interleaving: of two events of
  -- one key, the one queued later has not begun to be processed unless the other one has settled;
  -- so a key's events are processed one at a time, in the order they were queued.
  pub serializer-InTurn : {s : Serializer K E} → Reachable key_of s → Pairwise InTurn s.jobs
  serializer-InTurn {s} r = lined-InTurn s.jobs (Reachable-IsServed r).lined
