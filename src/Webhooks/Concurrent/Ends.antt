-- ===== src/Webhooks/Concurrent/Ends.antt =====
-- How many operations the workers of `mapConcurrent` of packages/webhooks/src/delivery/worker.ts wait
-- for, and that they all return.
use solana_payment_ops.Common.{
  ℕ, zero, suc, ◌≤◌, min, ◌≡◌, ◌⊎◌, inl, inr, refl, sym, ap, ◌∙◌, ◌+◌, subst, true, not, ◌&&◌,
  Option, none, some, List, [], ◌∷◌, ◌++◌, ltb, length, get_elem?, set, all, arith, Bool-cases,
  length-set, get_elem?-of_lt,
}
use solana_payment_ops.Common.Result.{Result, ok, err}
use solana_payment_ops.Webhooks.Concurrent.{
  Pool, has_failed, launch, launch_all, record_outcome, proceed, resume_outcome, resume_with,
  resume, run_schedule, empty_pool, start_pool, pool_after, has_returned, outcome_of, finish_pool,
  map_concurrent,
}
use solana_payment_ops.Webhooks.Concurrent.Fills.{IsSound}
use solana_payment_ops.Webhooks.Concurrent.Steps.{
  record_outcome-workers, resume-IsSound, start_pool-IsSound, pool_after-IsSound,
}

-- The number of workers that await an operation.
abbrev awaiting : List (Option ℕ) → ℕ
awaiting [] = 0
awaiting (none ∷ ws) = awaiting ws
awaiting (some i ∷ ws) = suc (awaiting ws)

awaiting-set-some :
    (ws : List (Option ℕ)) (w i j : ℕ)
    → get_elem? ws w ≡ some (some i)
    → awaiting (set ws w (some j)) ≡ awaiting ws
awaiting-set-some [] w i j h = refl
awaiting-set-some (none ∷ ws) zero i j h = cc h
awaiting-set-some (some k ∷ ws) zero i j h = refl
awaiting-set-some (none ∷ ws) (suc w) i j h = awaiting-set-some ws w i j h
awaiting-set-some (some k ∷ ws) (suc w) i j h = ap suc (awaiting-set-some ws w i j h)

awaiting-set-none :
    (ws : List (Option ℕ)) (w i : ℕ)
    → get_elem? ws w ≡ some (some i)
    → awaiting (set ws w none) + 1 ≡ awaiting ws
awaiting-set-none [] w i h = cc h
awaiting-set-none (none ∷ ws) zero i h = cc h
awaiting-set-none (some k ∷ ws) zero i h = omega arith
awaiting-set-none (none ∷ ws) (suc w) i h = awaiting-set-none ws w i h
awaiting-set-none (some k ∷ ws) (suc w) i h = omega (arith, awaiting-set-none ws w i h)

module _ {R E : Type 0} where
  -- The pool with one more index taken.
  abbrev taken : Pool R E → List (Option ℕ) → Pool R E
  taken pool workers = record pool {
    next_index = suc pool.next_index;
    calls = pool.calls ++ (pool.next_index ∷ []);
    workers = workers;
  }

  -- What a step that adds to the workers' number, and to those that await, says of the workers.
  abbrev Counts : ℕ → ℕ → Pool R E → Pool R E → Type 0
  Counts more fewer pool next =
      (length next.workers ≡ more + length pool.workers)
      × (awaiting next.workers + fewer + pool.next_index ≡ awaiting pool.workers + next.next_index)

  launch-Counts : (count : ℕ) (pool : Pool R E) → Counts 1 0 pool (launch count pool)
  unfolding launch
  launch-Counts count pool =
      elim (Bool-cases (not (has_failed pool.first_error) && ltb pool.next_index count)) [
        | inl goes ↦
            let next : Pool R E = taken pool (some pool.next_index ∷ pool.workers) in
            let same : launch count pool ≡ next = rw goes refl in
            subst (Counts 1 0 pool) (sym same) (omega arith, omega arith)
        | inr over ↦
            let next : Pool R E = record pool { workers = none ∷ pool.workers } in
            let same : launch count pool ≡ next = rw over refl in
            subst (Counts 1 0 pool) (sym same) (omega arith, omega arith)
      ]

  launch_all-Counts : (k count : ℕ) (pool : Pool R E) → Counts k 0 pool (launch_all k count pool)
  unfolding launch_all
  launch_all-Counts zero count pool = (omega arith, omega arith)
  launch_all-Counts (suc k) count pool =
      let first = launch-Counts count pool in
      let rest = launch_all-Counts k count (launch count pool) in
      (omega (arith, first.0, rest.0), omega (arith, first.1, rest.1))

  proceed-Counts :
      (count : ℕ) (pool : Pool R E) (w i : ℕ)
      → get_elem? pool.workers w ≡ some (some i)
      → Counts 0 1 pool (proceed count w pool)
  unfolding proceed
  proceed-Counts count pool w i waits =
      elim (Bool-cases (not (has_failed pool.first_error) && ltb pool.next_index count)) [
        | inl goes ↦
            let next : Pool R E = taken pool (set pool.workers w (some pool.next_index)) in
            let same : proceed count w pool ≡ next = rw goes refl in
            subst (Counts 0 1 pool) (sym same) (
              omega (arith, length-set pool.workers w (some pool.next_index)),
              omega (arith, awaiting-set-some pool.workers w i pool.next_index waits),
            )
        | inr over ↦
            let next : Pool R E = record pool { workers = set pool.workers w none } in
            let same : proceed count w pool ≡ next = rw over refl in
            subst (Counts 0 1 pool) (sym same) (
              omega (arith, length-set pool.workers w none),
              omega (arith, awaiting-set-none pool.workers w i waits),
            )
      ]

  record_outcome-next :
      (pool : Pool R E) (i : ℕ) (o : Result E R)
      → (record_outcome i o pool).next_index ≡ pool.next_index
  unfolding record_outcome
  record_outcome-next pool i (ok r) = refl
  record_outcome-next pool i (err e) = refl

-- Every step of a schedule resumes a worker that awaits an operation.
abbrev pub Resumes : {R E : Type 0} → List (Result E R) → Pool R E → List ℕ → Type 0
Resumes outcomes pool [] = Unit
Resumes outcomes pool (w ∷ schedule) =
    ((i : ℕ) × (get_elem? pool.workers w ≡ some (some i)))
    × Resumes outcomes (resume outcomes w pool) schedule

module _ {R E : Type 0} (outcomes : List (Result E R)) where
  resume-Counts :
      (w i : ℕ) (pool : Pool R E)
      → IsSound outcomes pool
      → get_elem? pool.workers w ≡ some (some i)
      → Counts 0 1 pool (resume outcomes w pool)
  unfolding resume
  resume-Counts w i pool sound waits =
      let (o, there) =
        get_elem?-of_lt outcomes i (omega (arith, sound.awaited w i waits, sound.bounded)) in
      let settled : Pool R E = record_outcome i o pool in
      let same : resume outcomes w pool ≡ proceed (length outcomes) w settled =
        ap (λ x. resume_with outcomes w x pool) waits
        ∙ ap (λ x. resume_outcome (length outcomes) w i x pool) there in
      let workers : settled.workers ≡ pool.workers = record_outcome-workers outcomes pool i o in
      let counts : Counts 0 1 settled (proceed (length outcomes) w settled) =
        proceed-Counts (length outcomes) settled w i (ap (λ ws. get_elem? ws w) workers ∙ waits) in
      subst (Counts 0 1 pool) (sym same) (
        omega (arith, counts.0, ap length workers),
        omega (arith, counts.1, ap awaiting workers, record_outcome-next pool i o),
      )

  run_schedule-awaiting :
      (schedule : List ℕ) (pool : Pool R E)
      → IsSound outcomes pool
      → Resumes outcomes pool schedule
      → awaiting (run_schedule outcomes schedule pool).workers + length schedule + pool.next_index
        ≡ awaiting pool.workers + (run_schedule outcomes schedule pool).next_index
  unfolding run_schedule
  run_schedule-awaiting [] pool sound r = omega arith
  run_schedule-awaiting (w ∷ schedule) pool sound r =
      let step = resume-Counts w r.0.0 pool sound r.0.1 in
      let rest =
        run_schedule-awaiting schedule (resume outcomes w pool)
          (resume-IsSound outcomes w pool sound) r.1 in
      omega (arith, step.1, rest)

  length-resume :
      (w : ℕ) (pool : Pool R E) → length (resume outcomes w pool).workers ≡ length pool.workers
  unfolding resume
  length-resume w pool = of_worker (get_elem? pool.workers w) refl
    where
      of_outcome :
          (i : ℕ)
          → get_elem? pool.workers w ≡ some (some i)
          → (o : Option (Result E R))
          → length (resume_outcome (length outcomes) w i o pool).workers ≡ length pool.workers
      of_outcome i waits none = refl
      of_outcome i waits (some o) =
          let same = record_outcome-workers outcomes pool i o in
          (proceed-Counts (length outcomes) (record_outcome i o pool) w i
            (ap (λ ws. get_elem? ws w) same ∙ waits)).0
          ∙ omega (arith, ap length same)

      of_worker :
          (x : Option (Option ℕ))
          → get_elem? pool.workers w ≡ x
          → length (resume_with outcomes w x pool).workers ≡ length pool.workers
      of_worker none e = refl
      of_worker (some none) e = refl
      of_worker (some (some i)) e = of_outcome i e (get_elem? outcomes i)

  length-run_schedule :
      (schedule : List ℕ) (pool : Pool R E)
      → length (run_schedule outcomes schedule pool).workers ≡ length pool.workers
  unfolding run_schedule
  length-run_schedule [] pool = refl
  length-run_schedule (w ∷ schedule) pool =
      length-run_schedule schedule (resume outcomes w pool) ∙ length-resume w pool

  -- As many workers as the concurrency allows and the values need.
  pub length-workers :
      (concurrency : ℕ) (schedule : List ℕ)
      → length (pool_after outcomes concurrency schedule).workers
        ≡ min concurrency (length outcomes)
  unfolding pool_after start_pool
  length-workers concurrency schedule =
      let started : Counts (min concurrency (length outcomes)) 0 (empty_pool (length outcomes))
          (start_pool {R = R} {E = E} concurrency (length outcomes)) =
        launch_all-Counts (min concurrency (length outcomes)) (length outcomes)
          (empty_pool (length outcomes)) in
      length-run_schedule schedule _ ∙ omega (arith, started.0)

  awaits-or-returned :
      (workers : List (Option ℕ))
      → (all has_returned workers ≡ true)
        ⊎ ((w : ℕ) × (i : ℕ) × (get_elem? workers w ≡ some (some i)))
  awaits-or-returned [] = inl refl
  awaits-or-returned (some i ∷ ws) = inr (0, i, refl)
  awaits-or-returned (none ∷ ws) = elim (awaits-or-returned ws) [
    | inl h ↦ inl h
    | inr (w, i, at) ↦ inr (suc w, i, at)
  ]

  -- Each settled operation is one of those that were called.
  length-schedule-le :
      (concurrency : ℕ) (schedule : List ℕ)
      → Resumes outcomes (start_pool concurrency (length outcomes)) schedule
      → length schedule ≤ length outcomes
  unfolding pool_after start_pool
  length-schedule-le concurrency schedule resumed =
      let counted : Counts (min concurrency (length outcomes)) 0 (empty_pool (length outcomes))
          (start_pool {R = R} {E = E} concurrency (length outcomes)) =
        launch_all-Counts (min concurrency (length outcomes)) (length outcomes)
          (empty_pool (length outcomes)) in
      let run =
        run_schedule-awaiting schedule (start_pool concurrency (length outcomes))
          (start_pool-IsSound outcomes concurrency) resumed in
      let within = (pool_after-IsSound outcomes concurrency schedule).bounded in
      omega (arith, counted.1, run, within)

  finish_pool-returned :
      (pool : Pool R E)
      → all has_returned pool.workers ≡ true
      → finish_pool pool ≡ some (outcome_of pool.results pool.first_error)
  finish_pool-returned pool h = rw h refl

  -- In whatever order the awaited operations settle, each step resuming a worker that awaits one,
  -- at most as many of them settle as there are values; and as long as the call has not come to its
  -- end, some worker awaits one.
  pub map_concurrent-ends :
      (concurrency : ℕ) (schedule : List ℕ)
      → Resumes outcomes (start_pool concurrency (length outcomes)) schedule
      → (length schedule ≤ length outcomes)
        × (((end : Result E (List (Option R))) × (map_concurrent outcomes concurrency schedule
                ≡ some end))
            ⊎ ((w : ℕ) × Resumes outcomes (pool_after outcomes concurrency schedule) (w ∷ [])))
  unfolding map_concurrent
  map_concurrent-ends concurrency schedule resumed = (
    length-schedule-le concurrency schedule resumed,
    elim (awaits-or-returned (pool_after outcomes concurrency schedule).workers) [
      | inl returned ↦ inl (
        outcome_of (pool_after outcomes concurrency schedule).results
            (pool_after outcomes concurrency schedule).first_error,
        finish_pool-returned (pool_after outcomes concurrency schedule) returned,
      )
      | inr (w, i, at) ↦ inr (w, ((i, at), tt))
    ],
  )
