-- ===== src/Webhooks/Concurrent/Steps.antt =====
-- What every step of the workers of `mapConcurrent` of packages/webhooks/src/delivery/worker.ts keeps.
use native.Mathlib.Decide.{ℕ_discrete}
use solana_payment_ops.Common.{
  ℕ, zero, suc, min, ◌≡◌, ◌⊎◌, inl, inr, refl, sym, ap, ◌∙◌, subst, not, ◌&&◌, Option, none, some,
  List, [], ◌∷◌, ◌++◌, ltb, length, get_elem?, set, arith, Bool-cases, get_elem?-set_self,
  get_elem?-set_other, lt_length-of_get_elem?, length-replicate,
}
use solana_payment_ops.Common.Result.{Result, ok, err}
use solana_payment_ops.Webhooks.Concurrent.{
  Pool, has_failed, launch, launch_all, record_outcome, proceed, resume_outcome, resume_with,
  resume, run_schedule, empty_pool, start_pool, pool_after,
}
use solana_payment_ops.Webhooks.Concurrent.Fills.{
  Fails, Fills, Awaits, IsPlaced, IsSound, set-cases, record_outcome-IsSound, launch-IsSound, stops,
}

module _ {R E : Type 0} (outcomes : List (Result E R)) where
  -- A worker that is done with its index goes on, to another one or to none.
  module _ (pool : Pool R E) (sound : IsSound outcomes pool) (w i : ℕ)
      (waits : Awaits outcomes pool.workers w i)
      (settled : Fails outcomes pool ⊎ Fills outcomes pool i) where
    still-IsPlaced :
        (x : Option ℕ) (j : ℕ)
        → IsPlaced outcomes pool pool.workers j
        → IsPlaced outcomes pool (set pool.workers w x) j
    still-IsPlaced x j (inl f) = inl f
    still-IsPlaced x j (inr (inl filled)) = inr (inl filled)
    still-IsPlaced x j (inr (inr (v, at))) = elim (ℕ_discrete w v) [
      | yes e ↦
          let here : get_elem? pool.workers v ≡ some (some i) =
            ap (get_elem? pool.workers) (sym e) ∙ waits in
          let same : i ≡ j = cc (here, at) in
          elim settled [
            | inl f ↦ inl f
            | inr filled ↦ inr (inl (subst (Fills outcomes pool) same filled))
          ]
      | no n ↦ inr (inr (v, get_elem?-set_other pool.workers w v x n ∙ at))
    ]

    cases :
        (x y : Option ℕ) (v : ℕ)
        → get_elem? (set pool.workers w x) v ≡ some y
        → ((w ≡ v) × (x ≡ y)) ⊎ (get_elem? pool.workers v ≡ some y)
    cases x y v at = set-cases pool.workers w v x y (lt_length-of_get_elem? pool.workers w waits) at

    proceed-IsSound : IsSound outcomes (proceed (length outcomes) w pool)
    unfolding proceed
    proceed-IsSound =
        elim (Bool-cases
          (not (has_failed pool.first_error) && ltb pool.next_index (length outcomes))) [
            | inl goes ↦ rw goes (record {
              sized = sound.sized;
              called = ap (λ l. l ++ (pool.next_index ∷ [])) sound.called;
              bounded = ground arith;
              placed = λ j below. elim (ℕ_discrete j pool.next_index) [
                | yes e ↦ inr (
                    inr (
                      w,
                      get_elem?-set_self pool.workers w (some pool.next_index)
                            (lt_length-of_get_elem? pool.workers w waits)
                          ∙ ap (λ n. some (some n)) (sym e),
                    ))
                | no n ↦ still-IsPlaced (some pool.next_index) j (sound.placed j (omega arith))
              ];
              awaited = λ v j at. elim (cases (some pool.next_index) (some j) v at) [
                | inl (_, e) ↦ let same : pool.next_index ≡ j = cc e in omega arith
                | inr before ↦ let b = sound.awaited v j before in omega arith
              ];
              exhausted = λ v at. elim (cases (some pool.next_index) none v at) [
                | inl (_, e) ↦ cc e
                | inr before ↦ elim (sound.exhausted v before) [
                  | inl f ↦ inl f
                  | inr le ↦ inr (omega arith)
                ]
              ];
            })
            | inr over ↦ rw over (record {
              sized = sound.sized;
              called = sound.called;
              bounded = sound.bounded;
              placed = λ j below. still-IsPlaced none j (sound.placed j below);
              awaited = λ v j at. elim (cases none (some j) v at) [
                | inl (_, e) ↦ cc e
                | inr before ↦ sound.awaited v j before
              ];
              exhausted = λ v at. elim (cases none none v at) [
                | inl e ↦ stops outcomes pool over
                | inr before ↦ sound.exhausted v before
              ];
            })
          ]

  pub record_outcome-workers :
      (pool : Pool R E) (i : ℕ) (o : Result E R) → (record_outcome i o pool).workers ≡ pool.workers
  unfolding record_outcome
  record_outcome-workers pool i (ok r) = refl
  record_outcome-workers pool i (err e) = refl

  pub resume-IsSound :
      (w : ℕ) (pool : Pool R E) → IsSound outcomes pool → IsSound outcomes (resume outcomes w pool)
  unfolding resume
  resume-IsSound w pool sound = of_worker (get_elem? pool.workers w) refl
    where
      of_outcome :
          (i : ℕ)
          → Awaits outcomes pool.workers w i
          → (o : Option (Result E R)) → get_elem? outcomes i ≡ o
          → IsSound outcomes (resume_outcome (length outcomes) w i o pool)
      of_outcome i waits none e = sound
      of_outcome i waits (some o) e =
          let (kept, done) = record_outcome-IsSound outcomes pool i o sound e in
          proceed-IsSound (record_outcome i o pool) kept w i
            (ap (λ ws. get_elem? ws w) (record_outcome-workers pool i o) ∙ waits) done

      of_worker :
          (x : Option (Option ℕ))
          → get_elem? pool.workers w ≡ x
          → IsSound outcomes (resume_with outcomes w x pool)
      of_worker none e = sound
      of_worker (some none) e = sound
      of_worker (some (some i)) e = of_outcome i e (get_elem? outcomes i) refl

  pub run_schedule-IsSound :
      (schedule : List ℕ) (pool : Pool R E)
      → IsSound outcomes pool
      → IsSound outcomes (run_schedule outcomes schedule pool)
  unfolding run_schedule
  run_schedule-IsSound [] pool sound = sound
  run_schedule-IsSound (w ∷ schedule) pool sound =
      run_schedule-IsSound schedule (resume outcomes w pool) (resume-IsSound w pool sound)

  pub launch_all-IsSound :
      (k : ℕ) (pool : Pool R E)
      → IsSound outcomes pool
      → IsSound outcomes (launch_all k (length outcomes) pool)
  unfolding launch_all
  launch_all-IsSound zero pool sound = sound
  launch_all-IsSound (suc k) pool sound =
      launch_all-IsSound k (launch (length outcomes) pool) (launch-IsSound outcomes pool sound)

  pub start_pool-IsSound :
      (concurrency : ℕ) → IsSound outcomes (start_pool concurrency (length outcomes))
  unfolding start_pool
  start_pool-IsSound concurrency =
      launch_all-IsSound (min concurrency (length outcomes)) (empty_pool (length outcomes))
        (record {
          sized = length-replicate (length outcomes) none;
          called = refl;
          bounded = omega arith;
          placed = λ i below. absurd (omega arith);
          awaited = λ w i at. cc at;
          exhausted = λ w at. cc at;
        })

  pub pool_after-IsSound :
      (concurrency : ℕ) (schedule : List ℕ)
      → IsSound outcomes (pool_after outcomes concurrency schedule)
  unfolding pool_after
  pool_after-IsSound concurrency schedule =
      run_schedule-IsSound schedule _ (start_pool-IsSound concurrency)
