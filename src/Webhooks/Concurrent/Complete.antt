-- ===== src/Webhooks/Concurrent/Complete.antt =====
-- What `mapConcurrent` of packages/webhooks/src/delivery/worker.ts returns once its workers have all
-- returned.
use native.Mathlib.Decide.{ℕ_discrete}
use solana_payment_ops.Common.{
  ℕ, zero, suc, ◌≤◌, ◌<◌, ◌≡◌, inl, inr, refl, ap, ap₂, ◌∙◌, true, false, Option, none, some, List,
  [], ◌∷◌, map, length, get_elem?, all, range, arith, get_elem?-of_lt,
}
use solana_payment_ops.Common.Result.{Result, ok}
use solana_payment_ops.Webhooks.Concurrent.{
  Pool, has_failed, pool_after, has_returned, finish_pool, map_concurrent,
}
use solana_payment_ops.Webhooks.Concurrent.Fills.{Fills, IsSound}
use solana_payment_ops.Webhooks.Concurrent.Steps.{pool_after-IsSound}
use solana_payment_ops.Webhooks.Concurrent.Ends.{length-workers}

-- Two lists of which each place is filled.
all_filled :
    {R E : Type 0} (outcomes : List (Result E R)) (results : List (Option R))
    → length results ≡ length outcomes
    → ((i : ℕ)
        → i < length outcomes
        → (r : R) × (get_elem? outcomes i ≡ some (ok r)) × (get_elem? results i ≡ some (some r)))
    → (rs : List R) × (outcomes ≡ map ok rs) × (results ≡ map some rs)
all_filled [] [] sized filled = ([], refl, refl)
all_filled [] (x ∷ xs) sized filled = absurd (omega arith)
all_filled (o ∷ os) [] sized filled = absurd (omega arith)
all_filled (o ∷ os) (x ∷ xs) sized filled =
    let (r, at, there) = filled 0 (omega arith) in
    let (rs, outs, results) =
      all_filled os xs (omega (arith, sized)) (λ i below. filled (suc i) (omega arith)) in
    (r ∷ rs, ap₂ (λ y ys. y ∷ ys) (cc at) outs, ap₂ (λ y ys. y ∷ ys) (cc there) results)

returned-none :
    (workers : List (Option ℕ)) (w : ℕ) (x : Option ℕ)
    → all has_returned workers ≡ true
    → get_elem? workers w ≡ some x
    → x ≡ none
returned-none [] w x h at = cc at
returned-none (none ∷ ws) zero x h at = cc at
returned-none (some i ∷ ws) zero x h at = cc h
returned-none (y ∷ ws) (suc w) x h at = returned-none ws w x (ground arith) at

-- The end of a call that returns: its workers have all returned, and no operation failed.
finished :
    {R E : Type 0} (pool : Pool R E) (results : List (Option R))
    → finish_pool pool ≡ some (ok results)
    → (all has_returned pool.workers ≡ true)
      × (has_failed pool.first_error ≡ false)
      × (results ≡ pool.results)
finished pool results h = (ground arith, ground arith, ground arith)

module _ {R E : Type 0} (outcomes : List (Result E R)) (pool : Pool R E)
    (sound : IsSound outcomes pool) (returned : all has_returned pool.workers ≡ true)
    (succeeded : has_failed pool.first_error ≡ false) where
  -- With a worker there is, every index was taken.
  next_index-eq : 1 ≤ length pool.workers → pool.next_index ≡ length outcomes
  next_index-eq some_worker =
      let (x, at) = get_elem?-of_lt pool.workers 0 (omega (arith, some_worker)) in
      let none_left = returned-none pool.workers 0 x returned at in
      elim (sound.exhausted 0 (at ∙ ap some none_left)) [
        | inl f ↦ cc (f, succeeded)
        | inr le ↦ let b = sound.bounded in omega arith
      ]

  each_filled : (i : ℕ) → i < pool.next_index → Fills outcomes pool i
  each_filled i below = elim (sound.placed i below) [
    | inl f ↦ cc (f, succeeded)
    | inr k ↦ elim k [
      | inl filled ↦ filled
      | inr (w, at) ↦ cc (returned-none pool.workers w (some i) returned at)
    ]
  ]

-- Whatever the order in which the operations settle, a call that returns results has called the
-- operation once on each value, each of them succeeded, and the results are theirs, in the order of
-- the values.
pub map_concurrent-fills :
    {R E : Type 0} (outcomes : List (Result E R)) (concurrency : ℕ) (schedule : List ℕ)
    (results : List (Option R))
    → 1 ≤ concurrency
    → map_concurrent outcomes concurrency schedule ≡ some (ok results)
    → (rs : List R) × (outcomes ≡ map ok rs)
      × (results ≡ map some rs)
      × ((pool_after outcomes concurrency schedule).calls ≡ range (length outcomes))
unfolding map_concurrent
map_concurrent-fills outcomes concurrency schedule results some_worker h =
    let pool = pool_after outcomes concurrency schedule in
    let (returned, succeeded, same) = finished pool results h in
    let sound = pool_after-IsSound outcomes concurrency schedule in
    let all_taken : pool.next_index ≡ length outcomes = elim (ℕ_discrete (length outcomes) 0) [
      | yes e ↦ let b = sound.bounded in omega arith
      | no n ↦
          next_index-eq outcomes pool sound returned succeeded
            (omega (arith, length-workers outcomes concurrency schedule))
    ] in
    let (rs, outs, filled) = all_filled outcomes pool.results sound.sized (λ i below.
      each_filled outcomes pool sound returned succeeded i (omega (arith, all_taken))) in
    (rs, outs, same ∙ filled, sound.called ∙ ap range all_taken)
