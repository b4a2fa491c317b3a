-- ===== src/Webhooks/Concurrent.antt =====
-- `mapConcurrent` of packages/webhooks/src/delivery/worker.ts. Its workers share `results`,
-- `nextIndex`, `failed` and `firstError`. A worker runs without a break from one `await` to the next,
-- so an interleaving is the order in which the awaited operations settle: a schedule, a list of the
-- workers that are resumed one after another.
pub mod Fills
pub mod Steps
pub mod Ends
pub mod Complete
use solana_payment_ops.Common.{
  ℕ, zero, suc, min, Bool, true, false, not, ◌&&◌, Option, none, some, List, [], ◌∷◌, ◌++◌,
  if◌then◌else◌, ltb, length, get_elem?, set, replicate, all,
}
use solana_payment_ops.Common.Result.{Result, ok, err}

-- `failed` is whether there is a first error. Of each worker, the last started first, the index of the
-- value that it awaits, or none once it has returned; `calls` are the indexes of the values on which
-- the operation has been called, in order.
pub record Pool (R E : Type 0) : Type 0 where
  pub results : List (Option R)
  pub next_index : ℕ
  pub first_error : Option E
  pub workers : List (Option ℕ)
  pub calls : List ℕ

abbrev pub has_failed : {E : Type 0} → Option E → Bool
has_failed none = false
has_failed (some e) = true

abbrev pub keep_first : {E : Type 0} → Option E → E → Option E
keep_first none e = some e
keep_first (some first) e = some first

abbrev pub has_returned : Option ℕ → Bool
has_returned none = true
has_returned (some index) = false

module _ {R E : Type 0} where
  -- `while (!failed && nextIndex < values.length)`, with the call that its body begins with.
  abbrev pub take_index : ℕ → Pool R E → Option ℕ × Pool R E
  take_index count pool =
      if not (has_failed pool.first_error) && ltb pool.next_index count
      then (
        some pool.next_index,
        record pool {
          next_index = suc pool.next_index;
          calls = pool.calls ++ (pool.next_index ∷ []);
        },
      )
      else (none, pool)

  -- A worker is started, and runs up to its first `await`.
  unfoldable pub launch : ℕ → Pool R E → Pool R E
  launch count pool =
      let (index, next) = take_index count pool in record next { workers = index ∷ next.workers }

  unfoldable pub launch_all : ℕ → ℕ → Pool R E → Pool R E
  launch_all zero count pool = pool
  launch_all (suc workers) count pool = launch_all workers count (launch count pool)

  -- What a worker does with the outcome that it awaited.
  unfoldable pub record_outcome : ℕ → Result E R → Pool R E → Pool R E
  record_outcome index (ok result) pool = record pool {
    results = set pool.results index (some result);
  }
  record_outcome index (err error) pool = record pool {
    first_error = keep_first pool.first_error error;
  }

  -- And it goes on to the next index, or returns.
  unfoldable pub proceed : ℕ → ℕ → Pool R E → Pool R E
  proceed count worker pool =
      let (index, next) = take_index count pool in
      record next { workers = set next.workers worker index }

  abbrev pub resume_outcome : ℕ → ℕ → ℕ → Option (Result E R) → Pool R E → Pool R E
  resume_outcome count worker index none pool = pool
  resume_outcome count worker index (some outcome) pool =
      proceed count worker (record_outcome index outcome pool)

  abbrev pub resume_with : List (Result E R) → ℕ → Option (Option ℕ) → Pool R E → Pool R E
  resume_with outcomes worker (some (some index)) pool =
      resume_outcome (length outcomes) worker index (get_elem? outcomes index) pool
  resume_with outcomes worker _ pool = pool

  -- A worker is resumed; one that awaits nothing is not.
  unfoldable pub resume : List (Result E R) → ℕ → Pool R E → Pool R E
  resume outcomes worker pool = resume_with outcomes worker (get_elem? pool.workers worker) pool

  unfoldable pub run_schedule : List (Result E R) → List ℕ → Pool R E → Pool R E
  run_schedule outcomes [] pool = pool
  run_schedule outcomes (worker ∷ schedule) pool =
      run_schedule outcomes schedule (resume outcomes worker pool)

  -- `new Array(values.length)` and the other shared variables.
  abbrev pub empty_pool : ℕ → Pool R E
  empty_pool count = record {
    results = replicate count none;
    next_index = 0;
    first_error = none;
    workers = [];
    calls = [];
  }

  -- `Array.from({ length: Math.min(concurrency, values.length) }, worker)`
  unfoldable pub start_pool : ℕ → ℕ → Pool R E
  start_pool concurrency count = launch_all (min concurrency count) count (empty_pool count)

  -- The pool after a schedule, where the operation on each value comes to the outcome listed.
  unfoldable pub pool_after : List (Result E R) → ℕ → List ℕ → Pool R E
  pool_after outcomes concurrency schedule =
      run_schedule outcomes schedule (start_pool concurrency (length outcomes))

  -- `if (failed) throw firstError; return results;`
  abbrev pub outcome_of : List (Option R) → Option E → Result E (List (Option R))
  outcome_of results none = ok results
  outcome_of results (some error) = err error

  -- `await Promise.all(…)` and the end: none while some worker awaits.
  abbrev pub finish_pool : Pool R E → Option (Result E (List (Option R)))
  finish_pool pool =
      if all has_returned pool.workers
      then some (outcome_of pool.results pool.first_error)
      else none

  unfoldable pub map_concurrent :
      List (Result E R) → ℕ → List ℕ → Option (Result E (List (Option R)))
  map_concurrent outcomes concurrency schedule =
      finish_pool (pool_after outcomes concurrency schedule)
