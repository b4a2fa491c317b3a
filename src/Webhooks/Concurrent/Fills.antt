-- ===== src/Webhooks/Concurrent/Fills.antt =====
-- Whatever the order in which the operations settle, `mapConcurrent` of
-- packages/webhooks/src/delivery/worker.ts calls each of them once and keeps each result in its place.
use native.Mathlib.Decide.{ℕ_discrete}
use solana_payment_ops.Common.{
  ℕ, zero, suc, ◌≤◌, ◌<◌, ◌≡◌, ◌⊎◌, inl, inr, refl, sym, ap, ◌∙◌, subst, true, false, not, ◌&&◌,
  Option, none, some, List, [], ◌∷◌, ◌++◌, ltb, length, get_elem?, set, range, arith, Bool-cases,
  length-set, get_elem?-set_self, get_elem?-set_other, lt_length-of_get_elem?,
}
use solana_payment_ops.Common.Result.{Result, ok, err}
use solana_payment_ops.Webhooks.Concurrent.{Pool, has_failed, keep_first, launch, record_outcome}

keep_first-fails : {E : Type 0} (first : Option E) (e : E) → has_failed (keep_first first e) ≡ true
keep_first-fails none e = refl
keep_first-fails (some f) e = refl

-- What a list that was written once holds at an index.
pub set-cases :
    {A : Type 0} (xs : List A) (i j : ℕ) (x y : A)
    → i < length xs
    → get_elem? (set xs i x) j ≡ some y
    → ((i ≡ j) × (x ≡ y)) ⊎ (get_elem? xs j ≡ some y)
set-cases xs i j x y below h = elim (ℕ_discrete i j) [
  | yes e ↦
      let here = get_elem?-set_self xs i x below in
      let there : get_elem? (set xs i x) i ≡ some y = ap (get_elem? (set xs i x)) e ∙ h in
      inl (e, cc)
  | no n ↦ inr (sym (get_elem?-set_other xs i j x n) ∙ h)
]

module _ {R E : Type 0} (outcomes : List (Result E R)) where
  abbrev pub Fails : Pool R E → Type 0
  Fails pool = has_failed pool.first_error ≡ true

  abbrev pub Fills : Pool R E → ℕ → Type 0
  Fills pool i =
      (r : R) × (get_elem? outcomes i ≡ some (ok r)) × (get_elem? pool.results i ≡ some (some r))

  abbrev pub Awaits : List (Option ℕ) → ℕ → ℕ → Type 0
  Awaits workers w i = get_elem? workers w ≡ some (some i)

  -- An index that was taken: its worker still waits, or its result is in its place.
  abbrev pub IsPlaced : Pool R E → List (Option ℕ) → ℕ → Type 0
  IsPlaced pool workers i = Fails pool ⊎ (Fills pool i ⊎ ((w : ℕ) × Awaits workers w i))

  pub record IsSound (pool : Pool R E) : Type 0 where
    pub sized : length pool.results ≡ length outcomes
    pub called : pool.calls ≡ range pool.next_index
    pub bounded : pool.next_index ≤ length outcomes
    pub placed : (i : ℕ) → i < pool.next_index → IsPlaced pool pool.workers i
    pub awaited : (w i : ℕ) → Awaits pool.workers w i → i < pool.next_index
    pub exhausted :
        (w : ℕ)
        → get_elem? pool.workers w ≡ some none
        → Fails pool ⊎ (length outcomes ≤ pool.next_index)

  -- The outcome that a worker waited for is put away.
  record_outcome-Fills :
      (pool : Pool R E) (i j : ℕ) (r : R)
      → length pool.results ≡ length outcomes
      → get_elem? outcomes i ≡ some (ok r)
      → (i ≡ j) ⊎ Fills pool j
      → Fills (record pool { results = set pool.results i (some r) }) j
  record_outcome-Fills pool i j r sized there h = elim (ℕ_discrete i j) [
    | yes e ↦ subst (Fills (record pool { results = set pool.results i (some r) })) e (
      r,
      there,
      get_elem?-set_self pool.results i (some r)
          (omega (arith, sized, lt_length-of_get_elem? outcomes i there)),
    )
    | no n ↦ elim h [
      | inl e ↦ absurd (n e)
      | inr (q, at, filled) ↦ (q, at, get_elem?-set_other pool.results i j (some r) n ∙ filled)
    ]
  ]

  pub record_outcome-IsSound :
      (pool : Pool R E) (i : ℕ) (o : Result E R)
      → IsSound pool
      → get_elem? outcomes i ≡ some o
      → IsSound (record_outcome i o pool)
        × (Fails (record_outcome i o pool) ⊎ Fills (record_outcome i o pool) i)
  unfolding record_outcome
  record_outcome-IsSound pool i (ok r) sound there = (
    record {
      sized = length-set pool.results i (some r) ∙ sound.sized;
      called = sound.called;
      bounded = sound.bounded;
      placed = λ j below. elim (sound.placed j below) [
        | inl f ↦ inl f
        | inr k ↦ elim k [
          | inl filled ↦ inr (inl (record_outcome-Fills pool i j r sound.sized there (inr filled)))
          | inr waits ↦ inr (inr waits)
        ]
      ];
      awaited = sound.awaited;
      exhausted = sound.exhausted;
    },
    inr (record_outcome-Fills pool i i r sound.sized there (inl refl)),
  )
  record_outcome-IsSound pool i (err e) sound there = (
    record {
      sized = sound.sized;
      called = sound.called;
      bounded = sound.bounded;
      placed = λ j below. inl (keep_first-fails pool.first_error e);
      awaited = sound.awaited;
      exhausted = λ w at. inl (keep_first-fails pool.first_error e);
    },
    inl (keep_first-fails pool.first_error e),
  )

  -- The test of the loop, when it fails.
  pub stops :
      (pool : Pool R E)
      → (not (has_failed pool.first_error) && ltb pool.next_index (length outcomes)) ≡ false
      → Fails pool ⊎ (length outcomes ≤ pool.next_index)
  stops pool h = elim (Bool-cases (has_failed pool.first_error)) [
    | inl f ↦ inl f
    | inr f ↦ inr (ground arith)
  ]

  module _ (pool : Pool R E) (sound : IsSound pool) where
    pub launch-IsSound : IsSound (launch (length outcomes) pool)
    unfolding launch
    launch-IsSound =
        elim (Bool-cases
          (not (has_failed pool.first_error) && ltb pool.next_index (length outcomes))) [
            | inl goes ↦ rw goes (record {
              sized = sound.sized;
              called = ap (λ l. l ++ (pool.next_index ∷ [])) sound.called;
              bounded = ground arith;
              placed = λ i below. elim (ℕ_discrete i pool.next_index) [
                | yes e ↦ inr (inr (0, ap (λ n. some (some n)) (sym e)))
                | no n ↦ elim (sound.placed i (omega arith)) [
                  | inl f ↦ inl f
                  | inr k ↦ elim k [
                    | inl filled ↦ inr (inl filled)
                    | inr (w, waits) ↦ inr (inr (suc w, waits))
                  ]
                ]
              ];
              awaited = taken;
              exhausted = goes_on;
            })
            | inr over ↦ rw over (record {
              sized = sound.sized;
              called = sound.called;
              bounded = sound.bounded;
              placed = λ i below. elim (sound.placed i below) [
                | inl f ↦ inl f
                | inr k ↦ elim k [
                  | inl filled ↦ inr (inl filled)
                  | inr (w, waits) ↦ inr (inr (suc w, waits))
                ]
              ];
              awaited = idle;
              exhausted = ended over;
            })
          ]
      where
        taken :
            (w i : ℕ) → Awaits (some pool.next_index ∷ pool.workers) w i → i < suc pool.next_index
        taken zero i h = let e : pool.next_index ≡ i = cc h in omega arith
        taken (suc w) i h = let b = sound.awaited w i h in omega arith

        goes_on :
            (w : ℕ)
            → get_elem? (some pool.next_index ∷ pool.workers) w ≡ some none
            → Fails pool ⊎ (length outcomes ≤ suc pool.next_index)
        goes_on zero h = cc h
        goes_on (suc w) h = elim (sound.exhausted w h) [
          | inl f ↦ inl f
          | inr le ↦ inr (omega arith)
        ]

        idle : (w i : ℕ) → Awaits (none ∷ pool.workers) w i → i < pool.next_index
        idle zero i h = cc h
        idle (suc w) i h = sound.awaited w i h

        ended :
            (not (has_failed pool.first_error) && ltb pool.next_index (length outcomes)) ≡ false
            → (w : ℕ) → get_elem? (none ∷ pool.workers) w ≡ some none
            → Fails pool ⊎ (length outcomes ≤ pool.next_index)
        ended over zero h = stops pool over
        ended over (suc w) h = sound.exhausted w h
