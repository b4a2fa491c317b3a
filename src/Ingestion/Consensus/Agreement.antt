-- ===== src/Ingestion/Consensus/Agreement.antt =====
-- What two providers' observations decide, against what the observations show.
use solana_payment_ops.Common.{
  ◌≡◌, refl, ◌↔◌, ◌⊎◌, inl, inr, ◌∙◌, ap, ap₂, String, Bool, true, false, ◌&&◌, Option, none, some,
  arith, ◌===◌, ===_iff, Bool-cases,
}
use solana_payment_ops.Ingestion.Types.{
  agreed, disagreed, IngestionErrorCode, rpc_signature_conflict,
}
use solana_payment_ops.Ingestion.Consensus.{
  ObservedEvidence, is_signature_conflict, is_not_retryable, is_conflict, complete_digest,
  compare_complete, decide_state,
}

-- There is an observation, it failed for a conflict of signatures, and is not to be tried again.
abbrev pub Conflicts : Option ObservedEvidence → Type 0
Conflicts o =
    (evidence : ObservedEvidence) × (o ≡ some evidence)
    × (evidence.observed.safe_error_code ≡ some rpc_signature_conflict)
    × (evidence.observed.safe_error_retryable ≡ some false)

-- There is an observation with this canonical digest, which is or is not a valid finalized one.
abbrev pub Shows : Option ObservedEvidence → String → Bool → Type 0
Shows o digest valid =
    (evidence : ObservedEvidence) × (o ≡ some evidence)
    × (evidence.observed.canonical_digest ≡ some digest)
    × (evidence.valid_finalized ≡ valid)

-- What a provider gives that agrees with another.
abbrev pub Attests : Option ObservedEvidence → String → Type 0
Attests o digest = Shows o digest true × (¬ Conflicts o)

-- Two complete observations that are not both valid with one digest.
abbrev pub Differ : Option ObservedEvidence → Option ObservedEvidence → Type 0
Differ primary secondary =
    (digest : String) × (other_digest : String) × (valid : Bool) × (other_valid : Bool) × Shows
      primary digest valid
    × Shows secondary other_digest other_valid
    × (¬ ((valid ≡ true) × (other_valid ≡ true) × (digest ≡ other_digest)))

conflict_code :
    (c : Option IngestionErrorCode)
    → is_signature_conflict c ≡ true
    → c ≡ some rpc_signature_conflict
conflict_code c h = ground arith

conflict_final : (r : Option Bool) → is_not_retryable r ≡ true → r ≡ some false
conflict_final r h = ground arith

is_conflict-Conflicts : (o : Option ObservedEvidence) → is_conflict o ≡ true → Conflicts o
is_conflict-Conflicts none h = cc h
is_conflict-Conflicts (some e) h = (
  e,
  refl,
  conflict_code e.observed.safe_error_code (ground arith),
  conflict_final e.observed.safe_error_retryable (ground arith),
)

Conflicts-is_conflict : (o : Option ObservedEvidence) → Conflicts o → is_conflict o ≡ true
Conflicts-is_conflict o (e, there, code, final) =
    ap is_conflict there ∙ ap₂ (λ c r. is_signature_conflict c && is_not_retryable r) code final

no_conflict : (o : Option ObservedEvidence) → is_conflict o ≡ false → ¬ Conflicts o
no_conflict o h c = cc (Conflicts-is_conflict o c, h)

complete_digest-Shows :
    (o : Option ObservedEvidence) (d : String) (v : Bool)
    → complete_digest o ≡ some (d, v)
    → Shows o d v
complete_digest-Shows none d v h = cc h
complete_digest-Shows (some e) d v h = (e, refl, ground arith, ground arith)

Shows-complete_digest :
    (o : Option ObservedEvidence) (d : String) (v : Bool)
    → Shows o d v
    → complete_digest o ≡ some (d, v)
Shows-complete_digest o d v (e, there, digested, valid) = ap complete_digest there ∙ ground arith

-- The comparison of complete observations.
compare_complete-agreed :
    (x y : Option (String × Bool))
    → compare_complete x y ≡ agreed
    → (d : String) × (x ≡ some (d, true)) × (y ≡ some (d, true))
compare_complete-agreed none y h = cc h
compare_complete-agreed (some _) none h = cc h
compare_complete-agreed (some (d, v)) (some (e, w)) h =
    (d, ground (arith, ===_iff d e), ground (arith, ===_iff d e))

compare_complete-disagreed :
    (x y : Option (String × Bool))
    → compare_complete x y ≡ disagreed
    → (d : String) × (e : String) × (v : Bool) × (w : Bool) × (x ≡ some (d, v))
      × (y ≡ some (e, w))
      × (¬ ((v ≡ true) × (w ≡ true) × (d ≡ e)))
compare_complete-disagreed none y h = cc h
compare_complete-disagreed (some _) none h = cc h
compare_complete-disagreed (some (d, v)) (some (e, w)) h =
    (d, e, v, w, refl, refl, λ same. ground (arith, ===_iff d e))

compare_complete-same : (d : String) → compare_complete (some (d, true)) (some (d, true)) ≡ agreed
compare_complete-same d = ground (arith, ===_iff d d)

compare_complete-other :
    (d e : String) (v w : Bool)
    → (¬ ((v ≡ true) × (w ≡ true) × (d ≡ e)))
    → compare_complete (some (d, v)) (some (e, w)) ≡ disagreed
compare_complete-other d e v w h = elim (Bool-cases (v && (w && d === e))) [
  | inl same ↦ absurd (h (ground arith, ground arith, ground (arith, ===_iff d e)))
  | inr other ↦ rw other refl
]

-- The decision where neither provider gave a conflict.
module _ (primary secondary : Option ObservedEvidence) (p : is_conflict primary ≡ false)
    (s : is_conflict secondary ≡ false) where
  clear-agreed :
      (compare_complete (complete_digest primary) (complete_digest secondary) ≡ agreed)
      ↔ ((digest : String) × Attests primary digest × Attests secondary digest)
  clear-agreed = (
    λ h.
        let (d, x, y) = compare_complete-agreed _ _ h in
        (
          d,
          (complete_digest-Shows primary d true x, no_conflict primary p),
          (complete_digest-Shows secondary d true y, no_conflict secondary s),
        ),
    λ (d, a, b).
        ap₂ compare_complete (Shows-complete_digest primary d true a.0)
          (Shows-complete_digest secondary d true b.0)
        ∙ compare_complete-same d,
  )

  Differ-disagreed :
      Differ primary secondary
      → compare_complete (complete_digest primary) (complete_digest secondary) ≡ disagreed
  Differ-disagreed (d, e, v, w, a, b, other) =
      ap₂ compare_complete (Shows-complete_digest primary d v a)
        (Shows-complete_digest secondary e w b)
      ∙ compare_complete-other d e v w other

  clear-disagreed :
      (compare_complete (complete_digest primary) (complete_digest secondary) ≡ disagreed)
      ↔ (Conflicts primary ⊎ (Conflicts secondary ⊎ Differ primary secondary))
  clear-disagreed = (
    λ h.
        let (d, e, v, w, x, y, other) = compare_complete-disagreed _ _ h in
        inr (
          inr (
            d,
            e,
            v,
            w,
            complete_digest-Shows primary d v x,
            complete_digest-Shows secondary e w y,
            other,
          )),
    λ h. elim h [
      | inl c ↦ absurd (no_conflict primary p c)
      | inr k ↦ elim k [
        | inl c ↦ absurd (no_conflict secondary s c)
        | inr differ ↦ Differ-disagreed differ
      ]
    ],
  )

-- Two providers agree exactly when each gave a valid finalized observation with one and the same
-- canonical digest and neither a signature conflict that is not to be retried. They disagree
-- exactly when one of them gave such a conflict, or both gave a canonical digest but not both a
-- valid observation with the same one.
pub decide_state-classifies :
    (primary secondary : Option ObservedEvidence)
    → ((decide_state primary secondary ≡ agreed)
        ↔ ((digest : String) × Attests primary digest × Attests secondary digest))
      × ((decide_state primary secondary ≡ disagreed)
          ↔ (Conflicts primary ⊎ (Conflicts secondary ⊎ Differ primary secondary)))
unfolding decide_state
decide_state-classifies primary secondary = elim (Bool-cases (is_conflict primary)) [
  | inl p ↦ rw p (
    (λ h. cc h, λ (d, a, b). absurd (a.1 (is_conflict-Conflicts primary p))),
    (λ h. inl (is_conflict-Conflicts primary p), λ h. refl),
  )
  | inr p ↦ elim (Bool-cases (is_conflict secondary)) [
    | inl s ↦
        rw (p, s)
          (
            (λ h. cc h, λ (d, a, b). absurd (b.1 (is_conflict-Conflicts secondary s))),
            (λ h. inr (inl (is_conflict-Conflicts secondary s)), λ h. refl),
          )
    | inr s ↦ rw (p, s) (clear-agreed primary secondary p s, clear-disagreed primary secondary p s)
  ]
]
