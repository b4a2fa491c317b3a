-- ===== src/Platform/Payments/Final.antt =====
-- What `projectOne` of packages/platform/src/payments/status-projector.ts does with a payment that is
-- settled: it leaves it alone.
use solana_payment_ops.Common.{
  ◌≡◌, ◌⊎◌, inl, inr, refl, sym, ap, ◌∙◌, Bool, true, false, if◌then◌else◌, arith, Bool-cases,
  Option-cases,
}
use solana_payment_ops.Common.Result.{Result, ok, ok-injective}
use solana_payment_ops.Platform.Payments.Types.{
  PublicStatus, awaiting_payment, detected, confirmed, finalized, paid, expired,
  confirmation_revoked, exception, Expectation, Store, ChainEvent, ActivationMode, shadow, live,
  ProjectionContext, ProjectionResult, not_found, unchanged, proposed, ProjectionError,
}
use solana_payment_ops.Platform.Payments.Advance.{
  is_observation, can_advance, observed_status, is_revoked_chain_state, is_finalized, is_settled,
  is_revocable, project_revocation,
}
use solana_payment_ops.Platform.Payments.Project.{
  project_live, project_shadow, has_root, project_mode, project_one,
}
use solana_payment_ops.Platform.Payments.Invariant.{below-paid, below-exception}
use solana_payment_ops.Platform.Payments.Reach.{target-observation, Reaches, start, run}

settled-status : (p : PublicStatus) → (p ≡ paid) ⊎ (p ≡ exception) → is_settled p ≡ true
settled-status p (inl e) = ap is_settled e
settled-status p (inr e) = ap is_settled e

-- A settled payment is neither advanced nor revoked.
settled-fixed :
    (p target : PublicStatus)
    → is_settled p ≡ true
    → is_observation target ≡ true
    → (can_advance p target ≡ false) × (is_revocable p ≡ false)
settled-fixed awaiting_payment target h k = cc h
settled-fixed detected target h k = cc h
settled-fixed confirmed target h k = cc h
settled-fixed finalized target h k = cc h
settled-fixed paid target h k = (below-paid target k, refl)
settled-fixed expired target h k = cc h
settled-fixed confirmation_revoked target h k = cc h
settled-fixed exception target h k = (below-exception target, refl)

-- A run that leaves the store as it is, whatever it reports.
abbrev Leaves : Store → Result ProjectionError (ProjectionResult × Store) → Type 0
Leaves s call = (result : ProjectionResult) × (call ≡ ok (result, s))

module _ (world : ProjectionContext) (expectation : Expectation) (s : Store) (event : ChainEvent)
    (settled : is_settled s.public_status ≡ true) where
  settled-revocation : project_revocation s event world.now ≡ (unchanged, s)
  unfolding project_revocation
  settled-revocation = rw (settled-fixed s.public_status detected settled refl).1 refl

  settled-live : Leaves s (project_live world expectation s event)
  unfolding project_live
  settled-live = elim (Option-cases (observed_status event.current_state)) [
    | inl e ↦ (unchanged, rw (e, settled-revocation) refl)
    | inr (target, e) ↦
        let cannot =
          (settled-fixed s.public_status target settled
            (target-observation event.current_state target e)).0 in
        (unchanged, rw e (ground arith))
  ]

  settled-shadow : (result : ProjectionResult) × (project_shadow world s event ≡ (result, s))
  unfolding project_shadow
  settled-shadow = elim (Bool-cases (is_revoked_chain_state event.current_state)) [
    | inl e ↦ (unchanged, rw (e, settled-revocation) refl)
    | inr e ↦ elim (Bool-cases (is_finalized event.current_state)) [
      | inl f ↦ (proposed world.shadow_created, rw (e, f) refl)
      | inr f ↦ (unchanged, rw (e, f) refl)
    ]
  ]

  abbrev granted : Bool → Result ProjectionError (ProjectionResult × Store)
  granted authority =
      if authority then project_live world expectation s event else ok (unchanged, s)

  settled-mode : (mode : ActivationMode) → Leaves s (project_mode world expectation s event mode)
  settled-mode shadow = (settled-shadow.0, rw settled-shadow.1 refl)
  settled-mode live = elim (Bool-cases world.has_authority) [
    | inl e ↦ (settled-live.0, ap granted e ∙ settled-live.1)
    | inr e ↦ (unchanged, ap granted e)
  ]

  settled-Leaves : Leaves s (project_one world expectation s event)
  unfolding project_one
  settled-Leaves = elim (Bool-cases (has_root expectation s event)) [
    | inl e ↦ let run = settled-mode world.activation_mode in (run.0, rw e run.1)
    | inr e ↦ (not_found, rw e refl)
  ]

-- A payment that is paid or an exception is final: whether or not it is still expected, no event
-- and no circumstances change its store.
pub Reaches-final :
    (expectation : Expectation) (s t : Store)
    → (s.public_status ≡ paid) ⊎ (s.public_status ≡ exception)
    → Reaches expectation s t
    → t ≡ s
Reaches-final expectation s t settled start = refl
Reaches-final expectation s t settled (run world event result path h) =
    let before = Reaches-final expectation s _ settled path in
    let idle = settled-Leaves world expectation s event (settled-status s.public_status settled) in
    ap (λ (o : ProjectionResult × Store). o.1)
      (ok-injective
        (sym h ∙ ap (λ (r : Store). project_one world expectation r event) before ∙ idle.1))
