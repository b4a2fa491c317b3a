-- ===== src/Platform/Payments/Reach.antt =====
-- The stores that any sequence of events and circumstances can lead to through `projectOne` of
-- packages/platform/src/payments/status-projector.ts.
use solana_payment_ops.Common.{
  ℕ, ◌≡◌, inl, inr, refl, sym, ap, ◌∙◌, subst, String, Bool, true, false, ◌&&◌, ◌||◌, not, some,
  List, ◌++◌, if◌then◌else◌, length, arith, Bool-cases, Option-cases, if-both,
}
use solana_payment_ops.Common.Result.{Result, ok, ok-injective}
use solana_payment_ops.Reconciliation.Types.{ReconciliationDecision}
use solana_payment_ops.Platform.Payments.Types.{
  ChainState, chain_detected, chain_confirmed, chain_finalized, chain_failed, chain_reverted,
  chain_quarantined, PublicStatus, awaiting_payment, detected, confirmed, finalized, paid, expired,
  confirmation_revoked, exception, invoice_settled, StatusChange, Expectation, Store, ChainEvent,
  ActivationMode, shadow, live, ProjectionContext, ProjectionResult, not_found, unchanged,
  ProjectionError,
}
use solana_payment_ops.Platform.Payments.Advance.{
  is_observation, can_advance, observed_status, is_revoked_chain_state, is_finalized, is_settled,
  is_paid, is_exception, advance_projection, changed_to, move_to, advance_observed_state,
}
use solana_payment_ops.Platform.Payments.Project.{
  plan_decision, project_decision, project_plan, is_agreed, project_live, project_shadow, has_root,
  project_mode, project_one,
}
use solana_payment_ops.Platform.Payments.Moves.{Trail}
use solana_payment_ops.Platform.Payments.Invariant.{
  IsBooked, Steps, Steps-refl, Steps-trans, move_to-Steps, project_revocation-Steps, one_if,
}
use solana_payment_ops.Platform.Payments.Settled.{AwaitsBooking, project_decision-Steps}

finalized-target :
    (c : ChainState) (t : PublicStatus)
    → observed_status c ≡ some t
    → is_finalized c ≡ true
    → t ≡ finalized
finalized-target chain_detected t h k = cc k
finalized-target chain_confirmed t h k = cc k
finalized-target chain_finalized t h k = cc h
finalized-target chain_failed t h k = cc k
finalized-target chain_reverted t h k = cc k
finalized-target chain_quarantined t h k = cc k

pub target-observation :
    (c : ChainState) (t : PublicStatus) → observed_status c ≡ some t → is_observation t ≡ true
target-observation chain_detected t h =
    let e : detected ≡ t = cc h in subst (λ s. is_observation s ≡ true) e refl
target-observation chain_confirmed t h =
    let e : confirmed ≡ t = cc h in subst (λ s. is_observation s ≡ true) e refl
target-observation chain_finalized t h =
    let e : finalized ≡ t = cc h in subst (λ s. is_observation s ≡ true) e refl
target-observation chain_failed t h = cc h
target-observation chain_reverted t h = cc h
target-observation chain_quarantined t h = cc h

pub stuck-awaits :
    (s : PublicStatus) → can_advance s finalized ≡ false → is_settled s ≡ false → AwaitsBooking s
stuck-awaits awaiting_payment h k = cc h
stuck-awaits detected h k = cc h
stuck-awaits confirmed h k = cc h
stuck-awaits finalized h k = inl refl
stuck-awaits paid h k = cc k
stuck-awaits expired h k = inr refl
stuck-awaits confirmation_revoked h k = cc h
stuck-awaits exception h k = cc k

-- After the observed state, a run ends there or books.
project_plan-Steps :
    (world : ProjectionContext) (expectation : Expectation) (s latest : Store) (event : ChainEvent)
    (decision : ReconciliationDecision) (moved : Bool) (out : ProjectionResult × Store)
    → Steps s latest
    → (is_finalized event.current_state ≡ true
        → is_settled latest.public_status ≡ false
        → AwaitsBooking latest.public_status)
    → project_plan world expectation event decision (moved, latest) ≡ ok out
    → Steps s out.1
project_plan-Steps world expectation s latest event decision moved out step awaits h =
    elim (Bool-cases (not (is_finalized event.current_state) || is_settled latest.public_status)) [
      | inl ends ↦
          let ended : ok (if moved then changed_to latest else (unchanged, latest)) ≡ ok out =
            rw ends at h in
          subst (λ (o : ProjectionResult × Store). Steps s o.1) (ok-injective ended)
            (if-both (λ (o : ProjectionResult × Store). Steps s o.1) moved _ _ (λ _. step)
              (λ _. step))
      | inr books ↦
          let booked : project_decision world expectation latest event decision ≡ ok out =
            rw books at h in
          let facts : (is_finalized event.current_state ≡ true)
              × (is_settled latest.public_status ≡ false) =
            ground arith in
          Steps-trans s latest out.1 step (
            project_decision-Steps world expectation latest event decision out booked
              (awaits facts.0 facts.1))
    ]

pub move_to-status :
    (s : Store) (event_id : String) (target : PublicStatus) (now : ℕ)
    → (move_to s event_id target now).public_status ≡ target
unfolding move_to advance_projection
move_to-status s event_id target now = refl

project_observed-Steps :
    (world : ProjectionContext) (expectation : Expectation) (s : Store) (event : ChainEvent)
    (decision : ReconciliationDecision) (target : PublicStatus) (out : ProjectionResult × Store)
    → observed_status event.current_state ≡ some target
    → project_plan world expectation event decision
        (advance_observed_state s event.payment.event_id target world.now)
      ≡ ok out
    → Steps s out.1
project_observed-Steps world expectation s event decision target out e h =
    elim (Bool-cases (can_advance s.public_status target)) [
      | inl can ↦
          let moved : Store = move_to s event.payment.event_id target world.now in
          project_plan-Steps world expectation s moved event decision true out
            (move_to-Steps s event.payment.event_id target world.now can
              (target-observation event.current_state target e))
            (λ final _. inl (
              move_to-status s event.payment.event_id target world.now
              ∙ finalized-target event.current_state target e final))
            (rw can at h)
      | inr cannot ↦
          project_plan-Steps world expectation s s event decision false out (Steps-refl s)
            (λ final unsettled.
              let same = finalized-target event.current_state target e final in
              stuck-awaits s.public_status (ap (can_advance s.public_status) (sym same) ∙ cannot)
                unsettled)
            (rw cannot at h)
    ]

project_live-Steps :
    (world : ProjectionContext) (expectation : Expectation) (s : Store) (event : ChainEvent)
    (out : ProjectionResult × Store)
    → project_live world expectation s event ≡ ok out
    → Steps s out.1
unfolding project_live
project_live-Steps world expectation s event out h =
    elim (Option-cases (observed_status event.current_state)) [
      | inl e ↦
          subst (λ (o : ProjectionResult × Store). Steps s o.1) (ok-injective (rw e at h))
            (project_revocation-Steps s event world.now)
      | inr (target, e) ↦
          let test : Bool =
            is_finalized event.current_state
            && (world.is_dual_provider && not (is_agreed world.consensus)) in
          let plan : Result ProjectionError (ProjectionResult × Store) =
            project_plan world expectation event (plan_decision expectation s event)
              (advance_observed_state s event.payment.event_id target world.now) in
          let branch : (if test then ok (unchanged, s) else plan) ≡ ok out = rw e at h in
          of_test target e test plan branch refl
    ]
  where
    of_test :
        (target : PublicStatus)
        → observed_status event.current_state ≡ some target
        → (c : Bool) (plan : Result ProjectionError (ProjectionResult × Store))
        → (if c then ok (unchanged, s) else plan) ≡ ok out
        → plan
          ≡ project_plan world expectation event
              (plan_decision expectation s event)
              (advance_observed_state s event.payment.event_id target world.now)
        → Steps s out.1
    of_test target e true plan k same =
        subst (λ (o : ProjectionResult × Store). Steps s o.1) (ok-injective k) (Steps-refl s)
    of_test target e false plan k same =
        project_observed-Steps world expectation s event (plan_decision expectation s event) target
          out e (sym same ∙ k)

project_shadow-Steps :
    (world : ProjectionContext) (s : Store) (event : ChainEvent)
    → Steps s (project_shadow world s event).1
unfolding project_shadow
project_shadow-Steps world s event =
    if-both (λ (o : ProjectionResult × Store). Steps s o.1)
      (is_revoked_chain_state event.current_state) _ _
      (λ _. project_revocation-Steps s event world.now)
      (λ _.
        if-both (λ (o : ProjectionResult × Store). Steps s o.1) (is_finalized event.current_state) _
          _ (λ _. Steps-refl s) (λ _. Steps-refl s))

stays :
    (s : Store) (result : ProjectionResult) (out : ProjectionResult × Store)
    → ◌≡◌ {A = Result ProjectionError (ProjectionResult × Store)} (ok (result, s)) (ok out)
    → Steps s out.1
stays s result out h =
    subst (λ (o : ProjectionResult × Store). Steps s o.1) (ok-injective h) (Steps-refl s)

granted-Steps :
    (s : Store) (granted : Bool) (run : Result ProjectionError (ProjectionResult × Store))
    (out : ProjectionResult × Store)
    → (run ≡ ok out → Steps s out.1)
    → (if granted then run else ok (unchanged, s)) ≡ ok out
    → Steps s out.1
granted-Steps s true run out steps h = steps h
granted-Steps s false run out steps h = stays s unchanged out h

project_mode-Steps :
    (world : ProjectionContext) (expectation : Expectation) (s : Store) (event : ChainEvent)
    (mode : ActivationMode) (out : ProjectionResult × Store)
    → project_mode world expectation s event mode ≡ ok out
    → Steps s out.1
project_mode-Steps world expectation s event shadow out h =
    subst (λ (o : ProjectionResult × Store). Steps s o.1) (ok-injective h)
      (project_shadow-Steps world s event)
project_mode-Steps world expectation s event live out h =
    granted-Steps s world.has_authority (project_live world expectation s event) out
      (project_live-Steps world expectation s event out) h

project_one-Steps :
    (world : ProjectionContext) (expectation : Expectation) (s : Store) (event : ChainEvent)
    (out : ProjectionResult × Store)
    → project_one world expectation s event ≡ ok out
    → Steps s out.1
unfolding project_one
project_one-Steps world expectation s event out h =
    elim (Bool-cases (has_root expectation s event)) [
      | inl found ↦
          project_mode-Steps world expectation s event world.activation_mode out (rw found at h)
      | inr missing ↦ stays s not_found out (rw missing at h)
    ]

-- A run that commits adds to the payment's history a trail of moves, each to one of the successors
-- that a table of the statuses lists, with its version one higher than the one before, which leads
-- from the status and the version that the payment had to those that it then has.
pub project_one-GoesOn :
    (world : ProjectionContext) (expectation : Expectation) (s t : Store) (event : ChainEvent)
    (result : ProjectionResult)
    → project_one world expectation s event ≡ ok (result, t)
    → (changes : List StatusChange) × (t.history ≡ s.history ++ changes)
      × Trail s.public_status s.projection_version changes t.public_status t.projection_version
project_one-GoesOn world expectation s t event result h =
    (project_one-Steps world expectation s event (result, t) h).0

-- The stores that committed runs lead to, one after another, each with its own event and
-- surroundings. A run that throws leaves the store as it was.
pub data Reaches (expectation : Expectation) (s : Store) : Store → Type 0 where
  start : Reaches expectation s s
  run :
      {t u : Store} (world : ProjectionContext) (event : ChainEvent) (result : ProjectionResult)
      → Reaches expectation s t
      → project_one world expectation t event ≡ ok (result, u)
      → Reaches expectation s u

-- Of a payment that is booked as its status says, whatever events are projected, in whatever order
-- and circumstances, it stays so: one allocation when it is paid, one exception when it is an
-- exception, none of either before; it is expected as long as it is neither, and a paid one has its
-- invoice settled.
pub Reaches-IsBooked :
    (expectation : Expectation) (s t : Store)
    → Reaches expectation s t
    → IsBooked s
    → (t.is_expected ≡ not (is_settled t.public_status))
      × (length t.allocations ≡ one_if (is_paid t.public_status))
      × (length t.exceptions ≡ one_if (is_exception t.public_status))
      × (t.public_status ≡ paid → t.invoice_status ≡ invoice_settled)
Reaches-IsBooked expectation s t path booked =
    let kept = keeps t path booked in
    (kept.expected, kept.allocated_once, kept.excepted_once, kept.settles)
  where
    keeps : (t : Store) → Reaches expectation s t → IsBooked s → IsBooked t
    keeps t start booked = booked
    keeps t (run world event result path h) booked =
        (project_one-Steps world expectation _ event (result, t) h).1 (keeps _ path booked)
