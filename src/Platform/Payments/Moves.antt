-- ===== src/Platform/Payments/Moves.antt =====
-- The state machine that a payment's public status follows, apart from any storage.
use mathlib.Core.List.{append-nil, append_assoc}
use solana_payment_ops.Common.{
  ℕ, suc, ◌≡◌, ◌⊎◌, inl, inr, refl, sym, ap, ◌∙◌, subst, String, true, List, [], ◌∷◌, ◌++◌, arith,
  OneOf,
}
use solana_payment_ops.Platform.Payments.Types.{
  PublicStatus, awaiting_payment, detected, confirmed, finalized, paid, expired,
  confirmation_revoked, exception, AttemptState, Reason, StatusChange, Store,
}
use solana_payment_ops.Platform.Payments.Advance.{
  is_observation, can_advance, advance_projection, is_revocable,
}

-- The statuses that may follow one another. A payment is seen as far as the chain has got, once or
-- again after a revocation; the chain may revoke it until it is finalized; only a finalized or an
-- expired one is booked, and what is booked stays.
abbrev pub successors : PublicStatus → List PublicStatus
successors awaiting_payment = detected ∷ confirmed ∷ finalized ∷ []
successors detected = confirmed ∷ finalized ∷ confirmation_revoked ∷ []
successors confirmed = finalized ∷ confirmation_revoked ∷ []
successors finalized = paid ∷ exception ∷ []
successors expired = paid ∷ exception ∷ []
successors confirmation_revoked = detected ∷ confirmed ∷ finalized ∷ []
successors paid = []
successors exception = []

-- A move of the state machine.
abbrev pub Move : PublicStatus → PublicStatus → Type 0
Move from to = OneOf to (successors from)

-- What is observed in a status that it advances is one of its successors.
pub observes :
    (from to : PublicStatus) → can_advance from to ≡ true → is_observation to ≡ true → Move from to
observes awaiting_payment to h k = ground arith
observes detected to h k = ground arith
observes confirmed to h k = ground arith
observes finalized to h k = ground arith
observes paid to h k = ground arith
observes expired to h k = ground arith
observes confirmation_revoked to h k = ground arith
observes exception to h k = ground arith

pub revokes : (from : PublicStatus) → is_revocable from ≡ true → Move from confirmation_revoked
revokes from h = ground arith

-- Of the statuses that await a booking, either booking is a successor.
pub books :
    (from : PublicStatus)
    → (from ≡ finalized) ⊎ (from ≡ expired)
    → Move from paid × Move from exception
books from (inl e) = subst (λ s. Move s paid × Move s exception) (sym e) (inl refl, inr (inl refl))
books from (inr e) = subst (λ s. Move s paid × Move s exception) (sym e) (inl refl, inr (inl refl))

-- A history that leads from one status to another by moves, its versions counted up.
abbrev pub Trail : PublicStatus → ℕ → List StatusChange → PublicStatus → ℕ → Type 0
Trail from v [] to w = (from ≡ to) × (v ≡ w)
Trail from v (c ∷ cs) to w =
    (c.from_status ≡ from)
    × (c.source_version ≡ suc v)
    × Move from c.to_status
    × Trail c.to_status (suc v) cs to w

pub Trail-append :
    (from : PublicStatus) (v : ℕ) (cs ds : List StatusChange) (mid to : PublicStatus) (u w : ℕ)
    → Trail from v cs mid u
    → Trail mid u ds to w
    → Trail from v (cs ++ ds) to w
Trail-append from v [] ds mid to u w h k =
    subst (λ s. Trail s v ds to w) (sym h.0) (subst (λ n. Trail mid n ds to w) (sym h.1) k)
Trail-append from v (c ∷ cs) ds mid to u w h k =
    (h.0, h.1, h.2, Trail-append c.to_status (suc v) cs ds mid to u w h.3 k)

-- A store that goes on from another: its history goes on by moves, to its status and version.
abbrev pub GoesOn : Store → Store → Type 0
GoesOn s t =
    (changes : List StatusChange) × (t.history ≡ s.history ++ changes)
    × Trail s.public_status s.projection_version changes t.public_status t.projection_version

pub GoesOn-refl : (s : Store) → GoesOn s s
GoesOn-refl s = ([], sym (append-nil s.history), (refl, refl))

pub GoesOn-trans : (s t u : Store) → GoesOn s t → GoesOn t u → GoesOn s u
GoesOn-trans s t u h k = (
  h.0 ++ k.0,
  k.1 ∙ ap (λ (l : List StatusChange). l ++ k.0) h.1 ∙ append_assoc s.history h.0 k.0,
  Trail-append s.public_status s.projection_version h.0 k.0 t.public_status u.public_status
      t.projection_version u.projection_version h.2 k.2,
)

pub advance_projection-GoesOn :
    (s : Store) (event_id : String) (to : PublicStatus) (state : AttemptState) (reason : Reason)
    (now : ℕ)
    → Move s.public_status to
    → GoesOn s (advance_projection s event_id to state reason now)
unfolding advance_projection
advance_projection-GoesOn s event_id to state reason now move =
    (_, refl, (refl, refl, move, (refl, refl)))
