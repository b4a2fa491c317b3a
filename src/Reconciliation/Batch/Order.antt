-- ===== src/Reconciliation/Batch/Order.antt =====
-- That a batch decides each event once, in the order of the event ids.
use mathlib.Core.List.{Permᴰ}
use mathlib.Core.List.Permᴰ
use solana_payment_ops.Common.{
  String, ◌≡◌, refl, ap₂, inl, inr, Bool, true, false, List, [], ◌∷◌, map, All, All-mono, Pairwise,
  Bool-cases,
}
use solana_payment_ops.Common.Map.{Map, values}
use solana_payment_ops.Reconciliation.Types.{InvoiceRecord, FinalizedPaymentEvent}
use solana_payment_ops.Reconciliation.Event.{reconcile_event}
use solana_payment_ops.Reconciliation.Event.Coordinates.{coordinates, body_of, reconcile_event-body}
use solana_payment_ops.Reconciliation.Batch.{
  settle, reconcile_events, insert_event, sort_events, reconcile_batch,
}

-- One decision for each event, with its coordinates, in the order given.
pub reconcile_events-bodies :
    (events : List FinalizedPaymentEvent) (m : Map InvoiceRecord)
    → map body_of (reconcile_events events m) ≡ map coordinates events
unfolding reconcile_events
reconcile_events-bodies [] m = refl
reconcile_events-bodies (event ∷ events) m =
    ap₂ (λ b bs. b ∷ bs) (reconcile_event-body event (values m))
      (reconcile_events-bodies events (settle (reconcile_event event (values m)) m))

module _ (at_most : String → String → Bool) where
  abbrev pub InOrder : FinalizedPaymentEvent → FinalizedPaymentEvent → Type 0
  InOrder e f = at_most e.event_id f.event_id ≡ true

  insert_event-Perm :
      (e : FinalizedPaymentEvent) (es : List FinalizedPaymentEvent)
      → Permᴰ (insert_event at_most e es) (e ∷ es)
  insert_event-Perm e [] = Permᴰ.refl _
  insert_event-Perm e (f ∷ fs) = elim (Bool-cases (at_most e.event_id f.event_id)) [
    | inl h ↦ rw h (Permᴰ.refl _)
    | inr h ↦ rw h (Permᴰ.trans (Permᴰ.cons refl (insert_event-Perm e fs)) (Permᴰ.swap refl refl))
  ]

  sort_events-Perm : (es : List FinalizedPaymentEvent) → Permᴰ (sort_events at_most es) es
  sort_events-Perm [] = Permᴰ.nil
  sort_events-Perm (e ∷ es) =
      Permᴰ.trans (insert_event-Perm e (sort_events at_most es))
        (Permᴰ.cons refl (sort_events-Perm es))

  insert_event-All :
      (P : FinalizedPaymentEvent → Type 0) (e : FinalizedPaymentEvent)
      (es : List FinalizedPaymentEvent)
      → P e
      → All P es
      → All P (insert_event at_most e es)
  insert_event-All P e [] p h = (p, tt)
  insert_event-All P e (f ∷ fs) p h = elim (Bool-cases (at_most e.event_id f.event_id)) [
    | inl c ↦ rw c (p, h)
    | inr c ↦ rw c (h.0, insert_event-All P e fs p h.1)
  ]

  module _ (total : (s t : String) → at_most s t ≡ false → at_most t s ≡ true)
      (transitive : (s t u : String)
        → at_most s t ≡ true
        → at_most t u ≡ true
        → at_most s u ≡ true) where
    insert_event-Pairwise :
        (e : FinalizedPaymentEvent) (es : List FinalizedPaymentEvent)
        → Pairwise InOrder es
        → Pairwise InOrder (insert_event at_most e es)
    insert_event-Pairwise e [] h = (tt, tt)
    insert_event-Pairwise e (f ∷ fs) h = elim (Bool-cases (at_most e.event_id f.event_id)) [
      | inl c ↦
          rw c (
            (c, All-mono (InOrder f) (λ g. transitive e.event_id f.event_id g.event_id c) fs h.0),
            h,
          )
      | inr c ↦
          rw c (insert_event-All (InOrder f) e fs (total _ _ c) h.0, insert_event-Pairwise e fs h.1)
    ]

    sort_events-Pairwise :
        (es : List FinalizedPaymentEvent) → Pairwise InOrder (sort_events at_most es)
    sort_events-Pairwise [] = tt
    sort_events-Pairwise (e ∷ es) = insert_event-Pairwise e _ (sort_events-Pairwise es)

  -- Where the comparison of ids is a total preorder, a batch makes exactly one decision for each
  -- event, carrying that event's coordinates: the decisions follow a rearrangement of the events
  -- in which the ids are in order.
  pub reconcile_batch-InOrder :
      (total : (s t : String) → at_most s t ≡ false → at_most t s ≡ true)
      (transitive : (s t u : String) → at_most s t ≡ true → at_most t u ≡ true → at_most s u ≡ true)
      (events : List FinalizedPaymentEvent) (invoices : List InvoiceRecord)
      → (sorted : List FinalizedPaymentEvent) × Permᴰ sorted events
        × Pairwise InOrder sorted
        × (map body_of (reconcile_batch at_most events invoices) ≡ map coordinates sorted)
  unfolding reconcile_batch
  reconcile_batch-InOrder total transitive events invoices = (
    sort_events at_most events,
    sort_events-Perm events,
    sort_events-Pairwise total transitive events,
    reconcile_events-bodies (sort_events at_most events) _,
  )
