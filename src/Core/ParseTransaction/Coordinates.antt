-- ===== src/Core/ParseTransaction/Coordinates.antt =====
-- No two transfers that one parse returns share an event identifier.
use solana_payment_ops.Common.{
  ℕ, ◌+◌, ◌<◌, ◌≤◌, ◌≡◌, ◌≢◌, refl, ap, sym, ◌∙◌, subst, ◌⊎◌, inl, inr, String, Option, none, some,
  List, [], ◌∷◌, ◌++◌, arith, All, All-append, All-mono, Pairwise, Pairwise-append,
}
use solana_payment_ops.Common.Result.{ok, >>=-eq-ok}
use solana_payment_ops.Common.Decimal.{Text}
use solana_payment_ops.Core.Types.{
  CompiledInstruction, InnerInstructions, ResolvedAccountKey, RpcTransactionEnvelope,
  ParsedTransfer,
}
use solana_payment_ops.Core.AccountKeys.{resolve_account_keys}
use solana_payment_ops.Core.ParseTransaction.{
  InstructionLocation, outer_locations, inner_locations, group_locations, inner_groups,
  collect_instruction_locations, event_id_text, parse_location, parse_locations, parsed_transfer,
  parse_transaction_transfers,
}
use solana_payment_ops.Core.ParseTransaction.Inversion.{IsTransferOf, parse_location-One}
use solana_payment_ops.Core.Types.{legacy_token_program_address}
use solana_payment_ops.Core.ParseTransaction.Event.{event_id_text-injective}

-- Two instructions of one transaction that differ in their coordinates.
abbrev Apart : InstructionLocation → InstructionLocation → Type 0
Apart l m =
    (l.outer_instruction_index ≢ m.outer_instruction_index)
    ⊎ (l.inner_instruction_index ≢ m.inner_instruction_index)

-- The groups of inner instructions name different outer instructions, as the schema demands.
abbrev pub HasDistinctParents : List InnerInstructions → Type 0
HasDistinctParents = Pairwise (λ g h. g.index ≢ h.index)

outer_locations-bounds :
    (index : ℕ) (is : List CompiledInstruction)
    → All
        (λ l. (index ≤ l.outer_instruction_index) × (l.inner_instruction_index ≡ none))
        (outer_locations index is)
unfolding outer_locations
outer_locations-bounds index [] = tt
outer_locations-bounds index (i ∷ is) = (
  (omega arith, refl),
  All-mono _ (λ l h. (omega arith, h.1)) (outer_locations (index + 1) is)
      (outer_locations-bounds (index + 1) is),
)

outer_locations-Pairwise :
    (index : ℕ) (is : List CompiledInstruction) → Pairwise Apart (outer_locations index is)
unfolding outer_locations
outer_locations-Pairwise index [] = tt
outer_locations-Pairwise index (i ∷ is) = (
  All-mono _ (λ l h. inl (omega arith)) (outer_locations (index + 1) is)
      (outer_locations-bounds (index + 1) is),
  outer_locations-Pairwise (index + 1) is,
)

-- Below a parent, with an inner index from `index` on.
abbrev Inside : ℕ → ℕ → InstructionLocation → Type 0
Inside parent index l =
    (l.outer_instruction_index ≡ parent)
    × ((k : ℕ) × (l.inner_instruction_index ≡ some k) × (index ≤ k))

inner_locations-Inside :
    (parent index : ℕ) (is : List CompiledInstruction)
    → All (Inside parent index) (inner_locations parent index is)
unfolding inner_locations
inner_locations-Inside parent index [] = tt
inner_locations-Inside parent index (i ∷ is) = (
  (refl, (index, refl, omega arith)),
  All-mono _ (λ l h. (h.0, (h.1.0, h.1.1, omega arith))) (inner_locations parent (index + 1) is)
      (inner_locations-Inside parent (index + 1) is),
)

some-ne : (i : ℕ) (o : Option ℕ) (k : ℕ) → o ≡ some k → i < k → some i ≢ o
some-ne i o k e lt same = absurd (ground arith)

inner_locations-Pairwise :
    (parent index : ℕ) (is : List CompiledInstruction)
    → Pairwise Apart (inner_locations parent index is)
unfolding inner_locations
inner_locations-Pairwise parent index [] = tt
inner_locations-Pairwise parent index (i ∷ is) = (
  All-mono _ (λ l h. inr (some-ne index l.inner_instruction_index h.1.0 h.1.1 (omega arith)))
      (inner_locations parent (index + 1) is) (inner_locations-Inside parent (index + 1) is),
  inner_locations-Pairwise parent (index + 1) is,
)

-- Inner locations of one parent against the later groups.
group_locations-foreign :
    (parent : ℕ) (gs : List InnerInstructions)
    → All (λ g. parent ≢ g.index) gs
    → All (λ l. parent ≢ l.outer_instruction_index) (group_locations gs)
unfolding group_locations
group_locations-foreign parent [] h = tt
group_locations-foreign parent (g ∷ gs) h =
    All-append _ (inner_locations g.index 0 g.instructions) (group_locations gs)
      (All-mono _ (λ l i e. h.0 (e ∙ i.0)) (inner_locations g.index 0 g.instructions)
        (inner_locations-Inside g.index 0 g.instructions))
      (group_locations-foreign parent gs h.1)

group_locations-Pairwise :
    (gs : List InnerInstructions) → HasDistinctParents gs → Pairwise Apart (group_locations gs)
unfolding group_locations
group_locations-Pairwise [] h = tt
group_locations-Pairwise (g ∷ gs) h =
    Pairwise-append Apart (inner_locations g.index 0 g.instructions) (group_locations gs)
      (inner_locations-Pairwise g.index 0 g.instructions) (group_locations-Pairwise gs h.1)
      (All-mono _
        (λ l i.
          All-mono _ (λ m ne. inl (λ e. ne (sym i.0 ∙ e))) (group_locations gs)
            (group_locations-foreign g.index gs h.0))
        (inner_locations g.index 0 g.instructions)
        (inner_locations-Inside g.index 0 g.instructions))

group_locations-inner :
    (gs : List InnerInstructions) → All (λ l. l.inner_instruction_index ≢ none) (group_locations gs)
unfolding group_locations
group_locations-inner [] = tt
group_locations-inner (g ∷ gs) =
    All-append _ (inner_locations g.index 0 g.instructions) (group_locations gs)
      (All-mono _ (λ l i e. absurd (cc (sym e ∙ i.1.1))) (inner_locations g.index 0 g.instructions)
        (inner_locations-Inside g.index 0 g.instructions))
      (group_locations-inner gs)

collect-Pairwise :
    (tx : RpcTransactionEnvelope)
    → HasDistinctParents (inner_groups tx)
    → Pairwise Apart (collect_instruction_locations tx)
unfolding collect_instruction_locations
collect-Pairwise tx h =
    Pairwise-append Apart (outer_locations 0 tx.message.instructions)
      (group_locations (inner_groups tx)) (outer_locations-Pairwise 0 tx.message.instructions)
      (group_locations-Pairwise (inner_groups tx) h)
      (All-mono _
        (λ l b.
          All-mono _ (λ m ne. inr (λ e. ne (sym e ∙ b.1))) (group_locations (inner_groups tx))
            (group_locations-inner (inner_groups tx)))
        (outer_locations 0 tx.message.instructions)
        (outer_locations-bounds 0 tx.message.instructions))

module _ (decode : String → Option (List ℕ)) (tx : RpcTransactionEnvelope) (watched : Option String)
    (keys : List ResolvedAccountKey) where
  -- What holds of each transfer of an instruction holds of all that a parse returns.
  pub parse_locations-All :
      (Q : ParsedTransfer → Type 0) (P : InstructionLocation → Type 0)
      → ((l : InstructionLocation) (t : ParsedTransfer)
          → P l
          → IsTransferOf tx keys l legacy_token_program_address t
          → Q t)
      → (ls : List InstructionLocation) {ts : List ParsedTransfer} → All P ls
      → parse_locations decode tx watched keys ls ≡ ok ts
      → All Q ts
  unfolding parse_locations
  parse_locations-All Q P each [] {ts} a h = subst (All Q) {x = []} {y = ts} (cc h) tt
  parse_locations-All Q P each (l ∷ ls) a h =
      let (xs, e, r) = >>=-eq-ok (parse_location decode tx watched keys l) _ h in
      let (ys, e', r') = >>=-eq-ok (parse_locations decode tx watched keys ls) _ r in
      let rest : All Q ys = parse_locations-All Q P each ls a.1 e' in
      let first : All Q xs = elim (parse_location-One decode tx watched keys l e) [
        | inl none_left ↦ subst (All Q) (sym none_left) tt
        | inr (t, one, of) ↦ subst (All Q) (sym one) (each l t a.0 of, tt)
      ] in
      subst (All Q) (cc r') (All-append Q xs ys first rest)

  abbrev location_id : InstructionLocation → Text
  location_id l =
      event_id_text tx.cluster tx.signature l.outer_instruction_index l.inner_instruction_index

  IsTransferOf-event_id :
      (l : InstructionLocation) (t : ParsedTransfer)
      → IsTransferOf tx keys l legacy_token_program_address t
      → t.event_id ≡ location_id l
  unfolding parsed_transfer
  IsTransferOf-event_id l t of = ap (λ u. u.event_id) of.built

  location_id-ne : (l m : InstructionLocation) → Apart l m → location_id l ≢ location_id m
  location_id-ne l m (inl outer) e =
      outer (event_id_text-injective tx.cluster tx.signature _ _ _ _ e).0
  location_id-ne l m (inr inner) e =
      inner (event_id_text-injective tx.cluster tx.signature _ _ _ _ e).1

  abbrev Different : ParsedTransfer → ParsedTransfer → Type 0
  Different s t = s.event_id ≢ t.event_id

  parse_locations-Different :
      (ls : List InstructionLocation) {ts : List ParsedTransfer}
      → Pairwise Apart ls
      → parse_locations decode tx watched keys ls ≡ ok ts
      → Pairwise Different ts
  unfolding parse_locations
  parse_locations-Different [] {ts} a h = subst (Pairwise Different) {x = []} {y = ts} (cc h) tt
  parse_locations-Different (l ∷ ls) a h =
      let (xs, e, r) = >>=-eq-ok (parse_location decode tx watched keys l) _ h in
      let (ys, e', r') = >>=-eq-ok (parse_locations decode tx watched keys ls) _ r in
      let rest : Pairwise Different ys = parse_locations-Different ls a.1 e' in
      elim (parse_location-One decode tx watched keys l e) [
        | inl none_left ↦
            subst (Pairwise Different) (ap (λ zs. zs ++ ys) (sym none_left) ∙ cc r') rest
        | inr (t, one, of) ↦ subst (Pairwise Different) (ap (λ zs. zs ++ ys) (sym one) ∙ cc r') (
          parse_locations-All (Different t) (Apart l)
              (λ m u apart of' same.
                location_id-ne l m apart
                  (sym (IsTransferOf-event_id l t of) ∙ same ∙ IsTransferOf-event_id m u of'))
              ls a.0 e',
          rest,
        )
      ]

-- Where no two groups of inner instructions name the same outer instruction, no two transfers that
-- one parse of a transaction returns have the same event identifier.
pub parse_transaction_transfers-event_ids :
    (decode : String → Option (List ℕ)) (tx : RpcTransactionEnvelope) (watched : Option String)
    {ts : List ParsedTransfer}
    → HasDistinctParents (inner_groups tx)
    → parse_transaction_transfers decode tx watched ≡ ok ts
    → Pairwise (λ s t. s.event_id ≢ t.event_id) ts
unfolding parse_transaction_transfers
parse_transaction_transfers-event_ids decode tx watched distinct h =
    parse_locations-Different decode tx watched
      (resolve_account_keys tx.message tx.meta.loaded_addresses) (collect_instruction_locations tx)
      (collect-Pairwise tx distinct) h
