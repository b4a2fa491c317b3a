-- ===== src/Core/ParseTransaction/Watched.antt =====
-- With a watched address, no token instruction that touches it is passed over.
use mathlib.Core.List.{Memᴰ}
use mathlib.Core.List.Memᴰ
use solana_payment_ops.Common.{
  ℕ, zero, suc, ◌≡◌, ◌≢◌, refl, ap, sym, ◌∙◌, subst, String, Bool, true, false, Option, some, List,
  [], ◌∷◌, ◌++◌, arith, All, All-mono, get_elem?, any, ◌===◌, ===_iff, if◌then◌else◌,
}
use solana_payment_ops.Common.Result.{ok, >>=-eq-ok}
use solana_payment_ops.Core.Types.{
  ResolvedAccountKey, CompiledInstruction, RpcTransactionEnvelope, ParsedTransfer,
  legacy_token_program_address, token_2022_program_address,
}
use solana_payment_ops.Core.AccountKeys.{resolve_account_keys}
use solana_payment_ops.Core.TokenInstruction.{
  TokenInstructionDecode, transfer, transfer_checked, unsupported, malformed,
  decode_token_instruction,
}
use solana_payment_ops.Core.ParseTransaction.{
  InstructionLocation, EvidenceError, token_2022_unsupported, affects, address_is, reject,
  parse_decoded, parse_location, parse_locations, parse_transaction_transfers, parsed_transfer,
  collect_instruction_locations,
}
use solana_payment_ops.Core.ParseTransaction.Inversion.{
  IsTransferOf, reject-none, parse_checked-One, parse_legacy-One,
}

-- The instruction lists an account whose resolved address is the watched one.
pub record Touches (keys : List ResolvedAccountKey) (watched : String)
    (instruction : CompiledInstruction) : Type 0 where
  pub position : ℕ
  pub index : ℕ
  pub key : ResolvedAccountKey
  pub listed : get_elem? instruction.accounts position ≡ some index
  pub resolved : get_elem? keys index ≡ some key
  pub address : key.address ≡ watched

any-of_get {ℓ} :
    {A : Type ℓ} (p : A → Bool) (xs : List A) (i : ℕ) (a : A)
    → get_elem? xs i ≡ some a
    → p a ≡ true
    → any p xs ≡ true
any-of_get p [] i a e h = cc
any-of_get p (x ∷ xs) zero a e h = ground arith
any-of_get p (x ∷ xs) (suc i) a e h = ground (arith, any-of_get p xs i a e h)

address_is-of_get :
    (keys : List ResolvedAccountKey) (index : ℕ) (key : ResolvedAccountKey) (watched : String)
    → get_elem? keys index ≡ some key
    → key.address ≡ watched
    → address_is (get_elem? keys index) watched ≡ true
address_is-of_get keys index key watched found same =
    rw found ((===_iff key.address watched).1 same)

Touches-affects :
    (keys : List ResolvedAccountKey) (watched : String) (instruction : CompiledInstruction)
    → Touches keys watched instruction
    → affects keys (some watched) instruction ≡ true
unfolding affects
Touches-affects keys watched instruction t =
    any-of_get (λ index. address_is (get_elem? keys index) watched) instruction.accounts t.position
      t.index t.listed (address_is-of_get keys t.index t.key watched t.resolved t.address)

-- A transfer with the coordinates of an instruction is in the list.
pub record IsReported (l : InstructionLocation) (ts : List ParsedTransfer) : Type 0 where
  pub transfer : ParsedTransfer
  pub listed : Memᴰ transfer ts
  pub outer : transfer.outer_instruction_index ≡ l.outer_instruction_index
  pub inner : transfer.inner_instruction_index ≡ l.inner_instruction_index

-- What must hold of a touching instruction: it is not of Token-2022, and if it is of the legacy
-- token program its transfer is in the list.
abbrev pub IsAccounted :
    List ResolvedAccountKey → String → List ParsedTransfer → InstructionLocation → Type 0
IsAccounted keys watched ts l =
    Touches keys watched l.instruction
    → (program : ResolvedAccountKey) → get_elem? keys l.instruction.program_id_index ≡ some program
    → (program.address ≢ token_2022_program_address)
      × (program.address ≡ legacy_token_program_address → IsReported l ts)

module _ (tx : RpcTransactionEnvelope) (keys : List ResolvedAccountKey) (l : InstructionLocation)
    (program : String) where
  reported :
      {ts : List ParsedTransfer}
      → ((t : ParsedTransfer) × (ts ≡ t ∷ []) × IsTransferOf tx keys l program t)
      → IsReported l ts
  unfolding parsed_transfer
  reported (t, one, of) = record {
    transfer = t;
    listed = subst (Memᴰ t) (sym one) (Memᴰ.head refl);
    outer = ap (λ u. u.outer_instruction_index) of.built;
    inner = ap (λ u. u.inner_instruction_index) of.built;
  }

  parse_decoded-IsReported :
      (affected : Bool) (d : TokenInstructionDecode) {ts : List ParsedTransfer}
      → affected ≡ true
      → parse_decoded tx keys l program affected d ≡ ok ts
      → IsReported l ts
  unfolding parse_decoded
  parse_decoded-IsReported affected (unsupported n) touched h =
      absurd (cc (sym touched ∙ (reject-none tx keys l program affected _ h).0))
  parse_decoded-IsReported affected (malformed n) touched h =
      absurd (cc (sym touched ∙ (reject-none tx keys l program affected _ h).0))
  parse_decoded-IsReported affected (transfer amount) touched h =
      reported (parse_legacy-One tx keys l program amount h)
  parse_decoded-IsReported affected (transfer_checked amount decimals) touched h =
      reported (parse_checked-One tx keys l program amount decimals h)

  by_program-IsAccounted :
      (affected token_2022 legacy : Bool) (e : EvidenceError) (d : TokenInstructionDecode)
      {ts : List ParsedTransfer}
      → affected ≡ true
      → (if token_2022
          then reject affected e
          else if legacy
          then parse_decoded tx keys l program affected d
          else ok [])
        ≡ ok ts
      → (token_2022 ≡ false) × (legacy ≡ true → IsReported l ts)
  by_program-IsAccounted affected true legacy e d touched h =
      absurd (cc (sym touched ∙ (reject-none tx keys l program affected e h).0))
  by_program-IsAccounted affected false true e d touched h =
      (refl, λ _. parse_decoded-IsReported affected d touched h)
  by_program-IsAccounted affected false false e d touched h = (refl, λ q. absurd (cc))

module _ (decode : String → Option (List ℕ)) (tx : RpcTransactionEnvelope) (watched : String)
    (keys : List ResolvedAccountKey) where
  parse_location-IsAccounted :
      (l : InstructionLocation) {ts : List ParsedTransfer}
      → parse_location decode tx (some watched) keys l ≡ ok ts
      → IsAccounted keys watched ts l
  unfolding parse_location
  parse_location-IsAccounted l {ts} h touches program found =
      let (not_2022, legacy_reported) =
        by_program-IsAccounted tx keys l program.address (affects keys (some watched) l.instruction)
          (program.address === token_2022_program_address)
          (program.address === legacy_token_program_address) token_2022_unsupported
          (decode_token_instruction decode l.instruction.instruction_data)
          (Touches-affects keys watched l.instruction touches) (rw (found, parse_location) at h) in
      (
        λ is.
            absurd
              (cc (sym ((===_iff program.address token_2022_program_address).1 is) ∙ not_2022)),
        λ is. legacy_reported ((===_iff program.address legacy_token_program_address).1 is),
      )

  IsReported-append_left :
      (l : InstructionLocation) (xs ys : List ParsedTransfer)
      → IsReported l xs
      → IsReported l (xs ++ ys)
  IsReported-append_left l xs ys r = record {
    transfer = r.transfer;
    listed = Memᴰ.append_left ys r.listed;
    outer = r.outer;
    inner = r.inner;
  }

  IsReported-append_right :
      (l : InstructionLocation) (xs ys : List ParsedTransfer)
      → IsReported l ys
      → IsReported l (xs ++ ys)
  IsReported-append_right l xs ys r = record {
    transfer = r.transfer;
    listed = Memᴰ.append_right xs r.listed;
    outer = r.outer;
    inner = r.inner;
  }

  IsAccounted-mono :
      (xs ts : List ParsedTransfer) (l : InstructionLocation)
      → (IsReported l xs → IsReported l ts)
      → IsAccounted keys watched xs l
      → IsAccounted keys watched ts l
  IsAccounted-mono xs ts l more a touches program found =
      let (not_2022, legacy) = a touches program found in (not_2022, λ is. more (legacy is))

  parse_locations-IsAccounted :
      (ls : List InstructionLocation) {ts : List ParsedTransfer}
      → parse_locations decode tx (some watched) keys ls ≡ ok ts
      → All (IsAccounted keys watched ts) ls
  unfolding parse_locations
  parse_locations-IsAccounted [] h = tt
  parse_locations-IsAccounted (l ∷ ls) {ts} h =
      let (xs, e, r) = >>=-eq-ok (parse_location decode tx (some watched) keys l) _ h in
      let (ys, e', r') = >>=-eq-ok (parse_locations decode tx (some watched) keys ls) _ r in
      let whole : xs ++ ys ≡ ts = cc r' in
      (
        IsAccounted-mono xs ts l
            (λ q. subst (IsReported l) whole (IsReported-append_left l xs ys q))
            (parse_location-IsAccounted l e),
        All-mono _
            (λ m.
              IsAccounted-mono ys ts m
                (λ q. subst (IsReported m) whole (IsReported-append_right m xs ys q)))
            ls (parse_locations-IsAccounted ls e'),
      )

-- When a parse with a watched address returns, every instruction of the transaction, outer or inner,
-- that lists the watched address among its accounts is not of the Token-2022 program, and if it is
-- of the legacy token program then a transfer with its coordinates is among those returned.
pub parse_transaction_transfers-IsAccounted :
    (decode : String → Option (List ℕ)) (tx : RpcTransactionEnvelope) (watched : String)
    {ts : List ParsedTransfer}
    → parse_transaction_transfers decode tx (some watched) ≡ ok ts
    → All
        (IsAccounted (resolve_account_keys tx.message tx.meta.loaded_addresses) watched ts)
        (collect_instruction_locations tx)
unfolding parse_transaction_transfers
parse_transaction_transfers-IsAccounted decode tx watched h =
    parse_locations-IsAccounted decode tx watched
      (resolve_account_keys tx.message tx.meta.loaded_addresses) (collect_instruction_locations tx)
      h
