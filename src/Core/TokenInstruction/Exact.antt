-- ===== src/Core/TokenInstruction/Exact.antt =====
-- Which byte strings decode to which instruction: `decodeTokenInstruction` accepts exactly the two
-- layouts of the SPL Token program.
use solana_payment_ops.Common.{
  ℕ, zero, suc, ◌+◌, ◌^◌, ◌<◌, ◌≡◌, refl, ap, sym, ◌∙◌, subst, ◌↔◌, String, Option, some,
  All-append_left, List, [], ◌∷◌, ◌++◌, arith, length, get_elem?, All,
}
use solana_payment_ops.Core.TokenInstruction.{
  transfer, transfer_checked, decode_bytes, read_u64_little_endian, decode_token_instruction,
}
use solana_payment_ops.Core.TokenInstruction.Layout.{
  IsByte, le_bytes, of_le_bytes, length-le_bytes, le_bytes-All, of_le_bytes-le_bytes,
  le_bytes-of_le_bytes, of_le_bytes-lt, read_u64_little_endian-eq,
}

-- The data of a `Transfer` of `amount`, and of a `TransferChecked`.
abbrev pub transfer_layout : ℕ → List ℕ
transfer_layout amount = 3 ∷ (le_bytes 8 amount ++ [])

abbrev pub transfer_checked_layout : ℕ → ℕ → List ℕ
transfer_checked_layout amount decimals = 12 ∷ (le_bytes 8 amount ++ decimals ∷ [])

read-layout :
    (first amount : ℕ) (post : List ℕ)
    → amount < 2 ^ 64
    → read_u64_little_endian (first ∷ (le_bytes 8 amount ++ post)) 1 ≡ some amount
read-layout first amount post h =
    read_u64_little_endian-eq first (le_bytes 8 amount) post (le_bytes-All 8 amount)
      (length-le_bytes 8 amount)
    ∙ ap some (of_le_bytes-le_bytes 8 amount h)

-- A list comes apart where its length does.
split_at :
    (n m : ℕ) (xs : List ℕ)
    → length xs ≡ n + m
    → (bs : List ℕ) × (post : List ℕ) × (xs ≡ bs ++ post) × (length bs ≡ n) × (length post ≡ m)
split_at zero m xs e = ([], xs, refl, refl, omega arith)
split_at (suc n) m [] e = absurd (omega arith)
split_at (suc n) m (x ∷ xs) e =
    let (bs, post, same, size, rest) = split_at n m xs (omega arith) in
    (x ∷ bs, post, ap (◌∷◌ x) same, ap suc size, rest)

decode_bytes-transfer_layout :
    (amount : ℕ) → amount < 2 ^ 64 → decode_bytes (transfer_layout amount) ≡ transfer amount
unfolding decode_bytes
decode_bytes-transfer_layout amount h = ground (arith, read-layout 3 amount [] h)

decode_bytes-transfer_checked_layout :
    (amount decimals : ℕ)
    → amount < 2 ^ 64
    → decode_bytes (transfer_checked_layout amount decimals) ≡ transfer_checked amount decimals
unfolding decode_bytes
decode_bytes-transfer_checked_layout amount decimals h =
    ground (arith, read-layout 12 amount (decimals ∷ []) h)

-- What has been tested when a `transferChecked` comes out, and when a `transfer` does.
transfer_checked-tested :
    (bytes : List ℕ) (amount decimals : ℕ)
    → decode_bytes bytes ≡ transfer_checked amount decimals
    → (get_elem? bytes 0 ≡ some 12)
      × (length bytes ≡ 10)
      × (read_u64_little_endian bytes 1 ≡ some amount)
      × (get_elem? bytes 9 ≡ some decimals)
unfolding decode_bytes
transfer_checked-tested bytes amount decimals e = ground arith

transfer-tested :
    (bytes : List ℕ) (amount : ℕ)
    → decode_bytes bytes ≡ transfer amount
    → (get_elem? bytes 0 ≡ some 3)
      × (length bytes ≡ 9)
      × (read_u64_little_endian bytes 1 ≡ some amount)
unfolding decode_bytes
transfer-tested bytes amount e = ground arith

-- A first byte, eight bytes and the rest: the number read is the one that the eight bytes spell.
record IsSplit (bytes : List ℕ) (first amount : ℕ) (post : List ℕ) : Type 0 where
  parts : bytes ≡ first ∷ (le_bytes 8 amount ++ post)
  range : amount < 2 ^ 64

read-IsSplit :
    (m : ℕ) (first : ℕ) (rest : List ℕ) (amount : ℕ)
    → All IsByte rest
    → length rest ≡ 8 + m
    → read_u64_little_endian (first ∷ rest) 1 ≡ some amount
    → (post : List ℕ) × IsSplit (first ∷ rest) first amount post × (length post ≡ m)
read-IsSplit m first rest amount h size e =
    let (bs, post, same, eight, len) = split_at 8 m rest size in
    let whole : All IsByte bs = All-append_left IsByte bs post (subst (All IsByte) same h) in
    let read : read_u64_little_endian (first ∷ rest) 1 ≡ some (of_le_bytes bs) =
      ap (λ r. read_u64_little_endian (first ∷ r) 1) same
      ∙ read_u64_little_endian-eq first bs post whole eight in
    let value : amount ≡ of_le_bytes bs = cc (sym e ∙ read) in
    let spelled : le_bytes 8 amount ≡ bs =
      rw value
        (subst (λ n. le_bytes n (of_le_bytes bs) ≡ bs) eight (le_bytes-of_le_bytes bs whole)) in
    (
      post,
      record {
        parts = ap (◌∷◌ first) same ∙ sym (ap (λ b. first ∷ (b ++ post)) spelled);
        range = rw value (subst (λ n. of_le_bytes bs < 256 ^ n) eight (of_le_bytes-lt bs whole));
      },
      len,
    )

nine-of-checked :
    (bytes : List ℕ) (first amount decimals last : ℕ)
    → bytes ≡ first ∷ (le_bytes 8 amount ++ last ∷ [])
    → get_elem? bytes 9 ≡ some decimals
    → last ≡ decimals
nine-of-checked bytes first amount decimals last parts e =
    cc (sym (ap (λ b. get_elem? b 9) parts) ∙ e)

decode_bytes-transfer_checked_sound :
    (bytes : List ℕ) (amount decimals : ℕ)
    → All IsByte bytes
    → decode_bytes bytes ≡ transfer_checked amount decimals
    → (bytes ≡ transfer_checked_layout amount decimals) × (amount < 2 ^ 64)
decode_bytes-transfer_checked_sound [] amount decimals h e =
    cc (transfer_checked-tested [] amount decimals e).0
decode_bytes-transfer_checked_sound (first ∷ rest) amount decimals h e =
    let (head, size, read, last) = transfer_checked-tested (first ∷ rest) amount decimals e in
    let twelve : first ≡ 12 = cc head in
    let (post, split, len) = read-IsSplit 1 first rest amount h.1 (omega arith) read in
    finish twelve post len last split
  where
    finish :
        first ≡ 12
        → (post : List ℕ) → length post ≡ 1
        → get_elem? (first ∷ rest) 9 ≡ some decimals
        → IsSplit (first ∷ rest) first amount post
        → (first ∷ rest ≡ transfer_checked_layout amount decimals) × (amount < 2 ^ 64)
    finish twelve [] len last split = absurd (omega arith)
    finish twelve (p ∷ []) len last split =
        let same : p ≡ decimals =
          nine-of-checked (first ∷ rest) first amount decimals p split.parts last in
        (
          split.parts
              ∙ ap (λ n. n ∷ (le_bytes 8 amount ++ p ∷ [])) twelve
              ∙ ap (λ n. 12 ∷ (le_bytes 8 amount ++ n ∷ [])) same,
          split.range,
        )
    finish twelve (p ∷ q ∷ r) len last split = absurd (omega arith)

decode_bytes-transfer_sound :
    (bytes : List ℕ) (amount : ℕ)
    → All IsByte bytes
    → decode_bytes bytes ≡ transfer amount
    → (bytes ≡ transfer_layout amount) × (amount < 2 ^ 64)
decode_bytes-transfer_sound [] amount h e = cc (transfer-tested [] amount e).0
decode_bytes-transfer_sound (first ∷ rest) amount h e =
    let (head, size, read) = transfer-tested (first ∷ rest) amount e in
    let three : first ≡ 3 = cc head in
    let (post, split, len) = read-IsSplit 0 first rest amount h.1 (omega arith) read in
    finish three post len split
  where
    finish :
        first ≡ 3
        → (post : List ℕ) → length post ≡ 0
        → IsSplit (first ∷ rest) first amount post
        → (first ∷ rest ≡ transfer_layout amount) × (amount < 2 ^ 64)
    finish three [] len split =
        (split.parts ∙ ap (λ n. n ∷ (le_bytes 8 amount ++ [])) three, split.range)
    finish three (p ∷ r) len split = absurd (omega arith)

module _ (decode : String → Option (List ℕ)) (instruction_data : String) (bytes : List ℕ)
    (decoded : decode instruction_data ≡ some bytes) (whole : All IsByte bytes) where
  opened : decode_token_instruction decode instruction_data ≡ decode_bytes bytes
  unfolding decode_token_instruction
  opened = rw (decoded, decode_token_instruction)

  -- Of data that Base58 decodes to bytes, a TransferChecked of an amount and decimals comes out
  -- exactly when the bytes are the discriminator 12, the amount below 2^64 in eight little-endian
  -- bytes, and the decimals.
  pub decode_token_instruction-transfer_checked_iff :
      (amount decimals : ℕ)
      → (decode_token_instruction decode instruction_data ≡ transfer_checked amount decimals)
        ↔ ((bytes ≡ transfer_checked_layout amount decimals) × (amount < 2 ^ 64))
  decode_token_instruction-transfer_checked_iff amount decimals = (
    λ e. decode_bytes-transfer_checked_sound bytes amount decimals whole (sym opened ∙ e),
    λ h. opened ∙ ap decode_bytes h.0 ∙ decode_bytes-transfer_checked_layout amount decimals h.1,
  )

  -- Of such data a Transfer of an amount comes out exactly when the bytes are the discriminator 3
  -- and the amount below 2^64 in eight little-endian bytes.
  pub decode_token_instruction-transfer_iff :
      (amount : ℕ)
      → (decode_token_instruction decode instruction_data ≡ transfer amount)
        ↔ ((bytes ≡ transfer_layout amount) × (amount < 2 ^ 64))
  decode_token_instruction-transfer_iff amount = (
    λ e. decode_bytes-transfer_sound bytes amount whole (sym opened ∙ e),
    λ h. opened ∙ ap decode_bytes h.0 ∙ decode_bytes-transfer_layout amount h.1,
  )
