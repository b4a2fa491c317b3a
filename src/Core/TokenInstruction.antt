-- ===== src/Core/TokenInstruction.antt =====
-- packages/core/src/solana/token-instruction.ts, with the two wrappers of transfer.ts and
-- transfer-checked.ts. `bs58.decode` is a package: it is the parameter `decode`, `none` where it
-- throws. A byte is a number; that a decoded byte lies below 256 is a hypothesis where it matters.
mod Tests
pub mod Layout
pub mod Exact
use Prim.Native.Nat.{bit_or}
use solana_payment_ops.Common.{
  ℕ, zero, suc, ◌+◌, ◌*◌, ◌^◌, String, Bool, true, false, Option, none, some, List, [], ◌∷◌, ◌==◌,
  if◌then◌else◌, length, get_elem?,
}

pub data TokenInstructionDecode : Type 0 where
  transfer : ℕ → TokenInstructionDecode
  transfer_checked : ℕ → ℕ → TokenInstructionDecode
  unsupported malformed : Option ℕ → TokenInstructionDecode

abbrev pub transfer_discriminator : ℕ
transfer_discriminator = 3

abbrev pub transfer_checked_discriminator : ℕ
transfer_checked_discriminator = 12

abbrev pub transfer_data_length : ℕ
transfer_data_length = 9

abbrev pub transfer_checked_data_length : ℕ
transfer_checked_data_length = 10

-- The rounds of the loop that are left; `index` counts up from 0.
read_bytes : ℕ → List ℕ → ℕ → ℕ → ℕ → Option ℕ
read_bytes zero bytes offset index value = some value
read_bytes (suc rounds) bytes offset index value = elim (get_elem? bytes (offset + index)) [
  | none ↦ none
  | some byte ↦ read_bytes rounds bytes offset (index + 1) (bit_or value (byte * 2 ^ (index * 8)))
]

unfoldable pub read_u64_little_endian : List ℕ → ℕ → Option ℕ
unfolding read_bytes
read_u64_little_endian bytes offset = read_bytes 8 bytes offset 0 0

decode_transfer_bytes : List ℕ → TokenInstructionDecode
decode_transfer_bytes bytes =
    if length bytes == transfer_data_length
    then elim (read_u64_little_endian bytes 1) [
      | none ↦ malformed (some transfer_discriminator)
      | some amount ↦ transfer amount
    ]
    else malformed (some transfer_discriminator)

decode_transfer_checked_bytes : List ℕ → TokenInstructionDecode
decode_transfer_checked_bytes bytes =
    if length bytes == transfer_checked_data_length
    then elim (read_u64_little_endian bytes 1) [
      | none ↦ malformed (some transfer_checked_discriminator)
      | some amount ↦ elim (get_elem? bytes 9) [
        | none ↦ malformed (some transfer_checked_discriminator)
        | some decimals ↦ transfer_checked amount decimals
      ]
    ]
    else malformed (some transfer_checked_discriminator)

decode_bytes : List ℕ → TokenInstructionDecode
unfolding decode_transfer_bytes decode_transfer_checked_bytes
decode_bytes bytes = elim (get_elem? bytes 0) [
  | none ↦ unsupported none
  | some discriminator ↦
      if discriminator == transfer_discriminator
      then decode_transfer_bytes bytes
      else if discriminator == transfer_checked_discriminator
      then decode_transfer_checked_bytes bytes
      else unsupported (some discriminator)
]

-- What `decodeTransfer` and `decodeTransferChecked` throw.
pub data DecodeError : Type 0 where
  invalid_length wrong_instruction : DecodeError

pub data Decoded (A : Type 0) : Type 0 where
  ok : A → Decoded A
  err : DecodeError → Decoded A

abbrev length_error : Option ℕ → ℕ → DecodeError
length_error none expected = wrong_instruction
length_error (some found) expected = if found == expected then invalid_length else wrong_instruction

as_transfer : TokenInstructionDecode → Decoded ℕ
as_transfer (transfer amount) = ok amount
as_transfer (transfer_checked amount decimals) = err wrong_instruction
as_transfer (unsupported found) = err wrong_instruction
as_transfer (malformed found) = err (length_error found transfer_discriminator)

as_transfer_checked : TokenInstructionDecode → Decoded (ℕ × ℕ)
as_transfer_checked (transfer amount) = err wrong_instruction
as_transfer_checked (transfer_checked amount decimals) = ok (amount, decimals)
as_transfer_checked (unsupported found) = err wrong_instruction
as_transfer_checked (malformed found) = err (length_error found transfer_checked_discriminator)

module _ (decode : String → Option (List ℕ)) where
  unfoldable pub decode_token_instruction : String → TokenInstructionDecode
  unfolding decode_bytes
  decode_token_instruction instruction_data = elim (decode instruction_data) [
    | none ↦ malformed none
    | some bytes ↦ decode_bytes bytes
  ]

  unfoldable pub decode_transfer : String → Decoded ℕ
  unfolding as_transfer decode_token_instruction
  decode_transfer instruction_data = as_transfer (decode_token_instruction instruction_data)

  unfoldable pub decode_transfer_checked : String → Decoded (ℕ × ℕ)
  unfolding as_transfer_checked decode_token_instruction
  decode_transfer_checked instruction_data =
      as_transfer_checked (decode_token_instruction instruction_data)
