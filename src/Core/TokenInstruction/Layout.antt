-- ===== src/Core/TokenInstruction/Layout.antt =====
-- The byte layout that `readU64LittleEndian` reads: the independent description of a little-endian
-- number, and the loop against it.
use native.Mathlib.Nat.{pow-suc}
use native.Mathlib.Numerals.{towards_suc}
use solana_payment_ops.Common.{
  ℕ, zero, suc, ◌+◌, ◌*◌, ◌/◌, ◌%◌, ◌^◌, ◌<◌, ◌≡◌, refl, ap, ◌∙◌, subst, some, List, [], ◌∷◌, ◌++◌,
  arith, length, get_elem?, All,
}
use solana_payment_ops.Common.Bits.{bit_or_disjoint}
use solana_payment_ops.Core.TokenInstruction.{read_bytes, read_u64_little_endian}

abbrev pub IsByte : ℕ → Type 0
IsByte n = n < 256

-- The `k` lowest bytes of `n`, lowest first.
abbrev pub le_bytes : ℕ → ℕ → List ℕ
le_bytes zero n = []
le_bytes (suc k) n = n % 256 ∷ le_bytes k (n / 256)

abbrev pub of_le_bytes : List ℕ → ℕ
of_le_bytes [] = 0
of_le_bytes (b ∷ bs) = b + 256 * of_le_bytes bs

pub length-le_bytes : (k n : ℕ) → length (le_bytes k n) ≡ k
length-le_bytes zero n = refl
length-le_bytes (suc k) n = ap suc (length-le_bytes k (n / 256))

pub le_bytes-All : (k n : ℕ) → All IsByte (le_bytes k n)
le_bytes-All zero n = tt
le_bytes-All (suc k) n = (omega arith, le_bytes-All k (n / 256))

pub of_le_bytes-le_bytes : (k n : ℕ) → n < 256 ^ k → of_le_bytes (le_bytes k n) ≡ n
of_le_bytes-le_bytes zero n h = omega arith
of_le_bytes-le_bytes (suc k) n h =
    omega (arith, of_le_bytes-le_bytes k (n / 256) (omega (arith, pow-suc 256 k)))

pub le_bytes-of_le_bytes :
    (bs : List ℕ) → All IsByte bs → le_bytes (length bs) (of_le_bytes bs) ≡ bs
le_bytes-of_le_bytes [] h = refl
le_bytes-of_le_bytes (b ∷ bs) h =
    let low : (b + 256 * of_le_bytes bs) % 256 ≡ b = omega arith in
    let high : (b + 256 * of_le_bytes bs) / 256 ≡ of_le_bytes bs = omega arith in
    rw (low, high, le_bytes-of_le_bytes bs h.1)

pub of_le_bytes-lt : (bs : List ℕ) → All IsByte bs → of_le_bytes bs < 256 ^ length bs
of_le_bytes-lt [] h = omega arith
of_le_bytes-lt (b ∷ bs) h = omega (arith, pow-suc 256 (length bs), of_le_bytes-lt bs h.1)

pow_step : (i : ℕ) → 2 ^ ((i + 1) * 8) ≡ 2 ^ (i * 8) * 256
pow_step i = let e : (i + 1) * 8 ≡ i * 8 + 8 = omega arith in rw e (simp towards_suc (omega arith))

byte_below : (value b p : ℕ) → value < p → b < 256 → value + b * p < p * 256
byte_below value b p small byte = grind arith

-- The loop adds the bytes that it finds from its index on, each at its place.
read_bytes-eq :
    (bs post bytes : List ℕ) (offset index value : ℕ)
    → ((j : ℕ) → get_elem? bytes (offset + index + j) ≡ get_elem? (bs ++ post) j)
    → All IsByte bs
    → value < 2 ^ (index * 8)
    → read_bytes (length bs) bytes offset index value
      ≡ some (value + of_le_bytes bs * 2 ^ (index * 8))
unfolding read_bytes
read_bytes-eq [] post bytes offset index value found h small = ap some (omega arith)
read_bytes-eq (b ∷ bs) post bytes offset index value found h small =
    let here : get_elem? bytes (offset + index) ≡ some b =
      ap (get_elem? bytes) (omega arith) ∙ found 0 in
    let later : (j : ℕ) → get_elem? bytes (offset + (index + 1) + j) ≡ get_elem? (bs ++ post) j =
      λ j. ap (get_elem? bytes) (omega arith) ∙ found (suc j) in
    let below : value + b * 2 ^ (index * 8) < 2 ^ ((index + 1) * 8) =
      rw (pow_step index) (byte_below value b (2 ^ (index * 8)) small h.0) in
    let scaled : of_le_bytes bs * 2 ^ ((index + 1) * 8) ≡ of_le_bytes bs * (2 ^ (index * 8) * 256) =
      ap (λ (t : ℕ). of_le_bytes bs * t) (pow_step index) in
    rw (here, read_bytes)
      (rw (bit_or_disjoint (index * 8) value b small) (
        read_bytes-eq bs post bytes offset (index + 1) (value + b * 2 ^ (index * 8)) later h.1 below
        ∙ ap some (omega (arith, scaled))))

-- Eight bytes after a first one are the number that they spell.
pub read_u64_little_endian-eq :
    (first : ℕ) (bs post : List ℕ)
    → All IsByte bs
    → length bs ≡ 8
    → read_u64_little_endian (first ∷ bs ++ post) 1 ≡ some (of_le_bytes bs)
unfolding read_u64_little_endian
read_u64_little_endian-eq first bs post h eight =
    subst (λ n. read_bytes n (first ∷ bs ++ post) 1 0 0 ≡ some (of_le_bytes bs)) eight
      (read_bytes-eq bs post (first ∷ bs ++ post) 1 0 0
          (λ j. let e : 1 + 0 + j ≡ suc j = omega arith in ap (get_elem? (first ∷ (bs ++ post))) e)
          h (omega arith)
        ∙ ap some (omega arith))
