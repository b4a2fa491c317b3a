-- ===== src/Common/Decimal/Digits.antt =====
-- The shape of a printed number: how long it is, and that it does not start with a zero.
use native.Mathlib.Nat
use mathlib.Core.WellFounded.{Acc}
use mathlib.Core.Logic.{dif_pos, dif_neg}
use native.Mathlib.Bridge.{le_prop}
use native.Mathlib.Decide.{dec_lt}
use Prim.Native.Nat.{ℕ, zero, suc, ◌+◌, ◌-◌, ◌/◌, ◌%◌, ◌<◌, ◌≤◌, ◌^◌}
use mathlib.Core.Path.{◌≡◌, refl, ap}
use mathlib.Core.Logic.{◌⊎◌, inl, inr}
use mathlib.Core.Bool.{Bool, true, false, not}
use mathlib.Core.List.{[], ◌∷◌, ◌++◌}
use native.Mathlib.Omega.{arith}
use solana_payment_ops.Common.Tests.{◌==◌}
use solana_payment_ops.Common.Lists.{all, length, length-append}
use solana_payment_ops.Common.Decimal.{Text, tenth_lt, format_acc, format, lt_wf, is_digit, parse}
use solana_payment_ops.Common.Decimal.RoundTrip.{all-append}

abbrev pub starts_nonzero : Text → Bool
starts_nonzero [] = false
starts_nonzero (c ∷ s) = not (c == b'0')

pub starts_nonzero-append : (s t : Text) → starts_nonzero s ≡ true → starts_nonzero (s ++ t) ≡ true
starts_nonzero-append [] t h = cc h
starts_nonzero-append (c ∷ s) t h = h

starts_nonzero-format_acc : (n : ℕ) (w : Acc ◌<◌ n) → 0 < n → starts_nonzero (format_acc n w) ≡ true
unfolding format_acc
starts_nonzero-format_acc n (Acc.intro _ smaller) h = elim (dec_lt 9 n) [
  | yes k ↦ rw (dif_pos _ le_prop k) (
      starts_nonzero-append (format_acc (n / 10) (smaller (n / 10) (tenth_lt k))) _
        (starts_nonzero-format_acc (n / 10) (smaller (n / 10) (tenth_lt k)) (omega arith)))
  | no k ↦ rw (dif_neg _ k) (ground arith)
]

pub starts_nonzero-format : (n : ℕ) → 0 < n → starts_nonzero (format n) ≡ true
unfolding format
starts_nonzero-format n h = starts_nonzero-format_acc n (lt_wf.apply n) h

length-format_acc-le : (k n : ℕ) (w : Acc ◌<◌ n) → n < 10 ^ suc k → length (format_acc n w) ≤ suc k
unfolding format_acc
length-format_acc-le zero n (Acc.intro _ smaller) h = elim (dec_lt 9 n) [
  | yes more ↦ absurd (omega (arith, Nat.pow-suc 10 zero, Nat.pow-zero 10))
  | no few ↦ rw (dif_neg _ few) (omega arith)
]
length-format_acc-le (suc k) n (Acc.intro _ smaller) h = elim (dec_lt 9 n) [
  | yes more ↦ rw (dif_pos _ le_prop more) (
      let shorter =
        length-format_acc-le k (n / 10) (smaller (n / 10) (tenth_lt more))
          (omega (arith, Nat.pow-suc 10 (suc k))) in
      omega (
        arith,
        shorter,
        length-append (format_acc (n / 10) (smaller (n / 10) (tenth_lt more)))
            ((b'0' + n % 10) ∷ []),
      ))
  | no few ↦ rw (dif_neg _ few) (omega arith)
]

-- A number below a power of ten has at most that many digits.
length-format-le : (k n : ℕ) → n < 10 ^ suc k → length (format n) ≤ suc k
unfolding format
length-format-le k n h = length-format_acc-le k n (lt_wf.apply n) h

pub length-format-of_lt : (k n : ℕ) → 0 < k → n < 10 ^ k → length (format n) ≤ k
length-format-of_lt zero n some_digit h = absurd (omega arith)
length-format-of_lt (suc k) n some_digit h = length-format-le k n h

pub format_zero : format 0 ≡ b'0' ∷ []
unfolding format format_acc lt_wf dec_lt
format_zero = refl

-- `"0".repeat(k)`
abbrev pub zeros : ℕ → Text
zeros zero = []
zeros (suc k) = b'0' ∷ zeros k

-- `s.padStart(width, "0")`
unfoldable pub pad_start : ℕ → Text → Text
pad_start width s = zeros (width - length s) ++ s

length-zeros : (k : ℕ) → length (zeros k) ≡ k
length-zeros zero = refl
length-zeros (suc k) = ap suc (length-zeros k)

all-is_digit-zeros : (k : ℕ) → all is_digit (zeros k) ≡ true
all-is_digit-zeros zero = refl
all-is_digit-zeros (suc k) = all-is_digit-zeros k

parse-zeros : (k : ℕ) (s : Text) → parse (zeros k ++ s) ≡ parse s
parse-zeros zero s = refl
parse-zeros (suc k) s = parse-zeros k s

pub length-pad_start : (width : ℕ) (s : Text) → width ≤ length (pad_start width s)
unfolding pad_start
length-pad_start width s =
    omega (arith, length-append (zeros (width - length s)) s, length-zeros (width - length s))

pub all-is_digit-pad_start :
    (width : ℕ) (s : Text) → all is_digit s ≡ true → all is_digit (pad_start width s) ≡ true
unfolding pad_start
all-is_digit-pad_start width s h =
    all-append is_digit (zeros (width - length s)) s (all-is_digit-zeros (width - length s)) h

pub parse-pad_start : (width : ℕ) (s : Text) → parse (pad_start width s) ≡ parse s
unfolding pad_start
parse-pad_start width s = parse-zeros (width - length s) s

-- A text that is long enough is not padded, and one that is not gets zeros to the width.
padded-cases :
    (k width : ℕ) (s : Text)
    → k ≡ width - length s
    → ((width ≤ length s) × (zeros k ++ s ≡ s))
      ⊎ ((length (zeros k ++ s) ≡ width) × ((t : Text) × (zeros k ++ s ≡ b'0' ∷ t)))
padded-cases zero width s h = inl (omega arith, refl)
padded-cases (suc k) width s h =
    inr (omega (arith, length-append (zeros (suc k)) s, length-zeros (suc k)), (zeros k ++ s, refl))

pub pad_start-cases :
    (width : ℕ) (s : Text)
    → ((width ≤ length s) × (pad_start width s ≡ s))
      ⊎ ((length (pad_start width s) ≡ width) × ((t : Text) × (pad_start width s ≡ b'0' ∷ t)))
unfolding pad_start
pad_start-cases width s = padded-cases (width - length s) width s refl
