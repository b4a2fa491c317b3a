-- ===== src/Common/Decimal/RoundTrip.antt =====
-- A printed number reads back, so two numbers with one text are one.
use mathlib.Core.WellFounded.{Acc}
use mathlib.Core.Logic.{dif_pos, dif_neg}
use native.Mathlib.Bridge.{le_prop}
use native.Mathlib.Decide.{dec_lt}
use Prim.Native.Nat.{ℕ, ◌+◌, ◌-◌, ◌*◌, ◌/◌, ◌%◌, ◌<◌}
use mathlib.Core.Path.{◌≡◌, refl, ap, sym, ◌∙◌}
use mathlib.Core.Bool.{Bool, true}
use mathlib.Core.List.{[], ◌∷◌, ◌++◌}
use native.Mathlib.Omega.{arith}
use solana_payment_ops.Common.Lists.{all}
use solana_payment_ops.Common.Decimal.{
  Text, tenth_lt, format_acc, format, lt_wf, is_digit, read_digits, parse,
}

pub read_digits-append :
    (n : ℕ) (s t : Text) → read_digits n (s ++ t) ≡ read_digits (read_digits n s) t
read_digits-append n [] t = refl
read_digits-append n (c ∷ s) t = read_digits-append (n * 10 + (c - b'0')) s t

pub all-append :
    (p : ℕ → Bool) (s t : Text) → all p s ≡ true → all p t ≡ true → all p (s ++ t) ≡ true
all-append p [] t h k = k
all-append p (c ∷ s) t h k = ground (arith, all-append p s t)

parse-format_acc : (n : ℕ) (w : Acc ◌<◌ n) → parse (format_acc n w) ≡ n
unfolding format_acc
parse-format_acc n (Acc.intro _ smaller) = elim (dec_lt 9 n) [
  | yes h ↦ rw (dif_pos _ le_prop h) (
      rw read_digits-append
        (omega (arith, parse-format_acc (n / 10) (smaller (n / 10) (tenth_lt h)))))
  | no h ↦ rw (dif_neg _ h) (omega arith)
]

pub parse-format : (n : ℕ) → parse (format n) ≡ n
unfolding format
parse-format n = parse-format_acc n (lt_wf.apply n)

pub format-injective : (m n : ℕ) → format m ≡ format n → m ≡ n
format-injective m n h = sym (parse-format m) ∙ ap parse h ∙ parse-format n

all-is_digit-format_acc : (n : ℕ) (w : Acc ◌<◌ n) → all is_digit (format_acc n w) ≡ true
unfolding format_acc
all-is_digit-format_acc n (Acc.intro _ smaller) = elim (dec_lt 9 n) [
  | yes h ↦ rw (dif_pos _ le_prop h) (
      all-append is_digit (format_acc (n / 10) (smaller (n / 10) (tenth_lt h)))
        ((b'0' + n % 10) ∷ []) (all-is_digit-format_acc (n / 10) (smaller (n / 10) (tenth_lt h)))
        (ground arith))
  | no h ↦ rw (dif_neg _ h) (ground arith)
]

pub all-is_digit-format : (n : ℕ) → all is_digit (format n) ≡ true
unfolding format
all-is_digit-format n = all-is_digit-format_acc n (lt_wf.apply n)
