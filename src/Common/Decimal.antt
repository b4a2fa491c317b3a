-- ===== src/Common/Decimal.antt =====
-- Decimal texts: what `String(n)`, `n.toString()` and `BigInt(text)` do on unsigned numbers.
-- A text that is walked is the list of its code points.
pub mod RoundTrip
pub mod Digits
use Prim.Native.Char.{code}
use mathlib.Core.Logic.{dite}
use mathlib.Core.WellFounded.{Acc, WellFounded}
use native.Mathlib.Decide.{dec_lt}
use solana_payment_ops.Common.Tests.{ltb, leb, if◌then◌else◌}
use Prim.Native.Nat.{ℕ, zero, suc, ◌+◌, ◌-◌, ◌*◌, ◌/◌, ◌%◌, ◌<◌}
use Prim.Native.String.{String}
use mathlib.Core.Bool.{Bool, true, false, ◌&&◌}
use mathlib.Core.List.{List, [], ◌∷◌, ◌++◌}
use native.Mathlib.Omega.{arith}

abbrev pub Text : Type 0
Text = List ℕ

-- The code points of a text that is only compared elsewhere.
abbrev pub codes : String → Text
codes String.[] = []
codes (String.◌∷◌ c s) = code c ∷ codes s

Acc-below : (k n : ℕ) → n < k → Acc ◌<◌ n
Acc-below zero n h = elim h [ ]
Acc-below (suc k) n h = Acc.intro n (λ m hm. Acc-below k m (omega arith))

unfoldable pub lt_wf : WellFounded ◌<◌
unfolding Acc-below
lt_wf = record { apply = λ n. Acc-below (suc n) n (omega arith) }

pub tenth_lt : {n : ℕ} → 9 < n → n / 10 < n
tenth_lt h = omega arith

format_acc : (n : ℕ) → Acc ◌<◌ n → Text
format_acc n (Acc.intro _ smaller) =
    dite (dec_lt 9 n)
      (λ h. format_acc (n / 10) (smaller (n / 10) (tenth_lt h)) ++ ((b'0' + n % 10) ∷ []))
      (λ _. (b'0' + n) ∷ [])

-- `n.toString()`
unfoldable pub format : ℕ → Text
unfolding format_acc lt_wf dec_lt
format n = format_acc n (lt_wf.apply n)

abbrev pub is_digit : ℕ → Bool
is_digit c = leb b'0' c && leb c b'9'

-- The number that a run of digits after a prefix of value `n` stands for.
abbrev pub read_digits : ℕ → Text → ℕ
read_digits n [] = n
read_digits n (c ∷ s) = read_digits (n * 10 + (c - b'0')) s

-- `BigInt(text)` on a text of decimal digits.
abbrev pub parse : Text → ℕ
parse s = read_digits 0 s
