-- ===== src/Platform/Numerals.antt =====
-- The number texts that packages/platform/src accepts by pattern: `integerPattern` and
-- `quantityPattern` of invoices/arithmetic.ts, `unsignedDecimalPattern` of quotes/exact-decimal.ts.
pub mod Shape
use solana_payment_ops.Common.{
  ℕ, Bool, true, false, ◌&&◌, Option, none, some, List, [], ◌∷◌, if◌then◌else◌, leb, ◌==◌, all,
  length, ◌≡◌, refl, arith,
}
use solana_payment_ops.Common.Decimal.{Text, is_digit}

-- `/^(0|[1-9][0-9]{0,more})$/`
abbrev pub is_integer_text : ℕ → Text → Bool
is_integer_text more [] = false
is_integer_text more (c ∷ s) =
    if c == b'0' then length s == 0 else is_digit c && (all is_digit s && leb (length s) more)

-- `value.split(".")[0]`
abbrev pub before_point : Text → Text
before_point [] = []
before_point (c ∷ s) = if c == b'.' then [] else c ∷ before_point s

-- What follows the first point, `undefined` without one.
abbrev pub after_point : Text → Option Text
after_point [] = none
after_point (c ∷ s) = if c == b'.' then some s else after_point s

-- `(\.[0-9]{1,most})?`
abbrev pub is_fraction_text : ℕ → Option Text → Bool
is_fraction_text most none = true
is_fraction_text most (some s) = leb 1 (length s) && (leb (length s) most && all is_digit s)

-- `/^(0|[1-9][0-9]{0,more})(\.[0-9]{1,most})?$/`
abbrev pub is_decimal_text : ℕ → ℕ → Text → Bool
is_decimal_text more most s =
    is_integer_text more (before_point s) && is_fraction_text most (after_point s)

-- `fraction = ""` where there is no fraction.
abbrev pub or_empty : Option Text → Text
or_empty none = []
or_empty (some s) = s

-- `s === t`
abbrev pub eq_text : Text → Text → Bool
eq_text [] [] = true
eq_text [] (d ∷ t) = false
eq_text (c ∷ s) [] = false
eq_text (c ∷ s) (d ∷ t) = c == d && eq_text s t

pub eq_text→eq : (s t : Text) → eq_text s t ≡ true → s ≡ t
eq_text→eq [] [] h = refl
eq_text→eq [] (d ∷ t) h = cc h
eq_text→eq (c ∷ s) [] h = cc h
eq_text→eq (c ∷ s) (d ∷ t) h = ground (arith, eq_text→eq s t)
