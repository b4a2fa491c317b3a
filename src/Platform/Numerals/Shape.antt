-- ===== src/Platform/Numerals/Shape.antt =====
-- Texts made of digits and a point match the patterns and come apart at the point.
use solana_payment_ops.Common.{
  ℕ, zero, suc, ◌≤◌, ◌<◌, ◌≡◌, refl, Bool, true, none, some, [], ◌∷◌, ◌++◌, all, length, take, drop,
  arith,
}
use solana_payment_ops.Common.Decimal.{Text, is_digit}
use solana_payment_ops.Common.Decimal.Digits.{starts_nonzero}
use solana_payment_ops.Platform.Numerals.{is_integer_text, before_point, after_point}

pub before_point-joined : (s t : Text) → all is_digit s ≡ true → before_point (s ++ (b'.' ∷ t)) ≡ s
before_point-joined [] t h = refl
before_point-joined (c ∷ s) t h = ground (arith, before_point-joined s t)

pub after_point-joined :
    (s t : Text) → all is_digit s ≡ true → after_point (s ++ (b'.' ∷ t)) ≡ some t
after_point-joined [] t h = refl
after_point-joined (c ∷ s) t h = ground (arith, after_point-joined s t)

pub before_point-digits : (s : Text) → all is_digit s ≡ true → before_point s ≡ s
before_point-digits [] h = refl
before_point-digits (c ∷ s) h = ground (arith, before_point-digits s)

pub after_point-digits : (s : Text) → all is_digit s ≡ true → after_point s ≡ none
after_point-digits [] h = refl
after_point-digits (c ∷ s) h = ground (arith, after_point-digits s)

pub is_integer_text-of_nonzero :
    (more : ℕ) (s : Text)
    → starts_nonzero s ≡ true
    → all is_digit s ≡ true
    → length s ≤ suc more
    → is_integer_text more s ≡ true
is_integer_text-of_nonzero more [] h digits few = cc h
is_integer_text-of_nonzero more (c ∷ s) h digits few = ground arith

pub all-take : (p : ℕ → Bool) (n : ℕ) (s : Text) → all p s ≡ true → all p (take n s) ≡ true
all-take p zero s h = refl
all-take p (suc n) [] h = refl
all-take p (suc n) (c ∷ s) h = ground (arith, all-take p n s)

pub all-drop : (p : ℕ → Bool) (n : ℕ) (s : Text) → all p s ≡ true → all p (drop n s) ≡ true
all-drop p zero s h = h
all-drop p (suc n) [] h = refl
all-drop p (suc n) (c ∷ s) h = ground (arith, all-drop p n s)

pub starts_nonzero-take :
    (n : ℕ) (s : Text) → 0 < n → starts_nonzero s ≡ true → starts_nonzero (take n s) ≡ true
starts_nonzero-take zero s h k = absurd (omega arith)
starts_nonzero-take (suc n) [] h k = cc k
starts_nonzero-take (suc n) (c ∷ s) h k = k
