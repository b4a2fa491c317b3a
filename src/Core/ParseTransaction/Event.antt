-- ===== src/Core/ParseTransaction/Event.antt =====
-- The event identifier of parse-transaction.ts names one instruction of one transaction.
use solana_payment_ops.Common.{
  ℕ, ◌≡◌, ◌≢◌, refl, ap, ap₂, sym, ◌∙◌, String, true, Option, none, some, [], ◌∷◌, ◌++◌, arith, all,
}
use solana_payment_ops.Common.Decimal.{Text, format, codes, is_digit}
use solana_payment_ops.Common.Decimal.RoundTrip.{format-injective, all-is_digit-format}
use solana_payment_ops.Core.Types.{Cluster}
use solana_payment_ops.Core.ParseTransaction.{cluster_text, inner_part, event_id_text}

tail_eq : {c d : ℕ} {x y : Text} → c ∷ x ≡ d ∷ y → x ≡ y
tail_eq e = cc

append_cancel : (s : Text) {x y : Text} → s ++ x ≡ s ++ y → x ≡ y
append_cancel [] e = e
append_cancel (c ∷ s) e = append_cancel s (tail_eq e)

-- Two runs of digits that a colon ends.
digits_before_colon :
    (s t x y : Text)
    → all is_digit s ≡ true
    → all is_digit t ≡ true
    → s ++ (b':' ∷ x) ≡ t ++ (b':' ∷ y)
    → (s ≡ t) × (x ≡ y)
digits_before_colon [] [] x y hs ht e = (refl, cc e)
digits_before_colon [] (c ∷ t) x y hs ht e = ground arith
digits_before_colon (c ∷ s) [] x y hs ht e = ground arith
digits_before_colon (c ∷ s) (d ∷ t) x y hs ht e =
    let (same, rest) = digits_before_colon s t x y (ground arith) (ground arith) (cc e) in
    (ap₂ ◌∷◌ (cc e) same, rest)

outer-ne-format : (n : ℕ) → codes "outer" ≢ format n
outer-ne-format n e = cc (ap (all is_digit) e ∙ all-is_digit-format n)

inner_part-injective : (i j : Option ℕ) → inner_part i ≡ inner_part j → i ≡ j
inner_part-injective none none e = refl
inner_part-injective none (some n) e = absurd (outer-ne-format n e)
inner_part-injective (some m) none e = absurd (outer-ne-format m (sym e))
inner_part-injective (some m) (some n) e = ap some (format-injective m n e)

-- Within one transaction, equal event identifiers have equal instruction coordinates.
pub event_id_text-injective :
    (cluster : Cluster) (signature : String) (outer outer' : ℕ) (inner inner' : Option ℕ)
    → event_id_text cluster signature outer inner ≡ event_id_text cluster signature outer' inner'
    → (outer ≡ outer') × (inner ≡ inner')
unfolding event_id_text
event_id_text-injective cluster signature outer outer' inner inner' e =
    let after_cluster = append_cancel (codes (cluster_text cluster)) e in
    let after_signature = append_cancel (codes signature) (tail_eq after_cluster) in
    let (same_outer, same_inner) =
      digits_before_colon (format outer) (format outer') (inner_part inner) (inner_part inner')
        (all-is_digit-format outer) (all-is_digit-format outer') (tail_eq after_signature) in
    (format-injective outer outer' same_outer, inner_part-injective inner inner' same_inner)
