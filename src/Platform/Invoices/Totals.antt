-- ===== src/Platform/Invoices/Totals.antt =====
-- The totals of packages/platform/src/invoices/arithmetic.ts against unbounded arithmetic on what
-- the lines say.
use native.Mathlib.Nat
use solana_payment_ops.Common.{
  ℕ, zero, suc, ◌+◌, ◌*◌, ◌/◌, ◌≤◌, ◌≡◌, ◌↔◌, refl, Bool, true, false, ◌&&◌, ◌||◌, Option, List, [],
  ◌∷◌, if◌then◌else◌, leb, ltb, length, all, arith, Bool-cases, inl, inr,
}
use solana_payment_ops.Common.Result.{ok, err, if-bind}
use solana_payment_ops.Common.Decimal.{Text, format}
use solana_payment_ops.Platform.Invoices.{
  invalid_invoice_lines, invoice_amount_overflow, InvoiceLineInput, CalculatedInvoiceLine,
  InvoiceTotals, Quantity, maximum, checked_multiply, parse_amount, parse_quantity, in_range,
  normalize_tax_label, rounded_up, calculated_line, calculate_amounts, calculate_line,
  calculate_lines, calculate_invoice_totals,
}

-- What a line says, once its texts are read.
pub record Reading : Type 0 where
  pub quantity : Quantity
  pub price : ℕ
  pub tax : ℕ
  pub label : Option Text

abbrev pub IsReading : (Text → Text) → InvoiceLineInput → Reading → Type 0
IsReading clean line r =
    (in_range 512 (clean line.description) ≡ true)
    × (parse_quantity line.quantity ≡ ok r.quantity)
    × (parse_amount line.unit_price_minor_units ≡ ok r.price)
    × (parse_amount line.tax_minor_units ≡ ok r.tax)
    × (normalize_tax_label clean line.tax_label ≡ ok r.label)

abbrev pub AreReadings : (Text → Text) → List InvoiceLineInput → List Reading → Type 0
AreReadings clean [] [] = Unit
AreReadings clean [] (r ∷ rs) = ⊥
AreReadings clean (line ∷ lines) [] = ⊥
AreReadings clean (line ∷ lines) (r ∷ rs) = IsReading clean line r × AreReadings clean lines rs

-- Quantity times price, in whole minor units rounded up.
abbrev pub exact_amount : Reading → ℕ
exact_amount r = rounded_up (r.quantity.numerator * r.price) r.quantity.denominator

abbrev pub sum_of : (Reading → ℕ) → List Reading → ℕ
sum_of f [] = 0
sum_of f (r ∷ rs) = f r + sum_of f rs

abbrev pub product_fits : Reading → Bool
product_fits r = leb (r.quantity.numerator * r.price) maximum

abbrev pub exact_line : (Text → Text) → InvoiceLineInput → Reading → CalculatedInvoiceLine
exact_line clean line r =
    calculated_line (clean line.description) r.quantity r.price r.tax (exact_amount r) r.label

abbrev pub exact_lines :
    (Text → Text) → List InvoiceLineInput → List Reading → List CalculatedInvoiceLine
exact_lines clean [] rs = []
exact_lines clean (line ∷ lines) [] = []
exact_lines clean (line ∷ lines) (r ∷ rs) = exact_line clean line r ∷ exact_lines clean lines rs

abbrev pub exact_total : List Reading → ℕ
exact_total rs = sum_of exact_amount rs + sum_of (λ r. r.tax) rs

abbrev pub exact_totals : (Text → Text) → List InvoiceLineInput → List Reading → InvoiceTotals
exact_totals clean lines rs = record {
  lines = exact_lines clean lines rs;
  subtotal_minor_units = format (sum_of exact_amount rs);
  tax_minor_units = format (sum_of (λ r. r.tax) rs);
  total_minor_units = format (exact_total rs);
}

-- The test before the product is the test of the product.
checked_multiply-exact :
    (a b : ℕ)
    → checked_multiply a b
      ≡ (if leb (a * b) maximum then ok (a * b) else err invoice_amount_overflow)
checked_multiply-exact zero b = ground arith
checked_multiply-exact (suc a) b =
    let iff : (b ≤ maximum / suc a) ↔ (b * suc a ≤ maximum) = Nat.le-div_iff_mul-le (omega arith) in
    let swap : suc a * b ≡ b * suc a = Nat.mul_comm (suc a) b in
    rw swap (ground (arith, iff.0, iff.1))

calculate_amounts-exact :
    (clean : Text → Text) (s t : ℕ) (line : InvoiceLineInput) (r : Reading)
    → normalize_tax_label clean line.tax_label ≡ ok r.label
    → calculate_amounts clean s t line r.quantity r.price r.tax ≡ (
        if product_fits r && (leb (s + exact_amount r) maximum && leb (t + r.tax) maximum)
        then ok (exact_line clean line r, s + exact_amount r, t + r.tax)
        else err invoice_amount_overflow)
unfolding calculate_amounts
calculate_amounts-exact clean s t line r label = rw (checked_multiply-exact, label) (ground arith)

calculate_line-read :
    (clean : Text → Text) (s t : ℕ) (line : InvoiceLineInput) (r : Reading)
    → IsReading clean line r
    → calculate_line clean s t line ≡ calculate_amounts clean s t line r.quantity r.price r.tax
unfolding calculate_line
calculate_line-read clean s t line r h = rw (h.0, h.1, h.2, h.3) refl

calculate_lines-exact :
    (clean : Text → Text) (s t : ℕ) (lines : List InvoiceLineInput) (rs : List Reading)
    → AreReadings clean lines rs
    → s ≤ maximum
    → t ≤ maximum
    → calculate_lines clean s t lines ≡ (
        if all product_fits rs
          && (leb (s + sum_of exact_amount rs) maximum && leb (t + sum_of (λ r. r.tax) rs) maximum)
        then ok (record {
          lines = exact_lines clean lines rs;
          subtotal = s + sum_of exact_amount rs;
          tax = t + sum_of (λ r. r.tax) rs;
        })
        else err invoice_amount_overflow)
unfolding calculate_lines
calculate_lines-exact clean s t [] [] h hs ht = ground arith
calculate_lines-exact clean s t [] (r ∷ rs) h hs ht = absurd h
calculate_lines-exact clean s t (line ∷ lines) [] h hs ht = absurd h
calculate_lines-exact clean s t (line ∷ lines) (r ∷ rs) h hs ht =
    let test : Bool =
      product_fits r && (leb (s + exact_amount r) maximum && leb (t + r.tax) maximum) in
    rw (calculate_line-read clean s t line r h.0, calculate_amounts-exact clean s t line r h.0.4)
      (elim (Bool-cases test) [
        | inl passed ↦
            let bounds : (product_fits r ≡ true)
                × (s + exact_amount r ≤ maximum)
                × (t + r.tax ≤ maximum) =
              ground arith in
            rw
              (
                passed,
                bounds.0,
                calculate_lines-exact clean (s + exact_amount r) (t + r.tax) lines rs h.1 bounds.1
                    bounds.2,
                if-bind,
                Nat.add_assoc s,
                Nat.add_assoc t,
              )
              refl
        | inr failed ↦
            let over : (all product_fits (r ∷ rs)
                  && (leb (s + sum_of exact_amount (r ∷ rs)) maximum
                      && leb (t + sum_of (λ r. r.tax) (r ∷ rs)) maximum))
                ≡ false =
              ground arith in
            rw (failed, over) refl
      ])

-- The whole calculation on lines that can be read, when there are one to a hundred of them.
pub calculate_invoice_totals-readable :
    (clean : Text → Text) (lines : List InvoiceLineInput) (rs : List Reading)
    → AreReadings clean lines rs
    → 1 ≤ length lines
    → length lines ≤ 100
    → calculate_invoice_totals clean lines ≡ (
        if all product_fits rs && leb (exact_total rs) maximum
        then ok (exact_totals clean lines rs)
        else err invoice_amount_overflow)
unfolding calculate_invoice_totals
calculate_invoice_totals-readable clean lines rs h some_line few =
    rw (calculate_lines-exact clean 0 0 lines rs h (omega arith) (omega arith)) (ground arith)

-- An invoice of no lines or of more than a hundred is refused for its lines. Of one to a hundred
-- lines that can all be read, the totals are the exact ones when every product and the grand total
-- are in range, and the invoice is refused as an overflow otherwise. That all its lines can be read
-- is a premise throughout.
pub calculate_invoice_totals-exact :
    (clean : Text → Text) (lines : List InvoiceLineInput) (rs : List Reading)
    → AreReadings clean lines rs
    → calculate_invoice_totals clean lines ≡ (
        if leb 1 (length lines) && leb (length lines) 100
        then (if all product_fits rs && leb (exact_total rs) maximum
            then ok (exact_totals clean lines rs)
            else err invoice_amount_overflow)
        else err invalid_invoice_lines)
unfolding calculate_invoice_totals
calculate_invoice_totals-exact clean lines rs h =
    elim (Bool-cases (leb 1 (length lines) && leb (length lines) 100)) [
      | inl few ↦
          rw few (calculate_invoice_totals-readable clean lines rs h (ground arith) (ground arith))
      | inr refused ↦
          let test : (ltb (length lines) 1 || ltb 100 (length lines)) ≡ true = ground arith in
          rw (refused, test) refl
    ]
