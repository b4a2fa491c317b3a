-- ===== src/Platform/Invoices/Tests.antt =====
-- An invoice of one and a half hours and of a fee.
use solana_payment_ops.Common.{
  ℕ, ◌*◌, ◌≤◌, ◌≡◌, refl, ◌&&◌, none, List, [], ◌∷◌, All, all, leb, if◌then◌else◌,
}
use solana_payment_ops.Common.Result.{ok, err}
use solana_payment_ops.Common.Rounding.{IsCeiling}
use solana_payment_ops.Common.Decimal.{Text, codes, format}
use solana_payment_ops.Platform.Invoices.{
  invoice_amount_overflow, InvoiceLineInput, maximum, calculate_line, calculate_amounts,
  calculate_lines, calculate_invoice_totals,
}
use solana_payment_ops.Platform.Invoices.Totals.{
  Reading, AreReadings, exact_amount, exact_total, exact_totals, product_fits,
  calculate_invoice_totals-exact,
}
use solana_payment_ops.Platform.Invoices.Accepted.{calculate_invoice_totals-returns}

abbrev as_given : Text → Text
as_given text = text

abbrev line_of : Text → Text → InvoiceLineInput
line_of quantity price = record {
  description = codes "work";
  quantity = quantity;
  unit_price_minor_units = price;
  tax_label = none;
  tax_minor_units = codes "7";
}

abbrev two_work_lines : List InvoiceLineInput
two_work_lines = line_of (codes "1.5") (codes "333") ∷ line_of (codes "1") (codes "1000") ∷ []

abbrev reading_of : Text → ℕ → ℕ → ℕ → Reading
reading_of text numerator denominator price = record {
  quantity = record { numerator = numerator; denominator = denominator; canonical = text };
  price = price;
  tax = 7;
  label = none;
}

abbrev two_readings : List Reading
two_readings = reading_of (codes "1.5") 15 10 333 ∷ reading_of (codes "1") 1 1 1000 ∷ []

two_are_read : AreReadings as_given two_work_lines two_readings
unfolding maximum
two_are_read = ((refl, refl, refl, refl, refl), ((refl, refl, refl, refl, refl), tt))

two_are_totalled :
    calculate_invoice_totals as_given two_work_lines
    ≡ ok (exact_totals as_given two_work_lines two_readings)
unfolding calculate_invoice_totals calculate_lines calculate_line calculate_amounts maximum format
two_are_totalled = refl

-- 499.5 is rounded up to 500.
total_of_two : exact_total two_readings ≡ 1514
total_of_two = refl

calculate_invoice_totals-exact_example : calculate_invoice_totals as_given two_work_lines ≡ (
    if all product_fits two_readings && leb (exact_total two_readings) maximum
    then ok (exact_totals as_given two_work_lines two_readings)
    else err invoice_amount_overflow)
calculate_invoice_totals-exact_example =
    calculate_invoice_totals-exact as_given two_work_lines two_readings two_are_read

calculate_invoice_totals-returns_example :
    (1 ≤ 2)
    × (2 ≤ 100)
    × ((rs : List Reading) × AreReadings as_given two_work_lines rs
        × (exact_totals as_given two_work_lines two_readings
            ≡ exact_totals as_given two_work_lines rs)
        × (exact_total rs ≤ maximum)
        × All
            (λ r.
              IsCeiling (r.quantity.numerator * r.price) r.quantity.denominator (exact_amount r))
            rs)
calculate_invoice_totals-returns_example =
    calculate_invoice_totals-returns as_given two_work_lines
      (exact_totals as_given two_work_lines two_readings) two_are_totalled
