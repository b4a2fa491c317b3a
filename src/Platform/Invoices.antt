-- ===== src/Platform/Invoices.antt =====
-- packages/platform/src/invoices/arithmetic.ts: the totals of an invoice. What `trim` and `normalize`
-- make of a text is the parameter `clean`.
pub mod Totals
pub mod Accepted
mod Tests
use solana_payment_ops.Common.{
  ℕ, ◌+◌, ◌-◌, ◌*◌, ◌/◌, ◌^◌, Bool, true, false, ◌&&◌, ◌||◌, not, Option, none, some, List, [], ◌∷◌,
  ◌++◌, if◌then◌else◌, ltb, leb, ◌==◌, length,
}
use solana_payment_ops.Common.Result.{Result, ok, err, ◌>>=◌, throw_if}
use solana_payment_ops.Common.Decimal.{Text, parse, format}
use solana_payment_ops.Platform.Numerals.{
  is_integer_text, is_decimal_text, before_point, after_point, or_empty, eq_text,
}

pub data InvoiceError : Type 0 where
  invalid_invoice_lines invalid_invoice_line_description invalid_invoice_amount : InvoiceError
  invalid_invoice_quantity invalid_invoice_tax_label : InvoiceError
  invoice_amount_overflow invoice_total_mismatch : InvoiceError

pub record InvoiceLineInput : Type 0 where
  pub description : Text
  pub quantity : Text
  pub unit_price_minor_units : Text
  pub tax_label : Option Text
  pub tax_minor_units : Text

pub record CalculatedInvoiceLine : Type 0 where
  pub description : Text
  pub quantity : Text
  pub unit_price_minor_units : Text
  pub tax_label : Option Text
  pub tax_minor_units : Text
  pub line_subtotal_minor_units : Text

pub record InvoiceTotals : Type 0 where
  pub lines : List CalculatedInvoiceLine
  pub subtotal_minor_units : Text
  pub tax_minor_units : Text
  pub total_minor_units : Text

pub record Quantity : Type 0 where
  pub numerator : ℕ
  pub denominator : ℕ
  pub canonical : Text

unfoldable pub maximum : ℕ
maximum = 10 ^ 38 - 1

abbrev pub checked_multiply : ℕ → ℕ → Result InvoiceError ℕ
checked_multiply left right =
    if not (left == 0) && ltb (maximum / left) right
    then err invoice_amount_overflow
    else ok (left * right)

abbrev pub checked_amount : ℕ → Result InvoiceError ℕ
checked_amount value = if ltb maximum value then err invoice_amount_overflow else ok value

abbrev pub parse_amount : Text → Result InvoiceError ℕ
parse_amount value =
    if is_integer_text 37 value then checked_amount (parse value) else err invalid_invoice_amount

abbrev pub parse_quantity : Text → Result InvoiceError Quantity
parse_quantity value =
    let fraction = or_empty (after_point value) in
    let numerator = parse (before_point value ++ fraction) in
    if is_decimal_text 37 6 value
    then (if numerator == 0
        then err invalid_invoice_quantity
        else ok (record {
          numerator = numerator;
          denominator = 10 ^ length fraction;
          canonical = value;
        }))
    else err invalid_invoice_quantity

abbrev pub in_range : ℕ → Text → Bool
in_range most text = leb 1 (length text) && leb (length text) most

abbrev pub normalize_tax_label : (Text → Text) → Option Text → Result InvoiceError (Option Text)
normalize_tax_label clean none = ok none
normalize_tax_label clean (some value) =
    if in_range 128 (clean value) then ok (some (clean value)) else err invalid_invoice_tax_label

-- The sums so far, and the lines that gave them.
pub record Running : Type 0 where
  pub lines : List CalculatedInvoiceLine
  pub subtotal : ℕ
  pub tax : ℕ

-- `(numerator + quantity.denominator - 1n) / quantity.denominator`
abbrev pub rounded_up : ℕ → ℕ → ℕ
rounded_up n d = (n + d - 1) / d

abbrev pub calculated_line : Text → Quantity → ℕ → ℕ → ℕ → Option Text → CalculatedInvoiceLine
calculated_line description quantity price tax subtotal label = record {
  description = description;
  quantity = quantity.canonical;
  unit_price_minor_units = format price;
  tax_label = label;
  tax_minor_units = format tax;
  line_subtotal_minor_units = format subtotal;
}

-- The part of the closure that computes, from what it has read; the label is read last.
unfoldable pub calculate_amounts :
    (Text → Text)
    → ℕ
    → ℕ
    → InvoiceLineInput
    → Quantity
    → ℕ
    → ℕ
    → Result InvoiceError (CalculatedInvoiceLine × ℕ × ℕ)
calculate_amounts clean subtotal tax line quantity price line_tax =
    checked_multiply quantity.numerator price >>= λ numerator.
    checked_amount (rounded_up numerator quantity.denominator) >>= λ line_subtotal.
    checked_amount (subtotal + line_subtotal) >>= λ new_subtotal.
    checked_amount (tax + line_tax) >>= λ new_tax.
    normalize_tax_label clean line.tax_label >>= λ label. ok (
      calculated_line (clean line.description) quantity price line_tax line_subtotal label,
      new_subtotal,
      new_tax,
    )

unfoldable pub calculate_line :
    (Text → Text) → ℕ → ℕ → InvoiceLineInput → Result InvoiceError (CalculatedInvoiceLine × ℕ × ℕ)
calculate_line clean subtotal tax line =
    throw_if (not (in_range 512 (clean line.description))) invalid_invoice_line_description >>= λ _.
    parse_quantity line.quantity >>= λ quantity.
    parse_amount line.unit_price_minor_units >>= λ price.
    parse_amount line.tax_minor_units >>= λ line_tax.
    calculate_amounts clean subtotal tax line quantity price line_tax

unfoldable pub calculate_lines :
    (Text → Text) → ℕ → ℕ → List InvoiceLineInput → Result InvoiceError Running
calculate_lines clean subtotal tax [] = ok (record { lines = []; subtotal = subtotal; tax = tax })
calculate_lines clean subtotal tax (line ∷ rest) =
    calculate_line clean subtotal tax line >>= λ calculated.
    calculate_lines clean calculated.1 calculated.2 rest >>= λ running. ok (record {
      lines = calculated.0 ∷ running.lines;
      subtotal = running.subtotal;
      tax = running.tax;
    })

unfoldable pub calculate_invoice_totals :
    (Text → Text) → List InvoiceLineInput → Result InvoiceError InvoiceTotals
calculate_invoice_totals clean input =
    throw_if (ltb (length input) 1 || ltb 100 (length input)) invalid_invoice_lines >>= λ _.
    calculate_lines clean 0 0 input >>= λ running.
    checked_amount (running.subtotal + running.tax) >>= λ total. ok (record {
      lines = running.lines;
      subtotal_minor_units = format running.subtotal;
      tax_minor_units = format running.tax;
      total_minor_units = format total;
    })

-- The optional `expected` totals.
pub record ExpectedTotals : Type 0 where
  pub subtotal_minor_units : Option Text
  pub tax_minor_units : Option Text
  pub total_minor_units : Option Text

-- `expected[key] !== undefined && expected[key] !== actual[key]`
abbrev pub differs : Option Text → Text → Bool
differs none actual = false
differs (some expected) actual = not (eq_text expected actual)

unfoldable pub assert_expected_totals :
    InvoiceTotals → ExpectedTotals → Result InvoiceError (Unit {0})
assert_expected_totals actual expected =
    throw_if (differs expected.subtotal_minor_units actual.subtotal_minor_units)
      invoice_total_mismatch
    >>= λ _.
        throw_if (differs expected.tax_minor_units actual.tax_minor_units) invoice_total_mismatch
        >>= λ _.
            throw_if (differs expected.total_minor_units actual.total_minor_units)
              invoice_total_mismatch
