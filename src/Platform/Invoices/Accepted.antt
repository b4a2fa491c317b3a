-- ===== src/Platform/Invoices/Accepted.antt =====
-- What packages/platform/src/invoices/arithmetic.ts has checked of an invoice that it totals.
use native.Mathlib.Nat
use solana_payment_ops.Common.{
  ℕ, ◌+◌, ◌*◌, ◌^◌, ◌<◌, ◌≤◌, ◌≡◌, refl, sym, ◌∙◌, subst, Bool, true, false, ◌||◌, not, Option,
  List, [], ◌∷◌, ltb, length, all, arith, All,
}
use solana_payment_ops.Common.Result.{
  ok, throw_if, >>=-eq-ok, if-eq-ok, if-else-eq-ok, ok-injective,
}
use solana_payment_ops.Common.Rounding.{IsCeiling, rounded_up-IsCeiling}
use solana_payment_ops.Common.Decimal.{Text}
use solana_payment_ops.Platform.Numerals.{after_point, or_empty}
use solana_payment_ops.Platform.Invoices.{
  InvoiceLineInput, InvoiceTotals, Quantity, maximum, parse_amount, parse_quantity, rounded_up,
  calculate_amounts, calculate_line, calculate_lines, calculate_invoice_totals, checked_multiply,
  checked_amount, normalize_tax_label, in_range, invalid_invoice_line_description,
  invalid_invoice_lines,
}
use solana_payment_ops.Platform.Invoices.Totals.{
  Reading, IsReading, AreReadings, exact_amount, exact_total, exact_totals, product_fits,
  calculate_invoice_totals-readable,
}

throw_if-passed : {E : Type 0} (c : Bool) (e : E) {u : Unit {0}} → throw_if c e ≡ ok u → c ≡ false
throw_if-passed true e h = cc h
throw_if-passed false e h = refl

label-of_ok :
    (clean : Text → Text) (s t : ℕ) (line : InvoiceLineInput) (q : Quantity) (p x : ℕ)
    → {out : _} → calculate_amounts clean s t line q p x ≡ ok out
    → (label : Option Text) × (normalize_tax_label clean line.tax_label ≡ ok label)
unfolding calculate_amounts
label-of_ok clean s t line q p x h =
    let a = >>=-eq-ok (checked_multiply q.numerator p) _ h in
    let b = >>=-eq-ok (checked_amount (rounded_up a.0 q.denominator)) _ a.2 in
    let c = >>=-eq-ok (checked_amount (s + b.0)) _ b.2 in
    let d = >>=-eq-ok (checked_amount (t + x)) _ c.2 in
    let e = >>=-eq-ok (normalize_tax_label clean line.tax_label) _ d.2 in (e.0, e.1)

reading-of_ok :
    (clean : Text → Text) (s t : ℕ) (line : InvoiceLineInput)
    → {out : _} → calculate_line clean s t line ≡ ok out
    → (r : Reading) × IsReading clean line r
unfolding calculate_line
reading-of_ok clean s t line h =
    let a =
      >>=-eq-ok
        (throw_if (not (in_range 512 (clean line.description))) invalid_invoice_line_description) _
        h in
    let b = >>=-eq-ok (parse_quantity line.quantity) _ a.2 in
    let c = >>=-eq-ok (parse_amount line.unit_price_minor_units) _ b.2 in
    let d = >>=-eq-ok (parse_amount line.tax_minor_units) _ c.2 in
    let l = label-of_ok clean s t line b.0 c.0 d.0 d.2 in
    let passed : not (in_range 512 (clean line.description)) ≡ false = throw_if-passed _ _ a.1 in
    (
      record { quantity = b.0; price = c.0; tax = d.0; label = l.0 },
      (ground arith, b.1, c.1, d.1, l.1),
    )

readings-of_ok :
    (clean : Text → Text) (s t : ℕ) (lines : List InvoiceLineInput)
    → {out : _} → calculate_lines clean s t lines ≡ ok out
    → (rs : List Reading) × AreReadings clean lines rs
unfolding calculate_lines
readings-of_ok clean s t [] h = ([], tt)
readings-of_ok clean s t (line ∷ lines) h =
    let a = >>=-eq-ok (calculate_line clean s t line) _ h in
    let b = >>=-eq-ok (calculate_lines clean a.0.1 a.0.2 lines) _ a.2 in
    let r = reading-of_ok clean s t line a.1 in
    let rs = readings-of_ok clean a.0.1 a.0.2 lines b.1 in (r.0 ∷ rs.0, (r.1, rs.1))

counted-of_ok :
    (clean : Text → Text) (lines : List InvoiceLineInput)
    → {out : _} → calculate_invoice_totals clean lines ≡ ok out
    → (running : _) × ((ltb (length lines) 1 || ltb 100 (length lines)) ≡ false)
      × (calculate_lines clean 0 0 lines ≡ ok running)
unfolding calculate_invoice_totals
counted-of_ok clean lines h =
    let a =
      >>=-eq-ok (throw_if (ltb (length lines) 1 || ltb 100 (length lines)) invalid_invoice_lines) _
        h in
    let b = >>=-eq-ok (calculate_lines clean 0 0 lines) _ a.2 in (b.0, throw_if-passed _ _ a.1, b.1)

denominator_pos : (text : Text) {q : Quantity} → parse_quantity text ≡ ok q → 0 < q.denominator
denominator_pos text {q} h =
    let positive : 0 < 10 ^ length (or_empty (after_point text)) =
      Nat.one-le-pow (length (or_empty (after_point text))) 10 (omega arith) in
    let matched = if-eq-ok _ _ _ h in
    let nonzero = if-else-eq-ok _ _ _ matched.1 in
    subst (λ q. 0 < q.denominator) (ok-injective nonzero.1) positive

readings-IsCeiling :
    (clean : Text → Text) (lines : List InvoiceLineInput) (rs : List Reading)
    → AreReadings clean lines rs
    → All
        (λ r. IsCeiling (r.quantity.numerator * r.price) r.quantity.denominator (exact_amount r))
        rs
readings-IsCeiling clean [] [] h = tt
readings-IsCeiling clean [] (r ∷ rs) h = absurd h
readings-IsCeiling clean (line ∷ lines) [] h = absurd h
readings-IsCeiling clean (line ∷ lines) (r ∷ rs) h = (
  rounded_up-IsCeiling (r.quantity.numerator * r.price) r.quantity.denominator
      (denominator_pos line.quantity h.0.1),
  readings-IsCeiling clean lines rs h.1,
)

-- An invoice that gets totals has one to a hundred lines, each of them read; its totals are the exact
-- ones and within the maximum, and each line's subtotal is its quantity times its price, rounded up.
pub calculate_invoice_totals-returns :
    (clean : Text → Text) (lines : List InvoiceLineInput) (out : InvoiceTotals)
    → calculate_invoice_totals clean lines ≡ ok out
    → (1 ≤ length lines)
      × (length lines ≤ 100)
      × ((rs : List Reading) × AreReadings clean lines rs
          × (out ≡ exact_totals clean lines rs)
          × (exact_total rs ≤ maximum)
          × All
              (λ r.
                IsCeiling (r.quantity.numerator * r.price) r.quantity.denominator (exact_amount r))
              rs)
calculate_invoice_totals-returns clean lines out h =
    let counted = counted-of_ok clean lines h in
    let few : (1 ≤ length lines) × (length lines ≤ 100) = ground arith in
    let rs = readings-of_ok clean 0 0 lines counted.2 in
    let exact = sym (calculate_invoice_totals-readable clean lines rs.0 rs.1 few.0 few.1) ∙ h in
    let fits = if-eq-ok _ _ _ exact in
    let conjuncts : (all product_fits rs.0 ≡ true) × (exact_total rs.0 ≤ maximum) = ground arith in
    (
      few.0,
      few.1,
      (
        rs.0,
        rs.1,
        sym (ok-injective fits.1),
        conjuncts.1,
        readings-IsCeiling clean lines rs.0 rs.1,
      ),
    )
