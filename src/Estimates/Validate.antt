-- ===== src/Estimates/Validate.antt =====
-- `_validate_generated_estimate` and `_validate_estimate_ready_for_approval` of
-- app/estimate_store.py: the totals of an estimate are worked out again from its lines. Amounts are
-- cents; the hours are a coefficient and a scale. Sums of hours are exact here: `Decimal` rounds
-- one of more than 28 digits.
use optimus_os.Base.{
  ℕ, ◌+◌, ◌*◌, ◌^◌, String, Bool, true, false, List, [], ◌∷◌, ltb, leb, ◌==◌, ◌&&◌, ◌||◌, not, any,
  sum_of, if◌then◌else◌,
}
use optimus_os.Base.Int.{pos, negsuc}
use optimus_os.Base.Text.{same_text, is_blank}
use optimus_os.Base.Money.{Decimal, number, not_finite, round_div}
use optimus_os.Base.Result.{ok, err, ◌>>=◌, ◌>>◌, guard}
use optimus_os.Errors.{
  Outcome, invalid_operation, generation_failed, data_required, labor_mismatch, part_mismatch,
  part_pricing_missing, labor_subtotal_mismatch, parts_subtotal_mismatch, fee_mismatch,
  tax_mismatch, hours_mismatch, total_mismatch, total_not_positive, not_sendable, terms_missing,
  zero_value,
}
use optimus_os.Db.Work.{
  Estimate, EstimateStatus, draft, ready, EstimateRevision, EstimateResponse, LaborItem,
  SelectedPart, FeeItem, Totals,
}

abbrev pub fits : ℕ → Outcome ℕ
fits cents = if ltb cents (10 ^ 28) then ok cents else err invalid_operation

-- `_money`
unfoldable pub money : Decimal → Outcome ℕ
money not_finite = err generation_failed
money (number (negsuc n) scale) = err generation_failed
money (number (pos n) scale) = fits (round_div (n * 100) (10 ^ scale))

-- `fee_map`: the last amount of each code.
abbrev pub put_fee : String → ℕ → List (String × ℕ) → List (String × ℕ)
put_fee code amount [] = (code, amount) ∷ []
put_fee code amount (f ∷ fees) =
    if same_text f.0 code then (code, amount) ∷ fees else f ∷ put_fee code amount fees

unfoldable pub fee_map : List (String × ℕ) → List FeeItem → Outcome (List (String × ℕ))
fee_map fees [] = ok fees
fee_map fees (item ∷ items) = do
  amount ← money item.amount
  fee_map (put_fee item.code amount fees) items

abbrev pub fee_of : String → List (String × ℕ) → ℕ
fee_of code [] = 0
fee_of code (f ∷ fees) = if same_text f.0 code then f.1 else fee_of code fees

abbrev pub is_named : String → Bool
is_named code =
    same_text code "shop_supplies"
    || (same_text code "mobile_service_fee" || same_text code "parts_tax")

-- Coefficient and scale of hours, which are finite by the bounds of their field.
unfoldable pub hours_of : Decimal → Outcome (ℕ × ℕ)
hours_of not_finite = err invalid_operation
hours_of (number (negsuc n) scale) = err generation_failed
hours_of (number (pos n) scale) = ok (n, scale)

abbrev pub add_hours : ℕ × ℕ → ℕ × ℕ → ℕ × ℕ
add_hours (n, s) (m, t) = (n * 10 ^ t + m * 10 ^ s, s + t)

-- `_money(labor_hours * labor_rate)`, with the rate in cents.
abbrev pub charge : ℕ × ℕ → ℕ → Outcome ℕ
charge (n, scale) rate = money (number (pos (n * rate)) (scale + 2))

pub record LaborSums : Type 0 where
  pub hours : ℕ × ℕ
  pub total : ℕ
  pub positive_lines : ℕ

abbrev pub no_labor : LaborSums
no_labor = record { hours = (0, 0); total = 0; positive_lines = 0 }

abbrev pub after_line : LaborSums → ℕ × ℕ → ℕ → LaborSums
after_line sums hours total = record {
  hours = add_hours sums.hours hours;
  total = sums.total + total;
  positive_lines = if ltb 0 total then sums.positive_lines + 1 else sums.positive_lines;
}

unfoldable pub labor_line : LaborSums → LaborItem → Outcome LaborSums
labor_line sums item = do
  rate ← money item.labor_rate
  total ← money item.labor_total
  hours ← hours_of item.labor_hours
  guard (not (ltb 0 hours.0 && total == 0)) generation_failed
  expected ← charge hours rate
  guard (total == expected) labor_mismatch
  ok (after_line sums hours total)

unfoldable pub labor_lines : LaborSums → List LaborItem → Outcome LaborSums
labor_lines sums [] = ok sums
labor_lines sums (item ∷ items) = do sums' ← labor_line sums item; labor_lines sums' items

-- A quantity below one is refused, so one that is not a natural number needs no value here.
unfoldable pub part_line : ℕ → SelectedPart → Outcome ℕ
part_line subtotal part = do
  guard (leb 1 part.quantity) generation_failed
  unit_price ← money part.unit_price
  extended_price ← money part.extended_price
  expected ← money (number (pos (unit_price * part.quantity)) 2)
  guard (extended_price == expected) part_mismatch
  ok (subtotal + extended_price)

unfoldable pub part_lines : ℕ → List SelectedPart → Outcome ℕ
part_lines subtotal [] = ok subtotal
part_lines subtotal (part ∷ parts) = do
  subtotal' ← part_line subtotal part
  part_lines subtotal' parts

abbrev pub is_empty {ℓ} : {A : Type ℓ} → List A → Bool
is_empty [] = true
is_empty (x ∷ xs) = false

-- The fees whose code is none of the three that `totals` has a field for.
abbrev pub additional_fees : List (String × ℕ) → ℕ
additional_fees fees = sum_of (λ f. if is_named f.0 then 0 else f.1) fees

-- The comparisons of `totals` with what was worked out, and what the total must be.
unfoldable pub check_totals : Totals → LaborSums → ℕ → List (String × ℕ) → Outcome ℕ
check_totals totals labor parts fees = do
  labor_total ← money totals.labor_total
  guard (labor_total == labor.total) labor_subtotal_mismatch
  parts_subtotal ← money totals.parts_subtotal
  guard (parts_subtotal == parts) parts_subtotal_mismatch
  shop_supplies ← money totals.shop_supplies
  guard (shop_supplies == fee_of "shop_supplies" fees) fee_mismatch
  mobile_service_fee ← money totals.mobile_service_fee
  guard (mobile_service_fee == fee_of "mobile_service_fee" fees) fee_mismatch
  parts_tax ← money totals.parts_tax
  guard (parts_tax == fee_of "parts_tax" fees) tax_mismatch
  labor_hours ← money totals.labor_hours
  hours ← money (number (pos labor.hours.0) labor.hours.1)
  guard (labor_hours == hours) hours_mismatch
  total ← fits (
      labor.total
      + parts
      + fee_of "shop_supplies" fees
      + fee_of "mobile_service_fee" fees
      + fee_of "parts_tax" fees
      + additional_fees fees)
  estimated_total ← money totals.estimated_total
  guard (estimated_total == total) total_mismatch
  ok total

unfoldable pub validate_generated_estimate : EstimateResponse → Outcome (Unit {0})
validate_generated_estimate response = do
  fees ← fee_map [] response.fee_items
  guard (not (is_empty response.labor_items && is_empty response.selected_parts)) data_required
  labor ← labor_lines no_labor response.labor_items
  parts ← part_lines 0 response.selected_parts
  guard (not (any (λ p. p.required) response.requirements && is_empty response.selected_parts))
      part_pricing_missing
  total ← check_totals response.totals labor parts fees
  guard (ltb 0 total) total_not_positive
  guard (is_empty response.labor_items || ltb 0 labor.positive_lines) data_required
  guard (ltb 0 labor.positive_lines || ltb 0 parts) data_required

abbrev pub is_sendable : EstimateStatus → Bool
is_sendable draft = true
is_sendable ready = true
is_sendable _ = false

unfoldable pub validate_estimate_ready_for_approval :
    Estimate → EstimateRevision → Outcome (Unit {0})
validate_estimate_ready_for_approval e r = do
  guard (is_sendable e.status) not_sendable
  guard (not (is_blank r.terms_text)) terms_missing
  validate_generated_estimate r.estimate_response_payload
  total ← money r.estimate_response_payload.totals.estimated_total
  guard (ltb 0 total) zero_value
