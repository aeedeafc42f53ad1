-- ===== src/Estimates/Reconciled.antt =====
-- The amounts that `_validate_generated_estimate` of app/estimate_store.py lets through, compared
-- with hours, rates, prices and quantities of the lines.
use optimus_os.Base.{
  ℕ, ◌≡◌, refl, ◌+◌, ◌*◌, ◌^◌, ◌<◌, String, true, List, [], ◌∷◌, ltb, leb, ◌==◌, ◌&&◌, not, any,
  sum_of, arith, ap, sym, ◌∙◌, Bool-cases, inl, inr, ==_eq,
}
use optimus_os.Base.Int.{pos}
use optimus_os.Base.Money.{number}
use optimus_os.Estimates.Fees.{all_fees, all_fees-sum_of, fee_map-Distinct}
use optimus_os.Base.Result.{err, ok, ok_unique, >>=-eq-ok, guard, guard-eq-ok}
use optimus_os.Errors.{
  generation_failed, data_required, labor_mismatch, part_mismatch, part_pricing_missing,
  labor_subtotal_mismatch, parts_subtotal_mismatch, fee_mismatch, tax_mismatch, hours_mismatch,
  total_mismatch, total_not_positive,
}
use optimus_os.Db.Work.{EstimateResponse, LaborItem, SelectedPart, Totals}
use optimus_os.Estimates.Validate.{
  money, fee_map, fee_of, hours_of, charge, LaborSums, labor_line, labor_lines, part_line,
  part_lines, is_empty, additional_fees, check_totals, validate_generated_estimate, fits,
  after_line, no_labor,
}

-- The labor of a list of lines: each costs its hours times its rate, to the cent.
abbrev pub Billed : List LaborItem → ℕ → Type 0
Billed [] n = n ≡ 0
Billed (item ∷ items) n =
    (hours : ℕ × ℕ) × (rate cost rest : ℕ) × (hours_of item.labor_hours ≡ ok hours)
    × (money item.labor_rate ≡ ok rate)
    × (charge hours rate ≡ ok cost)
    × (money item.labor_total ≡ ok cost)
    × Billed items rest
    × (n ≡ cost + rest)

-- The parts of a list of lines: each costs its price times its quantity, which is positive.
abbrev pub Priced : List SelectedPart → ℕ → Type 0
Priced [] n = n ≡ 0
Priced (part ∷ parts) n =
    (price cost rest : ℕ) × (0 < part.quantity)
    × (money part.unit_price ≡ ok price)
    × (money (number (pos (price * part.quantity)) 2) ≡ ok cost)
    × (money part.extended_price ≡ ok cost)
    × Priced parts rest
    × (n ≡ cost + rest)

labor_lines-Billed :
    (sums : LaborSums) (items : List LaborItem) (out : LaborSums)
    → labor_lines sums items ≡ ok out
    → (n : ℕ) × Billed items n × (out.total ≡ sums.total + n)
unfolding labor_lines labor_line
labor_lines-Billed sums [] out h =
    (0, refl, ap (λ s. s.total) (sym (ok_unique {r = ok sums} refl h)) ∙ omega arith)
labor_lines-Billed sums (item ∷ items) out h =
    let (next, line, h₀) = >>=-eq-ok (labor_line sums item) _ _ h in
    let (rate, e₁, h₁) = >>=-eq-ok (money item.labor_rate) _ _ line in
    let (total, e₂, h₂) = >>=-eq-ok (money item.labor_total) _ _ h₁ in
    let (hours, e₃, h₃) = >>=-eq-ok (hours_of item.labor_hours) _ _ h₂ in
    let (u₁, e₄, h₄) =
      >>=-eq-ok (guard (not (ltb 0 hours.0 && total == 0)) generation_failed) _ _ h₃ in
    let (expected, e₅, h₅) = >>=-eq-ok (charge hours rate) _ _ h₄ in
    let (u₂, e₆, h₆) = >>=-eq-ok (guard (total == expected) labor_mismatch) _ _ h₅ in
    let same : total ≡ expected = ==_eq _ _ (guard-eq-ok _ labor_mismatch e₆) in
    let added : sums.total + total ≡ next.total =
      ap (λ s. s.total) (ok_unique {r = ok (after_line sums hours total)} refl h₆) in
    let (rest, billed, sum) = labor_lines-Billed next items out h₀ in
    (
      total + rest,
      (hours, rate, total, rest, e₃, e₁, e₅ ∙ ap (λ c. ok c) (sym same), e₂, billed, refl),
      omega (arith, sum, added),
    )

part_lines-Priced :
    (subtotal : ℕ) (parts : List SelectedPart) (out : ℕ)
    → part_lines subtotal parts ≡ ok out
    → (n : ℕ) × Priced parts n × (out ≡ subtotal + n)
unfolding part_lines part_line
part_lines-Priced subtotal [] out h =
    (0, refl, sym (ok_unique {r = ok subtotal} refl h) ∙ omega arith)
part_lines-Priced subtotal (part ∷ parts) out h =
    let (next, line, h₀) = >>=-eq-ok (part_line subtotal part) _ _ h in
    let (u₁, e₁, h₁) = >>=-eq-ok (guard (leb 1 part.quantity) generation_failed) _ _ line in
    let (price, e₂, h₂) = >>=-eq-ok (money part.unit_price) _ _ h₁ in
    let (total, e₃, h₃) = >>=-eq-ok (money part.extended_price) _ _ h₂ in
    let (expected, e₄, h₄) = >>=-eq-ok (money (number (pos (price * part.quantity)) 2)) _ _ h₃ in
    let (u₂, e₅, h₅) = >>=-eq-ok (guard (total == expected) part_mismatch) _ _ h₄ in
    let same : total ≡ expected = ==_eq _ _ (guard-eq-ok _ part_mismatch e₅) in
    let some_parts : leb 1 part.quantity ≡ true = guard-eq-ok _ generation_failed e₁ in
    let added : subtotal + total ≡ next = ok_unique {r = ok (subtotal + total)} refl h₅ in
    let (rest, priced, sum) = part_lines-Priced next parts out h₀ in
    (
      total + rest,
      (
        price,
        total,
        rest,
        ground (arith, some_parts),
        e₂,
        e₄ ∙ ap (λ c. ok c) (sym same),
        e₃,
        priced,
        refl,
      ),
      omega (arith, sum, added),
    )

err_is_not_ok {ℓ} : {A : Type ℓ} {E : Type 0} {e : E} {a : A} → err e ≡ ok a → ⊥
err_is_not_ok h = cc

fits-eq : (n m : ℕ) → fits n ≡ ok m → n ≡ m
fits-eq n m h = elim (Bool-cases (ltb n (10 ^ 28))) [
  | inl small ↦ ok_unique {r = ok n} refl (rw small at h)
  | inr large ↦ absurd (err_is_not_ok (rw large at h))
]

from_zero : (n out : ℕ) → out ≡ 0 + n → out ≡ n
from_zero n out h = omega (arith, h)

-- What the comparisons of the totals have found.
record Agree (totals : Totals) (labor parts : ℕ) (fees : List (String × ℕ)) (total : ℕ)
    : Type 0 where
  labor_total : money totals.labor_total ≡ ok labor
  parts_subtotal : money totals.parts_subtotal ≡ ok parts
  estimated_total : money totals.estimated_total ≡ ok total
  sum : total ≡ labor + parts + all_fees fees

check_totals-Agree :
    (totals : Totals) (labor : LaborSums) (parts : ℕ) (fees : List (String × ℕ)) (total : ℕ)
    → check_totals totals labor parts fees ≡ ok total
    → Agree totals labor.total parts fees total
unfolding check_totals
check_totals-Agree totals labor parts fees total h =
    let (a, e₁, h₁) = >>=-eq-ok (money totals.labor_total) _ _ h in
    let (u₂, e₂, h₂) = >>=-eq-ok (guard (a == labor.total) labor_subtotal_mismatch) _ _ h₁ in
    let (b, e₃, h₃) = >>=-eq-ok (money totals.parts_subtotal) _ _ h₂ in
    let (u₄, e₄, h₄) = >>=-eq-ok (guard (b == parts) parts_subtotal_mismatch) _ _ h₃ in
    let (c, e₅, h₅) = >>=-eq-ok (money totals.shop_supplies) _ _ h₄ in
    let (u₆, e₆, h₆) = >>=-eq-ok (guard (c == fee_of "shop_supplies" fees) fee_mismatch) _ _ h₅ in
    let (d, e₇, h₇) = >>=-eq-ok (money totals.mobile_service_fee) _ _ h₆ in
    let (u₈, e₈, h₈) =
      >>=-eq-ok (guard (d == fee_of "mobile_service_fee" fees) fee_mismatch) _ _ h₇ in
    let (f, e₉, h₉) = >>=-eq-ok (money totals.parts_tax) _ _ h₈ in
    let (v₁, f₁, k₁) = >>=-eq-ok (guard (f == fee_of "parts_tax" fees) tax_mismatch) _ _ h₉ in
    let (g, f₂, k₂) = >>=-eq-ok (money totals.labor_hours) _ _ k₁ in
    let (w, f₃, k₃) = >>=-eq-ok (money (number (pos labor.hours.0) labor.hours.1)) _ _ k₂ in
    let (v₄, f₄, k₄) = >>=-eq-ok (guard (g == w) hours_mismatch) _ _ k₃ in
    let (t, f₅, k₅) =
      >>=-eq-ok
        (fits (
          labor.total
          + parts
          + fee_of "shop_supplies" fees
          + fee_of "mobile_service_fee" fees
          + fee_of "parts_tax" fees
          + additional_fees fees))
        _ _ k₄ in
    let (x, f₆, k₆) = >>=-eq-ok (money totals.estimated_total) _ _ k₅ in
    let (v₇, f₇, k₇) = >>=-eq-ok (guard (x == t) total_mismatch) _ _ k₆ in
    let is_labor : a ≡ labor.total = ==_eq _ _ (guard-eq-ok _ labor_subtotal_mismatch e₂) in
    let is_parts : b ≡ parts = ==_eq _ _ (guard-eq-ok _ parts_subtotal_mismatch e₄) in
    let is_sum : x ≡ t = ==_eq _ _ (guard-eq-ok _ total_mismatch f₇) in
    let is_total : t ≡ total = ok_unique {r = ok t} refl k₇ in
    let fit = fits-eq _ t f₅ in
    record {
      labor_total = e₁ ∙ ap (λ n. ok n) is_labor;
      parts_subtotal = e₃ ∙ ap (λ n. ok n) is_parts;
      estimated_total = f₆ ∙ ap (λ n. ok n) (is_sum ∙ is_total);
      sum = omega (arith, fit, is_total);
    }

-- A response that passes the validation reconciles, in cents: the labor is the sum of hours times
-- rate of its lines, the parts the sum of price times quantity, both equal to the totals that are
-- shown, and the estimated total is labor plus parts plus the fees, one to a code, and positive.
pub validate_generated_estimate-total :
    (response : EstimateResponse)
    → validate_generated_estimate response ≡ ok tt
    → (labor parts total : ℕ) × (fees : List (String × ℕ)) × Billed response.labor_items labor
      × Priced response.selected_parts parts
      × (fee_map [] response.fee_items ≡ ok fees)
      × (money response.totals.labor_total ≡ ok labor)
      × (money response.totals.parts_subtotal ≡ ok parts)
      × (money response.totals.estimated_total ≡ ok total)
      × (total ≡ labor + parts + sum_of (λ f. f.1) fees)
      × (0 < total)
unfolding validate_generated_estimate
validate_generated_estimate-total response h =
    let (fees, e₁, h₁) = >>=-eq-ok (fee_map [] response.fee_items) _ _ h in
    let (u₂, e₂, h₂) =
      >>=-eq-ok
        (guard (not (is_empty response.labor_items && is_empty response.selected_parts))
          data_required)
        _ _ h₁ in
    let (labor, e₃, h₃) = >>=-eq-ok (labor_lines no_labor response.labor_items) _ _ h₂ in
    let (parts, e₄, h₄) = >>=-eq-ok (part_lines 0 response.selected_parts) _ _ h₃ in
    let (u₅, e₅, h₅) =
      >>=-eq-ok
        (guard
          (not (any (λ p. p.required) response.requirements && is_empty response.selected_parts))
          part_pricing_missing)
        _ _ h₄ in
    let (total, e₆, h₆) = >>=-eq-ok (check_totals response.totals labor parts fees) _ _ h₅ in
    let (u₇, e₇, h₇) = >>=-eq-ok (guard (ltb 0 total) total_not_positive) _ _ h₆ in
    let (n, billed, labor_sum) = labor_lines-Billed no_labor response.labor_items labor e₃ in
    let (m, priced, parts_sum) = part_lines-Priced 0 response.selected_parts parts e₄ in
    let agree = check_totals-Agree response.totals labor parts fees total e₆ in
    let fees_sum = all_fees-sum_of fees (fee_map-Distinct [] response.fee_items fees tt e₁) in
    let is_positive : ltb 0 total ≡ true = guard-eq-ok _ total_not_positive e₇ in
    let sum = agree.sum in
    (
      n,
      m,
      total,
      fees,
      billed,
      priced,
      e₁,
      agree.labor_total ∙ ap (λ k. ok k) (from_zero n labor.total labor_sum),
      agree.parts_subtotal ∙ ap (λ k. ok k) (from_zero m parts parts_sum),
      agree.estimated_total,
      omega (arith, sum, fees_sum, labor_sum, parts_sum),
      ground (arith, is_positive),
    )
