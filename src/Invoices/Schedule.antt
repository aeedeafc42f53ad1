-- ===== src/Invoices/Schedule.antt =====
-- `_generate_schedule_rows` of app/invoice_store.py.
use optimus_os.Base.{
  ℕ, suc, ◌+◌, ◌*◌, ◌^◌, ◌≤◌, ◌<◌, ◌≡◌, true, all, List, [], ◌∷◌, Option, none, some, arith, All,
}
use optimus_os.Base.Int.{
  ℤ, pos, negsuc, pos_part, neg_part, sub_ℕ, ◌-ℤ◌, ◌≤ℤ◌, sum_ℤ, int_laws, -ℤ_parts,
}
use optimus_os.Base.Money.{round_div, round_div-near}
use optimus_os.Db.Billing.{
  Invoice, PaymentSchedule, ScheduleLabel, deposit_row, balance_row, installment_1, installment_2,
  full_payment, fits_column,
}
use optimus_os.Db.Work.{PaymentOption, pay_in_full, split_payment, two_month_plan}

-- `_money(invoice_total / parts)`: a half is rounded away from zero. A `Decimal` keeps 28 digits, so
-- the quotient is not exact when it has more; such an amount does not fit the column of the schedule
-- either, and is refused there.
unfoldable pub share : ℤ → ℕ → ℤ
unfolding round_div
share (pos n) parts = pos (round_div n parts)
share (negsuc n) parts = sub_ℕ 0 (round_div (suc n) parts)

abbrev pub days : ℕ → ℕ
days n = n * 86400000000

-- `rows`: label, due date, amount.
unfoldable pub schedule_amounts : Option PaymentOption → ℤ → ℕ → ℕ → List (ScheduleLabel × ℕ × ℤ)
schedule_amounts (some split_payment) total issued_at due_at =
    (deposit_row, issued_at, share total 2) ∷ (balance_row, due_at, total -ℤ share total 2) ∷ []
schedule_amounts (some two_month_plan) total issued_at due_at =
    (deposit_row, issued_at, share total 3)
    ∷ (installment_1, issued_at + days 30, share total 3)
    ∷ (installment_2, issued_at + days 60, total -ℤ share total 3 -ℤ share total 3)
    ∷ []
schedule_amounts _ total issued_at due_at = (full_payment, due_at, total) ∷ []

-- The rows of the table, numbered from `sort_order`.
unfoldable pub schedule_rows : Invoice → ℕ → List (ScheduleLabel × ℕ × ℤ) → List PaymentSchedule
schedule_rows i sort_order [] = []
schedule_rows i sort_order ((label, due_at, amount) ∷ rows) =
    record {
      owner_user_id = i.owner_user_id;
      shop_id = i.shop_id;
      invoice_id = i.id;
      sort_order = sort_order;
      label = label;
      due_at = due_at;
      amount = amount;
    }
    ∷ schedule_rows i (suc sort_order) rows

-- The rows to be added; the database checks their amounts when they are, in `schedule_for`.
unfoldable pub generate_schedule_rows : Invoice → ℤ → ℕ → ℕ → List PaymentSchedule
generate_schedule_rows i invoice_total issued_at due_at =
    schedule_rows i 1 (schedule_amounts i.payment_option_selected invoice_total issued_at due_at)

rows_sum :
    (i : Invoice) (option : Option PaymentOption) (total : ℤ) (issued_at due_at : ℕ)
    → sum_ℤ (λ r. r.amount) (schedule_rows i 1 (schedule_amounts option total issued_at due_at))
      ≡ total
unfolding schedule_rows schedule_amounts sum_ℤ
rows_sum i none total issued_at due_at = omega int_laws
rows_sum i (some pay_in_full) total issued_at due_at = omega int_laws
rows_sum i (some split_payment) total issued_at due_at = omega int_laws
rows_sum i (some two_month_plan) total issued_at due_at = omega int_laws

-- The rows of a schedule sum exactly to the invoice's total, whatever the payment option.
pub generate_schedule_rows-sum :
    (i : Invoice) (total : ℤ) (issued_at due_at : ℕ)
    → sum_ℤ (λ r. r.amount) (generate_schedule_rows i total issued_at due_at) ≡ total
unfolding generate_schedule_rows
generate_schedule_rows-sum i total issued_at due_at =
    rows_sum i i.payment_option_selected total issued_at due_at

-- The size of an amount, without its sign.
abbrev size : ℤ → ℕ
size a = pos_part a + neg_part a

half_fits : (n : ℕ) → round_div n 2 ≤ n
half_fits n = let near = round_div-near n 2 (omega arith) in omega (arith, near)

third_fits : (n : ℕ) → 2 * round_div n 3 ≤ n
third_fits n = let near = round_div-near n 3 (omega arith) in omega (arith, near)

rows_fit :
    (i : Invoice) (option : Option PaymentOption) (total : ℤ) (issued_at due_at : ℕ)
    → size total < 10 ^ 10
    → all
        (λ r. fits_column r.amount)
        (schedule_rows i 1 (schedule_amounts option total issued_at due_at))
      ≡ true
unfolding schedule_rows schedule_amounts share ◌-ℤ◌
rows_fit i none total issued_at due_at h = ground arith
rows_fit i (some pay_in_full) total issued_at due_at h = ground arith
rows_fit i (some split_payment) (pos n) issued_at due_at h =
    let near = half_fits n in ground (arith, near)
rows_fit i (some split_payment) (negsuc n) issued_at due_at h =
    let near = half_fits (suc n) in ground (arith, near)
rows_fit i (some two_month_plan) (pos n) issued_at due_at h =
    let near = third_fits n in ground (arith, near)
rows_fit i (some two_month_plan) (negsuc n) issued_at due_at h =
    let near = third_fits (suc n) in ground (arith, near)

-- Every row of a schedule fits its column when the total does.
pub generate_schedule_rows-fit :
    (i : Invoice) (total : ℤ) (issued_at due_at : ℕ)
    → pos_part total + neg_part total < 10 ^ 10
    → all (λ r. fits_column r.amount) (generate_schedule_rows i total issued_at due_at) ≡ true
unfolding generate_schedule_rows
generate_schedule_rows-fit i total issued_at due_at h =
    rows_fit i i.payment_option_selected total issued_at due_at h

rest_of_two : (total r : ℕ) → 2 * (r * 2) ≤ 2 * total + 2 → pos 0 ≤ℤ pos total -ℤ pos r
rest_of_two total r h = omega (arith, -ℤ_parts (pos total) (pos r))

rest_of_three : (total r : ℕ) → 2 * (r * 3) ≤ 2 * total + 3 → pos 0 ≤ℤ pos total -ℤ pos r -ℤ pos r
rest_of_three total r h =
    omega (arith, -ℤ_parts (pos total) (pos r), -ℤ_parts (pos total -ℤ pos r) (pos r))

rows_positive :
    (i : Invoice) (option : Option PaymentOption) (total issued_at due_at : ℕ)
    → All
        (λ r. pos 0 ≤ℤ r.amount)
        (schedule_rows i 1 (schedule_amounts option (pos total) issued_at due_at))
unfolding schedule_rows schedule_amounts share
rows_positive i none total issued_at due_at = (omega arith, tt)
rows_positive i (some pay_in_full) total issued_at due_at = (omega arith, tt)
rows_positive i (some split_payment) total issued_at due_at =
    let near = round_div-near total 2 (omega arith) in
    (omega arith, (rest_of_two total (round_div total 2) near.0, tt))
rows_positive i (some two_month_plan) total issued_at due_at =
    let near = round_div-near total 3 (omega arith) in
    (omega arith, (omega arith, (rest_of_three total (round_div total 3) near.0, tt)))

-- No row of a schedule is negative when the total is not.
pub generate_schedule_rows-positive :
    (i : Invoice) (total issued_at due_at : ℕ)
    → All (λ r. pos 0 ≤ℤ r.amount) (generate_schedule_rows i (pos total) issued_at due_at)
unfolding generate_schedule_rows
generate_schedule_rows-positive i total issued_at due_at =
    rows_positive i i.payment_option_selected total issued_at due_at
