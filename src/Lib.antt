-- ===== src/Lib.antt =====
-- optimusOS: the stores of an auto repair shop (Python, app/), as functions of the database.
--
-- The program is a FastAPI application. Its routes (app/main.py, app/api) call the store
-- modules, and a store reads and writes the tables of app/db_models.py in one transaction of
-- the request. The development models the stores of stock, purchasing, estimates, work orders,
-- billing and the calendar, the operating mode and the subscription of a shop, and the rate
-- limiter; a request is a function from the database to an outcome and the database that it
-- leaves, so that two requests that a row lock puts in order are one after the other. The
-- requests on estimates take no lock: their histories are of requests one after the other.
--
-- - Base: Boolean tests, lists, tables of rows (a list, read by `scalar` and `get`, written by
--   `save`), signed integers, money, results. `transaction` runs the work of a request and
--   keeps what it wrote only if it raised nothing; the response is built after the commit.
-- - Db: the rows of app/db_models.py with the columns that the modelled operations use, and the
--   checks that the database makes of a written row. Errors: the exceptions, one constructor to
--   a message.
-- - Auth (app/auth.py, app/shop_store.py, app/technician_store.py): the shop of the caller, its
--   owner, the technician of a user. Every store selects rows by them.
-- - Inventory: the stock of a part as the tables of three stores show it together.
-- - Allocations (app/part_allocation_store.py): `_get_allocation` is get_allocation, and
--   create_part_allocation, allocate_part, use_part_allocation, return_part_allocation have
--   their names; `*_work` is the part up to the commit.
-- - PurchaseOrders (app/purchase_order_store.py): create_purchase_order is in Create, with one
--   Attempt to each of the three tries; submit and cancel are `move_work`;
--   receive_purchase_order_line_item is in Receive.
-- - Invoices (app/invoice_store.py): derive_invoice_status, `_payment_summary`, `_to_read`;
--   `_generate_schedule_rows` in Schedule, issue_invoice in Issue.
-- - Payments (app/payment_store.py): record_payment and void_payment, which end with the same
--   `post`.
-- - Estimates (app/estimate_store.py): the queries and rows are in Estimates;
--   `_resolve_active_approval_request` and get_approval_view in Resolve, approve_estimate and
--   decline_estimate in Approve, send_estimate_for_approval, revoke_estimate_approval_request
--   and approval_history in Send, what a revision is made of in Content, create_estimate,
--   create_estimate_from_payload, update_estimate and create_estimate_revision in Revise,
--   `_validate_generated_estimate` in Validate. A link is marked as expired and the request
--   refused in one: such a function gives an outcome and a state, on errors too. Decide, Sent,
--   Revised and Links say what has happened when an operation succeeds; History has the
--   requests as a step relation.
-- - WorkOrders (app/work_order_store.py): create_work_order_from_estimate is in Create,
--   update_work_order, assign_technician and add_work_order_note in Edit,
--   transition_work_order_status in Status, and ensure_draft_invoice_for_work_order of
--   app/invoice_store.py in Draft.
-- - Scheduling (app/scheduling_store.py): the validation of what a request names is in
--   Scheduling, the conflict engine up to `_validate_slot` in Conflicts, the operations on
--   appointments in Appointments, those on bays and working hours in Calendar, those on
--   schedule blocks in Blocks. Pad, Booking, Steps and Keeps carry the proofs that History,
--   Free, Release, Closed and Reactivation end.
-- - RateLimit (app/rate_limit.py): the sliding window, the limiter on Redis, the registry.
--   Window describes the sliding window by a log of all that was accepted.
-- - Capabilities (app/capability_store.py) and Modes (app/mode_transition_store.py): the matrix
--   of levels, its resolution for a caller, the preview of a change of the operating mode, the
--   change, the first choice after signup.
-- - Subscriptions (app/subscription_store.py, with the access gate of app/auth.py and the seat
--   limit of app/technician_store.py): the gate and the seats are in Subscriptions, the
--   operations on a subscription in Billing; Access, Seats and Staffing hold the proofs.
-- - Tests: a small shop on which every theorem is applied.
--
-- Bounds. Request bodies are as Pydantic leaves them. Quantities are whole numbers. An amount
-- of money that is stored is a whole number of cents; a float is read as the decimal that `str`
-- shows, and `quantize` raises for more than 28 digits, as it does in the program. The columns
-- of payments and payment schedules hold amounts below 100,000,000.00 in size; a row with
-- another amount is refused (numeric_overflow), and nothing of its request is kept. There is no
-- recursion but on lists, so nothing runs on fuel: the retry loop of create_purchase_order is
-- the list of its three attempts.
--
-- Parameters. The keys that the database gives to new rows, the clock, the conversion of an
-- instant to the shop's clock (`local`), what Redis answers, the client of Square with its
-- plans, what the texts of a technician raise, and the sum of floats (`float_sum`) are
-- arguments; so are, for estimates, the two digests of hashlib, the tokens of `secrets`, what
-- the orchestrator answers, and the text of the summaries of a customer and a vehicle. A
-- request has one time `now`, its reading of the clock and the time of its transaction, and
-- another one at which its response is built. An instant of the calendar is a number of
-- microseconds, a time of the rate limiter a number of ticks.
--
-- Not modelled: the choice of parts, diagnostics, inspections, the observing gate of
-- capabilities; the payment method of a subscription and its response; lists and availability
-- of the calendar; sessions and passwords; the read-only lists and reports; HTTP, the browser
-- client, the calls of outside services. Of the columns `created_at` and `updated_at`, which
-- the database fills in, the rows have `updated_at` of work orders and of shops; those of the
-- other tables are left out. Rows that other code writes at the same time are modelled only for
-- the numbers of purchase orders. The Square columns of an invoice and the display names of
-- responses are left out.
pub mod Base
pub mod Db
pub mod Errors
pub mod Estimates
pub mod Auth
pub mod Inventory
pub mod Allocations
pub mod PurchaseOrders
pub mod Invoices
pub mod Payments
pub mod WorkOrders
pub mod Scheduling
pub mod RateLimit
pub mod Capabilities
pub mod Modes
pub mod Subscriptions
pub mod Tests
