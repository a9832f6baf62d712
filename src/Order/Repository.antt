-- ===== src/Order/Repository.antt =====
-- apps/order/rpc/internal/repository/mysql_order_repository.go: lookups and state transitions.
-- `clock` is the server's CURRENT_TIMESTAMP, which `updated_at` takes at every update of a row.
pub mod Operations
pub mod Phases
pub mod Finality
pub mod Audit
pub mod Lists
use flash_sale.Order.Updates.{
  PaymentInfo, Update, auto_receive, cancel_paid_pending_review, cancel_unpaid, close_pay_timeout,
  close_review_timeout_refunding, complete_refund, confirm_receipt, in_manual_review,
  mark_paid_auto_pass, mark_paid_manual_review, pay, receive, review_approve, review_reject, ship,
  unpaid_of,
}
use flash_sale.Prelude.{
  ℕ, Bool, true, false, not, ◌&&◌, ◌||◌, Option, none, some, List, [], ◌∷◌, ◌++◌, ◌≡◌, ◌==◌,
  nat_beq, nat_eq, if◌then◌else◌, is_some,
}
use flash_sale.Text.{Text, text_eq, trim_space, is_blank}
use flash_sale.Result.{Result, ok, err, require}
use flash_sale.Sql.{
  DriverErr, Faults, Tx, pure, fail, gets, modify, call, ◌>>=◌, ◌>>◌, run_tx, find, update, insert,
}
use flash_sale.Order.Model.{
  OrderStatus, PaymentStatus, ReviewStatus, ShippingStatus, RefundStatus, CloseReason, pending_pay,
  pending_review, pending_ship, shipped, closed, unpaid, paid, manual_pending, passed, rejected,
  timeout_reject, on_the_way, received, no_reason, refunding, refunded, auto, manual, completed,
  auto_completed, audit_reject, audit_timeout, pay_timeout, order_status_eq, payment_status_eq,
  review_status_eq, shipping_status_eq, refund_status_eq, Order, OrderEvent, OrderDb, OrderErr,
  order_not_found, order_state_conflict, duplicate_order_no, driver,
}

abbrev pub OrderTx : Type 0 → Type 0
OrderTx A = Tx OrderErr OrderDb A

abbrev at : Option DriverErr → OrderTx (Unit {0})
at = call driver

-- `event.CreatedAt.IsZero()`: the zero time gives way to the clock.
abbrev stamp : ℕ → OrderEvent → OrderEvent
stamp clock e = record e { created_at = some (elim e.created_at [ none ↦ clock | some t ↦ t ]) }

-- `appendEventTx`
unfoldable pub append_event_tx : Faults → ℕ → OrderEvent → OrderTx (Unit {0})
append_event_tx faults clock event = do
  at (faults 3)
  modify (λ db. record db { events = db.events ++ stamp clock event ∷ [] })

abbrev pub find_order : ℕ → OrderDb → Option Order
find_order id db = find (λ o. o.id) id db.orders

abbrev pub updated : ℕ → Update → Order → Order
updated clock u o = record (u.set_ o) { id = o.id; updated_at = clock }

abbrev write_row : Faults → ℕ → ℕ → Update → OrderEvent → Option Order → OrderTx (Unit {0})
write_row faults clock id u event none = do at (faults 2); fail order_state_conflict
write_row faults clock id u event (some o) =
    if u.where_ o
    then (do
      modify (λ db. record db { orders = update (λ r. r.id) id (updated clock u) db.orders })
      at (faults 2)
      append_event_tx faults clock event)
    else (do at (faults 2); fail order_state_conflict)

-- `execWithEvent` in `withTx`: the update and its event are one transaction.
unfoldable pub exec_with_event : Faults → ℕ → ℕ → Update → OrderEvent → OrderTx (Unit {0})
unfolding append_event_tx
exec_with_event faults clock id u event = do
  at (faults 0)
  at (faults 1)
  found ← gets (find_order id)
  write_row faults clock id u event found
  at (faults 4)

abbrev release_row : Faults → ℕ → ℕ → ℕ → OrderEvent → Option Order → OrderTx (Unit {0})
release_row faults clock id now event none = do at (faults 2); at (faults 3); fail order_not_found
release_row faults clock id now event (some o) =
    if not o.stock_released
    then (do
      modify (λ db. record db {
        orders =
            update (λ r. r.id) id (λ r. record r { stock_released = true; updated_at = now })
              db.orders;
      })
      at (faults 2)
      append_event_tx faults clock event)
    else (do at (faults 2); at (faults 3); pure tt)

-- `MarkStockReleased`: a second call finds the flag set, and appends no event.
unfoldable pub mark_stock_released : Faults → ℕ → ℕ → ℕ → OrderEvent → OrderTx (Unit {0})
unfolding append_event_tx
mark_stock_released faults clock id now event = do
  at (faults 0)
  at (faults 1)
  found ← gets (find_order id)
  release_row faults clock id now event found
  at (faults 4)

abbrev pub has_order_no : Text → Order → Bool
has_order_no order_no o = o.order_no == order_no

unfoldable pub lookup_order_no : Text → List Order → Option Order
lookup_order_no order_no [] = none
lookup_order_no order_no (o ∷ os) =
    if has_order_no order_no o then some o else lookup_order_no order_no os

-- The row that `insertOrderSQL` writes: the columns that it names, and the others' defaults.
abbrev pub inserted_row : ℕ → Order → Order
inserted_row clock o = record o {
  paid_at = none;
  pay_channel = [];
  pay_reference = [];
  receiver_name = [];
  receiver_phone = [];
  receiver_address = [];
  buyer_remark = [];
  review_due_at = none;
  reviewed_at = none;
  reviewed_by = 0;
  review_reason = [];
  shipped_at = none;
  shipped_by = 0;
  tracking_no = [];
  refund_due_at = none;
  refunded_at = none;
  stock_released = false;
  closed_at = none;
  close_reason = no_reason;
  created_at = clock;
  updated_at = clock;
}

-- Whether a row breaks one of the two unique keys, `id` and `order_no`.
abbrev pub collides : Order → OrderDb → Bool
collides o db = is_some (find_order o.id db) || is_some (lookup_order_no o.order_no db.orders)

abbrev insert_row : Faults → ℕ → Order → OrderEvent → Bool → OrderTx (Unit {0})
insert_row faults clock o event true = fail duplicate_order_no
insert_row faults clock o event false = do
  modify (λ db. record db { orders = insert (λ r. r.id) (inserted_row clock o) db.orders })
  append_event_tx faults clock event

-- `Create`
unfoldable pub create : Faults → ℕ → Order → OrderEvent → OrderTx (Unit {0})
unfolding append_event_tx
create faults clock o event = do
  at (faults 0)
  at (faults 1)
  taken ← gets (collides o)
  insert_row faults clock o event taken
  at (faults 4)

-- `FindByID`: one query, outside any transaction.
unfoldable pub find_by_id : Option DriverErr → ℕ → OrderDb → Result OrderErr Order
find_by_id (some e) id db = err (driver e)
find_by_id none id db = require (find_order id db) order_not_found

-- `FindByOrderNo`
unfoldable pub find_by_order_no : Option DriverErr → Text → OrderDb → Result OrderErr Order
find_by_order_no fault order_no db = if is_blank order_no then err order_not_found else query fault
  where
    query : Option DriverErr → Result OrderErr Order
    query (some e) = err (driver e)
    query none = require (lookup_order_no (trim_space order_no) db.orders) order_not_found
