-- ===== src/Order/Repository/Operations.antt =====
-- The writes of the order repository as one type, and what a successful one has done.
use flash_sale.Prelude.{
  ℕ, Bool, true, false, Option, none, some, List, [], ◌∷◌, ◌++◌, ◌≡◌, refl, arith, Bool-cases, inl,
  inr,
}
use flash_sale.Text.{Text}
use flash_sale.Result.{Result, ok}
use flash_sale.Sql.{Faults, run_tx, update, insert}
use flash_sale.Order.Model.{Order, OrderEvent, OrderDb, OrderErr, user_cancel}
use flash_sale.Order.Updates.{
  Update, PaymentInfo, mark_paid_auto_pass, mark_paid_manual_review, cancel_unpaid,
  cancel_paid_pending_review, review_approve, review_reject, ship, confirm_receipt, auto_receive,
  close_pay_timeout, close_review_timeout_refunding, complete_refund,
}
use flash_sale.Order.Repository.{
  find_order, updated, stamp, exec_with_event, mark_stock_released, create, inserted_row, collides,
}

-- The conditional updates, with the arguments that the handlers choose; both cancellations are
-- called with the reason `user_cancel`.
pub data Transition : Type 0 where
  pays_auto : ℕ → ℕ → PaymentInfo → Transition
  pays_manual : ℕ → ℕ → PaymentInfo → ℕ → Transition
  cancels_unpaid : ℕ → ℕ → Transition
  cancels_paid : ℕ → ℕ → ℕ → Transition
  approves : ℕ → ℕ → Text → Transition
  rejects : ℕ → ℕ → Text → ℕ → Transition
  ships : ℕ → Text → ℕ → Transition
  confirms : ℕ → ℕ → Transition
  receives : ℕ → Transition
  times_out_pay : ℕ → Transition
  times_out_review : ℕ → ℕ → Transition
  refunds : ℕ → Transition

unfoldable pub update_of : Transition → Update
unfolding mark_paid_auto_pass mark_paid_manual_review cancel_unpaid cancel_paid_pending_review
    review_approve review_reject ship confirm_receipt auto_receive close_pay_timeout
    close_review_timeout_refunding complete_refund
update_of (pays_auto user_id at info) = mark_paid_auto_pass user_id at info
update_of (pays_manual user_id at info due) = mark_paid_manual_review user_id at info due
update_of (cancels_unpaid user_id now) = cancel_unpaid user_id now user_cancel
update_of (cancels_paid user_id now due) = cancel_paid_pending_review user_id now user_cancel due
update_of (approves admin_id now reason) = review_approve admin_id now reason
update_of (rejects admin_id now reason due) = review_reject admin_id now reason due
update_of (ships admin_id tracking_no now) = ship admin_id tracking_no now
update_of (confirms user_id now) = confirm_receipt user_id now
update_of (receives now) = auto_receive now
update_of (times_out_pay now) = close_pay_timeout now
update_of (times_out_review now due) = close_review_timeout_refunding now due
update_of (refunds now) = complete_refund now

-- One call of a writing method: what the driver reports, the clock, the arguments.
pub data OrderOp : Type 0 where
  moves : Faults → ℕ → ℕ → Transition → OrderEvent → OrderOp
  releases : Faults → ℕ → ℕ → ℕ → OrderEvent → OrderOp
  creates : Faults → ℕ → Order → OrderEvent → OrderOp

unfoldable pub apply_op : OrderOp → OrderDb → Result OrderErr (Unit {0}) × OrderDb
apply_op (moves faults clock id t event) db =
    run_tx (exec_with_event faults clock id (update_of t) event) db
apply_op (releases faults clock id now event) db =
    run_tx (mark_stock_released faults clock id now event) db
apply_op (creates faults clock o event) db = run_tx (create faults clock o event) db

unfoldable pub run : List OrderOp → OrderDb → OrderDb
run [] db = db
run (op ∷ ops) db = run ops (apply_op op db).1

-- What a successful update has written: the row, if it passed the `WHERE`, and the event.
pub record Moved (clock id : ℕ) (u : Update) (event : OrderEvent) (db db' : OrderDb) : Type 0 where
  pub row : Order
  pub there : find_order id db ≡ some row
  pub allowed : u.where_ row ≡ true
  pub orders : db'.orders ≡ update (λ r. r.id) id (updated clock u) db.orders
  pub events : db'.events ≡ db.events ++ stamp clock event ∷ []

Moved-found :
    (faults : Faults) (clock id : ℕ) (u : Update) (event : OrderEvent) (db db' : OrderDb)
    (o : Option Order)
    → find_order id db ≡ o
    → exec_with_event faults clock id u event db ≡ ok (tt, db')
    → Moved clock id u event db db'
unfolding exec_with_event
Moved-found faults clock id u event db db' none e h = absurd (ground (arith, e))
Moved-found faults clock id u event db db' (some o) e h = record {
  row = o;
  there = e;
  allowed = ground (arith, e);
  orders = ground (arith, e);
  events = ground (arith, e);
}

pub exec_with_event-Moved :
    (faults : Faults) (clock id : ℕ) (u : Update) (event : OrderEvent) (db db' : OrderDb)
    → exec_with_event faults clock id u event db ≡ ok (tt, db')
    → Moved clock id u event db db'
exec_with_event-Moved faults clock id u event db db' h =
    Moved-found faults clock id u event db db' _ refl h

-- What a successful `MarkStockReleased` has done: flagged the row, or found it flagged.
pub data Released (clock id now : ℕ) (event : OrderEvent) (db db' : OrderDb) : Type 0 where
  flagged :
      (o : Order)
      → find_order id db ≡ some o
      → o.stock_released ≡ false
      → db' ≡ record {
        orders =
            update
              (λ r. r.id)
              id
              (λ r. record r { stock_released = true; updated_at = now })
              db.orders;
        events = db.events ++ stamp clock event ∷ [];
      }
      → Released clock id now event db db'
  already :
      (o : Order)
      → find_order id db ≡ some o
      → o.stock_released ≡ true
      → db' ≡ db
      → Released clock id now event db db'

module _ (faults : Faults) (clock id now : ℕ) (event : OrderEvent) (db db' : OrderDb) where
  Released-row :
      (o : Order)
      → find_order id db ≡ some o
      → mark_stock_released faults clock id now event db ≡ ok (tt, db')
      → Released clock id now event db db'
  unfolding mark_stock_released
  Released-row o e h = elim (Bool-cases o.stock_released) [
    | inl b ↦ already o e b (ground (arith, e, b))
    | inr b ↦ flagged o e b (ground (arith, e, b))
  ]

  Released-found :
      (o : Option Order)
      → find_order id db ≡ o
      → mark_stock_released faults clock id now event db ≡ ok (tt, db')
      → Released clock id now event db db'
  unfolding mark_stock_released
  Released-found none e h = absurd (ground (arith, e))
  Released-found (some o) e h = Released-row o e h

  pub mark_stock_released-Released :
      mark_stock_released faults clock id now event db ≡ ok (tt, db')
      → Released clock id now event db db'
  mark_stock_released-Released h = Released-found _ refl h

-- What a successful `Create` has done.
pub record Created (clock : ℕ) (o : Order) (event : OrderEvent) (db db' : OrderDb) : Type 0 where
  pub fresh : collides o db ≡ false
  pub orders : db'.orders ≡ insert (λ r. r.id) (inserted_row clock o) db.orders
  pub events : db'.events ≡ db.events ++ stamp clock event ∷ []

Created-fresh :
    (faults : Faults) (clock : ℕ) (o : Order) (event : OrderEvent) (db db' : OrderDb) (b : Bool)
    → collides o db ≡ b
    → create faults clock o event db ≡ ok (tt, db')
    → Created clock o event db db'
unfolding create
Created-fresh faults clock o event db db' true e h = absurd (ground (arith, e))
Created-fresh faults clock o event db db' false e h = record {
  fresh = e;
  orders = ground (arith, e);
  events = ground (arith, e);
}

pub create-Created :
    (faults : Faults) (clock : ℕ) (o : Order) (event : OrderEvent) (db db' : OrderDb)
    → create faults clock o event db ≡ ok (tt, db')
    → Created clock o event db db'
create-Created faults clock o event db db' h = Created-fresh faults clock o event db db' _ refl h
