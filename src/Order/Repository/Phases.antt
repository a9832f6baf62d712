-- ===== src/Order/Repository/Phases.antt =====
-- The legal combinations of an order's statuses, and that every write keeps to them.
use flash_sale.Prelude.{ℕ, Bool, true, false, some, List, [], ◌∷◌, ◌≡◌, ◌⊎◌, arith, is_some}
use flash_sale.Sql.{run_tx_induction, All, All-update, All-insert, All-find}
use flash_sale.Order.Model.{
  OrderStatus, PaymentStatus, ReviewStatus, ShippingStatus, RefundStatus, CloseReason, pending_pay,
  pending_review, pending_ship, shipped, closed, unpaid, paid, not_reviewed, manual_pending, passed,
  rejected, timeout_reject, not_shipped, on_the_way, received, not_refunded, refunding, refunded,
  no_reason, completed, auto_completed, user_cancel, audit_reject, audit_timeout, pay_timeout,
  Order, OrderEvent, OrderDb,
}
use flash_sale.Order.Repository.{
  find_order, updated, inserted_row, exec_with_event, mark_stock_released, create,
}
use flash_sale.Order.Repository.Operations.{
  Transition, pays_auto, update_of, OrderOp, moves, releases, creates, apply_op, run, Moved,
  exec_with_event-Moved, Released, flagged, already, mark_stock_released-Released, create-Created,
}

-- The combinations of statuses that the life of an order passes through.
abbrev pub legal_phase :
    OrderStatus → PaymentStatus → ReviewStatus → ShippingStatus → RefundStatus → CloseReason → Bool
legal_phase pending_pay unpaid not_reviewed not_shipped not_refunded no_reason = true
legal_phase pending_review paid manual_pending not_shipped not_refunded no_reason = true
legal_phase pending_ship paid passed not_shipped not_refunded no_reason = true
legal_phase shipped paid passed on_the_way not_refunded no_reason = true
legal_phase closed paid passed received not_refunded completed = true
legal_phase closed paid passed received not_refunded auto_completed = true
legal_phase closed unpaid not_reviewed not_shipped not_refunded user_cancel = true
legal_phase closed unpaid not_reviewed not_shipped not_refunded pay_timeout = true
legal_phase closed paid manual_pending not_shipped refunding user_cancel = true
legal_phase closed paid manual_pending not_shipped refunded user_cancel = true
legal_phase closed paid rejected not_shipped refunding audit_reject = true
legal_phase closed paid rejected not_shipped refunded audit_reject = true
legal_phase closed paid timeout_reject not_shipped refunding audit_timeout = true
legal_phase closed paid timeout_reject not_shipped refunded audit_timeout = true
legal_phase _ _ _ _ _ _ = false

abbrev pub is_closed : OrderStatus → Bool
is_closed closed = true
is_closed _ = false

-- An order is in a legal phase, and has a closing time exactly when it is closed.
pub record IsLegal (o : Order) : Type 0 where
  pub phase :
      legal_phase o.order_status o.payment_status o.review_status o.shipping_status o.refund_status
        o.close_reason
      ≡ true
  pub closing : is_some o.closed_at ≡ is_closed o.order_status

update_of-IsLegal :
    (t : Transition) (o : Order)
    → (update_of t).where_ o ≡ true
    → IsLegal o
    → IsLegal ((update_of t).set_ o)
unfolding update_of
update_of-IsLegal (pays_auto user_id at info) o g h = ground arith
update_of-IsLegal _ o g h = ground arith

-- The statuses with which an order is created.
pub record IsNew (o : Order) : Type 0 where
  pub order_status : o.order_status ≡ pending_pay
  pub payment_status : o.payment_status ≡ unpaid
  pub review_status : o.review_status ≡ not_reviewed
  pub shipping_status : o.shipping_status ≡ not_shipped
  pub refund_status : o.refund_status ≡ not_refunded

abbrev pub CreatesNew : OrderOp → Type 0
CreatesNew (creates faults clock o event) = IsNew o
CreatesNew _ = Unit

updated-IsLegal :
    (clock : ℕ) (t : Transition) (o : Order)
    → (update_of t).where_ o ≡ true
    → IsLegal o
    → IsLegal (updated clock (update_of t) o)
updated-IsLegal clock t o g h =
    let h' = update_of-IsLegal t o g h in record { phase = h'.phase; closing = h'.closing }

inserted_row-IsLegal : (clock : ℕ) (o : Order) → IsNew o → IsLegal (inserted_row clock o)
inserted_row-IsLegal clock o n = ground arith

Moved-IsLegal :
    {clock id : ℕ} (t : Transition) {event : OrderEvent} {db db' : OrderDb}
    → Moved clock id (update_of t) event db db'
    → All IsLegal db.orders
    → All IsLegal db'.orders
Moved-IsLegal {clock = clock} {id = id} t {db = db} m a = rw m.orders (
    All-update (λ r. r.id) IsLegal id (updated clock (update_of t)) db.orders
      (λ r e h.
        updated-IsLegal clock t r (let same : m.row ≡ r = cc (m.there, e) in rw (← same) m.allowed)
          h)
      a)

Released-IsLegal :
    {clock id now : ℕ} {event : OrderEvent} {db db' : OrderDb}
    → Released clock id now event db db'
    → All IsLegal db.orders
    → All IsLegal db'.orders
Released-IsLegal {db = db} (already o f b e) a = rw e a
Released-IsLegal {id = id} {db = db} (flagged o f b e) a = rw e (
    All-update (λ r. r.id) IsLegal id _ db.orders
      (λ r _ h. record { phase = h.phase; closing = h.closing }) a)

-- Every write of the order repository, whatever it answers, keeps every order in a legal phase with
-- a closing time exactly when it is closed, if the orders that it creates are new ones.
pub apply_op-IsLegal :
    (op : OrderOp) (db : OrderDb)
    → CreatesNew op
    → All IsLegal db.orders
    → All IsLegal (apply_op op db).1.orders
unfolding apply_op
apply_op-IsLegal (moves faults clock id t event) db n a =
    run_tx_induction (λ d. All IsLegal d.orders)
      (exec_with_event faults clock id (update_of t) event) db a
      (λ _ db' e.
        Moved-IsLegal t (exec_with_event-Moved faults clock id (update_of t) event db db' e) a)
apply_op-IsLegal (releases faults clock id now event) db n a =
    run_tx_induction (λ d. All IsLegal d.orders) (mark_stock_released faults clock id now event) db
      a
      (λ _ db' e.
        Released-IsLegal (mark_stock_released-Released faults clock id now event db db' e) a)
apply_op-IsLegal (creates faults clock o event) db n a =
    run_tx_induction (λ d. All IsLegal d.orders) (create faults clock o event) db a
      (λ _ db' e. rw (create-Created faults clock o event db db' e).orders (
        All-insert (λ r. r.id) IsLegal (inserted_row clock o) db.orders
          (inserted_row-IsLegal clock o n) a))

-- So after any history of writes that creates new orders only.
pub run-IsLegal :
    (ops : List OrderOp) (db : OrderDb)
    → All CreatesNew ops
    → All IsLegal db.orders
    → All IsLegal (run ops db).orders
unfolding run
run-IsLegal [] db n a = a
run-IsLegal (op ∷ ops) db n a =
    run-IsLegal ops (apply_op op db).1 n.1 (apply_op-IsLegal op db n.0 a)

-- What the legal phases say of money and goods.
pub record IsSafe (o : Order) : Type 0 where
  -- goods leave only a paid order that passed its review
  pub goods :
      (o.shipping_status ≡ not_shipped) ⊎ ((o.payment_status ≡ paid) × (o.review_status ≡ passed))
  -- a refund is only for money that was paid, of an order that was closed before it was shipped
  pub refunds_paid :
      (o.refund_status ≡ not_refunded)
      ⊎ ((o.payment_status ≡ paid) × (o.order_status ≡ closed) × (o.shipping_status ≡ not_shipped))
  -- the money of a closed order was never paid, is being refunded or was refunded, or the goods came
  pub money :
      o.order_status ≡ closed
      → (o.payment_status ≡ unpaid)
        ⊎ (o.refund_status ≡ refunding)
        ⊎ (o.refund_status ≡ refunded)
        ⊎ (o.shipping_status ≡ received)

IsLegal-IsSafe : (o : Order) → IsLegal o → IsSafe o
IsLegal-IsSafe o h = record {
  goods = ground arith;
  refunds_paid = ground arith;
  money = λ c. ground arith;
}

-- After any history of writes that starts from legal orders and creates new orders only, every order
-- is safe: shipped only when paid and reviewed, refunded only when paid and closed before shipping,
-- and closed only with its money unpaid, in refund or refunded, or its goods received.
pub run-IsSafe :
    (ops : List OrderOp) (db : OrderDb) (id : ℕ) {o : Order}
    → All CreatesNew ops
    → All IsLegal db.orders
    → find_order id (run ops db) ≡ some o
    → IsSafe o
run-IsSafe ops db id n a f =
    IsLegal-IsSafe _
      (All-find (λ r. r.id) IsLegal id (run ops db).orders (run-IsLegal ops db n a) f)
