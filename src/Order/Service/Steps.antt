-- ===== src/Order/Service/Steps.antt =====
-- apps/order/rpc/internal/logic: the steps that the handlers and the jobs share (stock_helper.go,
-- seckill_order_event.go). The queue and the producer behind `EmitSeckillOrderEvent` are not
-- modelled: an event counts as emitted when it is handed over.
use flash_sale.Prelude.{
  ℕ, ℤ, pos, positive, not, ◌&&◌, Option, none, some, [], ◌∷◌, ◌++◌, ltb, ◌==◌, if◌then◌else◌,
}
use flash_sale.Text.{Text, text}
use flash_sale.Result.{Result, ok, err}
use flash_sale.Errorx.{Code, sys_bad_request, order_invalid_state, db_error}
use flash_sale.Order.Model.{
  CloseReason, user_cancel, pay_timeout, audit_reject, audit_timeout, seckill, order_source_eq,
  order_code, payment_code, review_code, shipping_code, refund_code, Order, OrderEvent,
  order_stock_released, system, str, num, OrderErr, order_state_conflict,
}
use flash_sale.Order.Repository.{find_by_id}
use flash_sale.Order.Repository.Operations.{Transition, moves, releases}
use flash_sale.Product.Service.{release_stock_for_order}
use flash_sale.Order.Service.Views.{unix}
use flash_sale.Order.Service.World.{
  Env, Act, StateEvent, StateEventType, ◌>>◌, answer, read, write, call_product, issue_token, emit,
}

-- The codes of the repository's errors: of a lookup, of a guarded update (`mapStateConflict`), and
-- where every error is the database's.
abbrev pub missing_or_db : OrderErr → Code
missing_or_db OrderErr.order_not_found = Code.order_not_found
missing_or_db _ = db_error

abbrev pub conflict_or_db : OrderErr → Code
conflict_or_db order_state_conflict = order_invalid_state
conflict_or_db _ = db_error

abbrev pub always_db : OrderErr → Code
always_db _ = db_error

-- Two ids of a request.
abbrev pub both : Option ℕ → Option ℕ → Result Code (ℕ × ℕ)
both (some m) (some n) = ok (m, n)
both _ _ = err sys_bad_request

unfoldable pub both_ids : ℤ → ℤ → Result Code (ℕ × ℕ)
both_ids a b = both (positive a) (positive b)

-- The first lookup of a handler, and the one behind its answer.
abbrev pub load : Env → ℕ → Act Order
load env id = read missing_or_db (find_by_id (env.lookup 0) id)

abbrev pub reload : Env → ℕ → Act Order
reload env id = read always_db (find_by_id (env.lookup 1) id)

-- A guarded update of the order as the first transaction of a handler.
abbrev pub move : Env → ℕ → Transition → OrderEvent → Act (Unit {0})
move env id t event = write conflict_or_db (moves (env.write 0) (env.clock 0) id t event)

-- `releaseStockForOrder`, with the n-th token and remote call of its caller.
unfoldable pub release_stock_for : Env → ℕ → Text → ℕ → ℕ → Text → Act ℕ
release_stock_for env n order_no product_id quantity suffix = do
  issue_token (env.token n)
  call_product (env.rpc n) (λ faults now.
      release_stock_for_order faults now (pos product_id) (pos quantity) order_no
        (order_no ++ text ":" ++ suffix))

abbrev stock_event : ℕ → ℕ → Text → ℕ → OrderEvent
stock_event id remain trigger now = record {
  order_id = id;
  event_type = order_stock_released;
  operator_type = system;
  operator_id = 0;
  payload = (text "trigger", str trigger) ∷ (text "remain_stock", num remain) ∷ [];
  created_at = some now;
}

-- `markOrderStockReleased`, as the n-th transaction of its caller.
unfoldable pub mark_order_stock_released : Env → ℕ → ℕ → ℕ → Text → ℕ → Act (Unit {0})
mark_order_stock_released env n id remain trigger now =
    write always_db
      (releases (env.write n) (env.clock n) id now (stock_event id remain trigger now))

-- `releaseSuffixFromCloseReason`
unfoldable pub release_suffix_from_close_reason : CloseReason → Option Text
release_suffix_from_close_reason user_cancel = some (text "release:cancel")
release_suffix_from_close_reason pay_timeout = some (text "release:pay_timeout")
release_suffix_from_close_reason audit_reject = some (text "release:review_reject")
release_suffix_from_close_reason audit_timeout = some (text "release:review_timeout")
release_suffix_from_close_reason _ = none

-- The stock of a seckill order is not the product service's: it is left alone.
unfoldable pub release_unless_seckill : Env → Order → Text → Act ℕ
unfolding release_stock_for
release_unless_seckill env o suffix =
    if not (o.order_source == seckill)
    then release_stock_for env 0 o.order_no o.product_id o.quantity suffix
    else answer 0

abbrev state_event : Env → StateEventType → Order → StateEvent
state_event env event_type o = record {
  event_type = event_type;
  order_id = o.id;
  order_no = o.order_no;
  user_id = o.user_id;
  product_id = o.product_id;
  activity_id = o.seckill_activity_id;
  activity_item_id = o.seckill_activity_item_id;
  quantity = o.quantity;
  order_status = order_code o.order_status;
  payment_status = payment_code o.payment_status;
  review_status = review_code o.review_status;
  shipping_status = shipping_code o.shipping_status;
  refund_status = refund_code o.refund_status;
  close_reason = o.close_reason;
  occurred_at_unix_second = unix env.sent_at;
}

-- `emitSeckillOrderStateEvent`; `publishes` is that the topic and the producer are set up.
unfoldable pub emit_state : Env → StateEventType → Order → Act (Unit {0})
emit_state env event_type o = emit (
    if env.publishes
      && (o.order_source == seckill
          && ltb 0 o.seckill_activity_id
          && ltb 0 o.seckill_activity_item_id)
    then state_event env event_type o ∷ []
    else [])
