-- ===== src/Order/Service/Buyer.antt =====
-- apps/order/rpc/internal/logic: what a buyer does with an order. A request that is there and a
-- service that is initialised are taken for granted, here as in the other handlers.
use flash_sale.Prelude.{ℕ, ℤ, ◌+◌, not, ◌&&◌, some, List, [], ◌∷◌, ◌==◌, nat_eq, if◌then◌else◌}
use flash_sale.Text.{Text, text, trim_space}
use flash_sale.Result.{Result, ok, err}
use flash_sale.Errorx.{
  Code, auth_forbidden, order_already_closed, order_already_paid, order_invalid_state,
}
use flash_sale.Order.Model.{
  pending_pay, shipped, closed, unpaid, paid, on_the_way, order_status_eq, payment_status_eq,
  shipping_status_eq, Order, OrderEvent, EventType, order_paid_confirmed, order_canceled_by_user,
  order_received_by_user, user, Json, str, bool,
}
use flash_sale.Order.Updates.{PaymentInfo}
use flash_sale.Order.Repository.Operations.{
  Transition, pays_auto, pays_manual, cancels_unpaid, cancels_paid, confirms,
}
use flash_sale.Order.Service.Input.{
  PaymentForm, check_payment, need_manual_review, is_manual_pending_for_cancel,
}
use flash_sale.Order.Service.Views.{OrderView, to_order_view}
use flash_sale.Order.Service.World.{
  Env, Act, StateEventType, order_received, order_closed, ◌>>=◌, ◌>>◌, decide, answer, reject,
}
use flash_sale.Order.Service.Steps.{
  both_ids, load, reload, move, mark_order_stock_released, release_unless_seckill, emit_state,
}

-- `reviewTimeoutDur` and `virtualRefundDur`, in nanoseconds
abbrev pub review_timeout_dur : ℕ
review_timeout_dur = 1800000000000

abbrev pub virtual_refund_dur : ℕ
virtual_refund_dur = 60000000000

-- The checks of the order's state, in their order.
unfoldable pub check_payable : Order → Result Code (Unit {0})
check_payable o =
    if o.order_status == pending_pay && o.payment_status == unpaid
    then ok tt
    else if o.order_status == closed
    then err order_already_closed
    else if o.payment_status == paid
    then err order_already_paid
    else err order_invalid_state

abbrev by_buyer : Order → EventType → List (Text × Json) → ℕ → OrderEvent
by_buyer o event_type payload now = record {
  order_id = o.id;
  event_type = event_type;
  operator_type = user;
  operator_id = o.user_id;
  payload = payload;
  created_at = some now;
}

-- The update that a payment makes: into manual review, or past it.
unfoldable pub payment_move : Order → PaymentInfo → ℕ → Transition
unfolding need_manual_review
payment_move o info now =
    if need_manual_review o.order_source o.total_amount_cent
    then pays_manual o.user_id now info (now + review_timeout_dur)
    else pays_auto o.user_id now info

-- `ConfirmPaymentAndInfo`
unfoldable pub confirm_payment_and_info : Env → ℤ → ℤ → PaymentForm → Act OrderView
unfolding check_payable check_payment payment_move
confirm_payment_and_info env user_id order_id form = do
  ids ← decide (both_ids user_id order_id)
  o ← load env ids.1
  reject (not (o.user_id == ids.0)) auth_forbidden
  decide (check_payable o)
  info ← decide (check_payment form)
  move env o.id (payment_move o info env.now) (
      by_buyer o order_paid_confirmed
        ((text "manual_review", bool (need_manual_review o.order_source o.total_amount_cent))
          ∷ (text "pay_channel", str info.pay_channel)
          ∷ [])
        env.now)
  updated ← reload env o.id
  emit_state env StateEventType.order_paid_confirmed updated
  answer (to_order_view updated)

-- The update that a cancellation makes of the order that was found.
unfoldable pub cancellation : ℕ → Order → Result Code Transition
unfolding is_manual_pending_for_cancel
cancellation now o =
    if o.order_status == pending_pay && o.payment_status == unpaid
    then ok (cancels_unpaid o.user_id now)
    else if is_manual_pending_for_cancel o
    then ok (cancels_paid o.user_id now (now + virtual_refund_dur))
    else err order_invalid_state

-- `CancelOrder`
unfoldable pub cancel_order : Env → ℤ → ℤ → Text → Act OrderView
unfolding cancellation
cancel_order env user_id order_id reason = do
  ids ← decide (both_ids user_id order_id)
  o ← load env ids.1
  reject (not (o.user_id == ids.0)) auth_forbidden
  reject (o.order_status == closed) order_already_closed
  t ← decide (cancellation env.now o)
  move env o.id t (
      by_buyer o order_canceled_by_user ((text "user_reason", str (trim_space reason)) ∷ [])
        env.now)
  remain ← release_unless_seckill env o (text "release:cancel")
  mark_order_stock_released env 1 o.id remain (text "user_cancel") env.later
  updated ← reload env o.id
  emit_state env order_closed updated
  answer (to_order_view updated)

-- `ConfirmReceipt`
unfoldable pub confirm_receipt : Env → ℤ → ℤ → Act OrderView
confirm_receipt env user_id order_id = do
  ids ← decide (both_ids user_id order_id)
  o ← load env ids.1
  reject (not (o.user_id == ids.0)) auth_forbidden
  reject (not (o.order_status == shipped && o.shipping_status == on_the_way)) order_invalid_state
  move env o.id (confirms o.user_id env.now) (by_buyer o order_received_by_user [] env.now)
  updated ← reload env o.id
  emit_state env order_received updated
  emit_state env order_closed updated
  answer (to_order_view updated)
