-- ===== src/Order/Service/Admin.antt =====
-- apps/order/rpc/internal/logic: what an administrator does with an order.
use flash_sale.Prelude.{
  ℕ, ℤ, ◌+◌, Bool, true, false, not, ◌&&◌, some, List, [], ◌∷◌, ◌==◌, if◌then◌else◌,
}
use flash_sale.Text.{Text, text, trim_space, is_blank}
use flash_sale.Errorx.{order_invalid_state}
use flash_sale.Order.Model.{
  pending_review, pending_ship, manual_pending, order_status_eq, review_status_eq, Order,
  OrderEvent, EventType, admin, Json, str,
}
use flash_sale.Order.Repository.Operations.{approves, rejects, ships}
use flash_sale.Order.Service.Input.{normalize_tracking_no}
use flash_sale.Order.Service.Views.{OrderView, to_order_view}
use flash_sale.Order.Service.World.{Env, Act, StateEventType, ◌>>=◌, ◌>>◌, decide, answer, reject}
use flash_sale.Order.Service.Steps.{
  both_ids, load, reload, move, mark_order_stock_released, release_unless_seckill, emit_state,
}
use flash_sale.Order.Service.Buyer.{virtual_refund_dur}

abbrev by_admin : ℕ → Order → EventType → List (Text × Json) → ℕ → OrderEvent
by_admin admin_id o event_type payload now = record {
  order_id = o.id;
  event_type = event_type;
  operator_type = admin;
  operator_id = admin_id;
  payload = payload;
  created_at = some now;
}

-- A rejection without a reason is given one.
abbrev pub rejection_reason : Text → Text
rejection_reason reason = if is_blank reason then text "审核拒绝" else trim_space reason

-- What follows a review: a rejection gives the stock back.
unfoldable pub after_review : Env → Bool → Order → Act (Unit {0})
after_review env true o = answer tt
after_review env false o = do
  remain ← release_unless_seckill env o (text "release:review_reject")
  mark_order_stock_released env 1 o.id remain (text "review_reject") env.later

unfoldable pub review_move : Env → Bool → ℕ → Text → Order → Act (Unit {0})
review_move env true admin_id reason o =
    move env o.id (approves admin_id env.now (trim_space reason)) (
      by_admin admin_id o EventType.order_review_approved
        ((text "reason", str (trim_space reason)) ∷ []) env.now)
review_move env false admin_id reason o =
    move env o.id
      (rejects admin_id env.now (rejection_reason reason) (env.now + virtual_refund_dur))
      (by_admin admin_id o EventType.order_review_rejected
        ((text "reason", str (rejection_reason reason)) ∷ []) env.now)

-- `ReviewOrderAdmin`
unfoldable pub review_order_admin : Env → ℤ → ℤ → Bool → Text → Act OrderView
unfolding review_move after_review
review_order_admin env order_id admin_id approved reason = do
  ids ← decide (both_ids order_id admin_id)
  o ← load env ids.0
  reject (not (o.order_status == pending_review && o.review_status == manual_pending))
      order_invalid_state
  review_move env approved ids.1 reason o
  after_review env approved o
  updated ← reload env o.id
  emit_state env
      (if approved
        then StateEventType.order_review_approved
        else StateEventType.order_review_rejected)
      updated
  answer (to_order_view updated)

-- `ShipOrderAdmin`
unfoldable pub ship_order_admin : Env → ℤ → ℤ → Text → Act OrderView
ship_order_admin env order_id admin_id tracking_no = do
  ids ← decide (both_ids order_id admin_id)
  number ← decide (normalize_tracking_no tracking_no)
  o ← load env ids.0
  reject (not (o.order_status == pending_ship)) order_invalid_state
  move env o.id (ships ids.1 number env.now)
      (by_admin ids.1 o EventType.order_shipped ((text "tracking_no", str number) ∷ []) env.now)
  updated ← reload env o.id
  emit_state env StateEventType.order_shipped updated
  answer (to_order_view updated)
