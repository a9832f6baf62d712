-- ===== src/Order/Service/History/Handlers.antt =====
-- The handlers and jobs of the order service, whatever happens in them, make histories of guarded
-- writes.
use flash_sale.Prelude.{ℕ, ℤ, Bool, true, false, refl}
use flash_sale.Text.{Text}
use flash_sale.Order.Model.{Order, OrderSource}
use flash_sale.Product.Service.Trades.{
  unmoved, reserve_stock_for_order-Trades, release_stock_for_order-Trades,
}
use flash_sale.Order.Service.World.{Env}
use flash_sale.Order.Service.Steps.{
  release_stock_for, mark_order_stock_released, release_unless_seckill, emit_state,
}
use flash_sale.Order.Service.Input.{PaymentForm}
use flash_sale.Order.Service.Buyer.{confirm_payment_and_info, cancel_order, confirm_receipt}
use flash_sale.Order.Service.Admin.{review_order_admin, review_move, after_review, ship_order_admin}
use flash_sale.Order.Repository.Phases.{IsNew}
use flash_sale.Product.Service.{PublicProduct}
use flash_sale.Order.Service.Creation.{
  order_of, fetch_product, reserve_for_order, compensate_release_stock, create_order,
}
use flash_sale.Order.Service.History.{
  IsHistory, Trades, bind-IsHistory, decide-IsHistory, read-IsHistory, emit-IsHistory,
  write-IsHistory, logged-IsHistory, on_error-IsHistory, if-IsHistory, call_product-IsHistory,
}

pub release_stock_for-IsHistory :
    (env : Env) (n : ℕ) (order_no : Text) (product_id quantity : ℕ) (suffix : Text)
    → IsHistory (release_stock_for env n order_no product_id quantity suffix)
unfolding release_stock_for
release_stock_for-IsHistory env n order_no product_id quantity suffix =
    bind-IsHistory (decide-IsHistory _) (λ _.
      call_product-IsHistory _ _ (λ faults now. release_stock_for_order-Trades faults now _ _ _ _))

pub mark_order_stock_released-IsHistory :
    (env : Env) (n id remain : ℕ) (trigger : Text) (now : ℕ)
    → IsHistory (mark_order_stock_released env n id remain trigger now)
unfolding mark_order_stock_released
mark_order_stock_released-IsHistory env n id remain trigger now = write-IsHistory _ _ tt

pub release_unless_seckill-IsHistory :
    (env : Env) (o : Order) (suffix : Text) → IsHistory (release_unless_seckill env o suffix)
unfolding release_unless_seckill
release_unless_seckill-IsHistory env o suffix =
    if-IsHistory _ (release_stock_for-IsHistory env 0 _ _ _ suffix) (decide-IsHistory _)

pub emit_state-IsHistory : (env : Env) (t : _) (o : Order) → IsHistory (emit_state env t o)
unfolding emit_state
emit_state-IsHistory env t o = emit-IsHistory _

pub ruleset steps = (
  bind-IsHistory, decide-IsHistory, read-IsHistory, write-IsHistory, logged-IsHistory,
  on_error-IsHistory, if-IsHistory, release_stock_for-IsHistory,
  mark_order_stock_released-IsHistory, release_unless_seckill-IsHistory, emit_state-IsHistory,
)

pub confirm_payment_and_info-IsHistory :
    (env : Env) (user_id order_id : ℤ) (form : PaymentForm)
    → IsHistory (confirm_payment_and_info env user_id order_id form)
unfolding confirm_payment_and_info
confirm_payment_and_info-IsHistory env user_id order_id form = search steps depth 30

pub cancel_order-IsHistory :
    (env : Env) (user_id order_id : ℤ) (reason : Text)
    → IsHistory (cancel_order env user_id order_id reason)
unfolding cancel_order
cancel_order-IsHistory env user_id order_id reason = search steps depth 30

pub confirm_receipt-IsHistory :
    (env : Env) (user_id order_id : ℤ) → IsHistory (confirm_receipt env user_id order_id)
unfolding confirm_receipt
confirm_receipt-IsHistory env user_id order_id = search steps depth 30

review_move-IsHistory :
    (env : Env) (approved : Bool) (admin_id : ℕ) (reason : Text) (o : Order)
    → IsHistory (review_move env approved admin_id reason o)
unfolding review_move
review_move-IsHistory env true admin_id reason o = search steps
review_move-IsHistory env false admin_id reason o = search steps

after_review-IsHistory :
    (env : Env) (approved : Bool) (o : Order) → IsHistory (after_review env approved o)
unfolding after_review
after_review-IsHistory env true o = search steps
after_review-IsHistory env false o = search steps

pub review_order_admin-IsHistory :
    (env : Env) (order_id admin_id : ℤ) (approved : Bool) (reason : Text)
    → IsHistory (review_order_admin env order_id admin_id approved reason)
unfolding review_order_admin
review_order_admin-IsHistory env order_id admin_id approved reason =
    search (steps, review_move-IsHistory, after_review-IsHistory) depth 30

pub ship_order_admin-IsHistory :
    (env : Env) (order_id admin_id : ℤ) (tracking_no : Text)
    → IsHistory (ship_order_admin env order_id admin_id tracking_no)
unfolding ship_order_admin
ship_order_admin-IsHistory env order_id admin_id tracking_no = search steps depth 30

fetch_product-IsHistory : (env : Env) (product_id : ℕ) → IsHistory (fetch_product env product_id)
unfolding fetch_product
fetch_product-IsHistory env product_id = call_product-IsHistory _ _ (λ faults now db. unmoved db)

reserve_for_order-IsHistory :
    (env : Env) (product_id : ℕ) (order_no : Text)
    → IsHistory (reserve_for_order env product_id order_no)
unfolding reserve_for_order
reserve_for_order-IsHistory env product_id order_no = bind-IsHistory (decide-IsHistory _) (λ _.
    call_product-IsHistory _ _ (λ faults now. reserve_stock_for_order-Trades faults now _ _ _ _))

compensate_release_stock-IsHistory :
    (env : Env) (order_no : Text) (product_id : ℕ)
    → IsHistory (compensate_release_stock env order_no product_id)
unfolding compensate_release_stock
compensate_release_stock-IsHistory env order_no product_id = search steps

order_of-IsNew :
    (id : ℕ) (order_no : Text) (user_id : ℕ) (source : OrderSource) (p : PublicProduct) (now : ℕ)
    → IsNew (order_of id order_no user_id source p now)
order_of-IsNew id order_no user_id source p now = record {
  order_status = refl;
  payment_status = refl;
  review_status = refl;
  shipping_status = refl;
  refund_status = refl;
}

pub create_order-IsHistory :
    (env : Env) (id : ℕ) (user_id product_id order_source : ℤ)
    → IsHistory (create_order env id user_id product_id order_source)
unfolding create_order
create_order-IsHistory env id user_id product_id order_source =
    search
      (
        steps, fetch_product-IsHistory, reserve_for_order-IsHistory,
        compensate_release_stock-IsHistory, order_of-IsNew,
      )
      depth 30
