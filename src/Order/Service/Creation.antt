-- ===== src/Order/Service/Creation.antt =====
-- apps/order/rpc/internal/logic/create_order_logic.go: an order at the shelf price.
use flash_sale.Prelude.{ℕ, ℤ, pos, false, none, some, [], ◌∷◌, ◌++◌}
use flash_sale.Text.{Text, text, decimal}
use flash_sale.Order.Model.{
  OrderSource, source_code, pending_pay, unpaid, not_reviewed, not_shipped, not_refunded, auto,
  no_reason, Order, OrderEvent, EventType, user, num,
}
use flash_sale.Order.Repository.Operations.{creates}
use flash_sale.Product.Service.{PublicProduct, get_product_public, reserve_stock_for_order}
use flash_sale.Order.Service.Input.{normalize_order_source}
use flash_sale.Order.Service.Views.{OrderView, to_order_view}
use flash_sale.Order.Service.World.{
  Env, Act, ◌>>=◌, ◌>>◌, decide, answer, write, logged, on_error, call_product, issue_token,
}
use flash_sale.Order.Service.Steps.{both_ids, reload, always_db, release_stock_for}

-- The order that is made of the product on the shelf.
abbrev pub order_of : ℕ → Text → ℕ → OrderSource → PublicProduct → ℕ → Order
order_of id order_no user_id source p now = record {
  id = id;
  order_no = order_no;
  user_id = user_id;
  order_source = source;
  product_id = p.product_id;
  seckill_activity_id = 0;
  seckill_activity_item_id = 0;
  sku_code = p.sku_code;
  product_name = p.name;
  main_image = p.main_image;
  unit_price_cent = p.price_cent;
  quantity = 1;
  total_amount_cent = p.price_cent;
  order_status = pending_pay;
  payment_status = unpaid;
  review_status = not_reviewed;
  shipping_status = not_shipped;
  refund_status = not_refunded;
  review_mode = auto;
  paid_at = none;
  pay_channel = [];
  pay_reference = [];
  receiver_name = [];
  receiver_phone = [];
  receiver_address = [];
  buyer_remark = [];
  review_due_at = none;
  reviewed_at = none;
  reviewed_by = 0;
  review_reason = [];
  shipped_at = none;
  shipped_by = 0;
  tracking_no = [];
  refund_due_at = none;
  refunded_at = none;
  stock_released = false;
  closed_at = none;
  close_reason = no_reason;
  created_at = now;
  updated_at = now;
}

abbrev pub order_no_of : ℕ → Text
order_no_of id = text "ORD" ++ decimal id

abbrev create_event : ℕ → ℕ → ℕ → OrderSource → ℕ → ℕ → OrderEvent
create_event id user_id product_id source total now = record {
  order_id = id;
  event_type = EventType.order_created;
  operator_type = user;
  operator_id = user_id;
  payload =
      (text "product_id", num product_id)
      ∷ (text "order_source", num (source_code source))
      ∷ (text "total_amount_cent", num total)
      ∷ [];
  created_at = some now;
}

-- The call of `GetProductPublic`.
unfoldable pub fetch_product : Env → ℕ → Act PublicProduct
fetch_product env product_id =
    call_product (env.rpc 0)
      (λ faults now db. (get_product_public (faults 0) (pos product_id) db, db))

-- The call of `ReserveStockForOrder`, under a token of its own.
unfoldable pub reserve_for_order : Env → ℕ → Text → Act ℕ
reserve_for_order env product_id order_no = do
  issue_token (env.token 0)
  call_product (env.rpc 1) (λ faults now.
      reserve_stock_for_order faults now (pos product_id) (pos 1) order_no
        (order_no ++ text ":reserve"))

-- `compensateReleaseStock`: its errors are only logged.
unfoldable pub compensate_release_stock : Env → Text → ℕ → Act (Unit {0})
unfolding release_stock_for
compensate_release_stock env order_no product_id =
    logged (release_stock_for env 2 order_no product_id 1 (text "release:create_fail"))

-- `CreateOrder`; `id` is the snowflake node's.
unfoldable pub create_order : Env → ℕ → ℤ → ℤ → ℤ → Act OrderView
unfolding fetch_product reserve_for_order compensate_release_stock
create_order env id user_id product_id order_source = do
  ids ← decide (both_ids user_id product_id)
  source ← decide (normalize_order_source order_source)
  p ← fetch_product env ids.1
  _ ← reserve_for_order env ids.1 (order_no_of id)
  on_error
      (write always_db (
        creates (env.write 0) (env.clock 0) (order_of id (order_no_of id) ids.0 source p env.now)
          (create_event id ids.0 ids.1 source p.price_cent env.now)))
      (compensate_release_stock env (order_no_of id) ids.1)
  created ← reload env id
  answer (to_order_view created)
