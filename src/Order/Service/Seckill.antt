-- ===== src/Order/Service/Seckill.antt =====
-- apps/order/rpc/internal/logic/create_order_from_seckill_logic.go: an order of a seckill purchase,
-- whose stock the seckill service has set aside. The number of an order is made of the purchase by
-- `pkg/base/eventx/seckill_purchase.go`, with SHA-1 in capital hexadecimal digits as a parameter.
use flash_sale.Prelude.{
  ℕ, zero, suc, ℤ, positive, ◌*◌, ◌^◌, ◌%◌, Bool, true, false, ◌&&◌, ◌||◌, Option, none, some, [],
  ◌∷◌, ◌++◌, nat_beq, ltb, take, ◌==◌, if◌then◌else◌,
}
use flash_sale.Text.{Text, text, decimal, trim_space, is_blank, to_lower, contains}
use flash_sale.Result.{Result, ok, err, require}
use flash_sale.Sql.{mysql_error, other_error}
use flash_sale.Errorx.{Code, sys_bad_request, seckill_purchase_conflict, db_error}
use flash_sale.Order.Model.{
  seckill, order_source_eq, pending_pay, unpaid, not_reviewed, not_shipped, not_refunded, manual,
  no_reason, Order, OrderEvent, order_created_from_seckill, user, str, num, OrderErr,
  duplicate_order_no, driver,
}
use flash_sale.Order.Repository.{find_by_order_no}
use flash_sale.Order.Repository.Operations.{creates}
use flash_sale.Order.Service.Views.{OrderView, to_order_view}
use flash_sale.Order.Service.World.{
  Env, Act, StateEventType, ◌>>=◌, ◌>>◌, decide, answer, reject, read, attempt,
}
use flash_sale.Order.Service.Steps.{always_db, emit_state}

-- `CreateOrderFromSeckillReq`
pub record SeckillForm : Type 0 where
  pub user_id : ℤ
  pub activity_id : ℤ
  pub activity_item_id : ℤ
  pub product_id : ℤ
  pub quantity : ℤ
  pub seckill_price_cent : ℤ
  pub snapshot_name : Text
  pub snapshot_main_image : Text
  pub sku_code : Text
  pub idempotency_key : Text

-- A form whose numbers are positive and whose texts are trimmed and not blank.
pub record Purchase : Type 0 where
  pub user_id : ℕ
  pub activity_id : ℕ
  pub activity_item_id : ℕ
  pub product_id : ℕ
  pub quantity : ℕ
  pub price_cent : ℕ
  pub name : Text
  pub main_image : Text
  pub sku_code : Text
  pub idempotency_key : Text

abbrev pub number : ℤ → Act ℕ
number v = decide (require (positive v) sys_bad_request)

-- The checks of the form; each answers the same code.
unfoldable pub check_seckill : SeckillForm → Act Purchase
check_seckill form = do
  user_id ← number form.user_id
  activity_id ← number form.activity_id
  activity_item_id ← number form.activity_item_id
  product_id ← number form.product_id
  quantity ← number form.quantity
  price_cent ← number form.seckill_price_cent
  reject
      (is_blank form.snapshot_name || is_blank form.snapshot_main_image || is_blank form.sku_code)
      sys_bad_request
  reject (is_blank form.idempotency_key) sys_bad_request
  answer (record {
    user_id = user_id;
    activity_id = activity_id;
    activity_item_id = activity_item_id;
    product_id = product_id;
    quantity = quantity;
    price_cent = price_cent;
    name = trim_space form.snapshot_name;
    main_image = trim_space form.snapshot_main_image;
    sku_code = trim_space form.sku_code;
    idempotency_key = trim_space form.idempotency_key;
  })

-- `unitPrice * in.Quantity` in an `int64`, where it is not negative.
unfoldable pub seckill_total : Purchase → Option ℕ
seckill_total p =
    let total = p.price_cent * p.quantity % 2 ^ 64 in
    if ltb total (2 ^ 63) then some total else none

-- The order of a purchase.
abbrev pub order_of : ℕ → Text → Purchase → ℕ → ℕ → Order
order_of id order_no p total now = record {
  id = id;
  order_no = order_no;
  user_id = p.user_id;
  order_source = seckill;
  product_id = p.product_id;
  seckill_activity_id = p.activity_id;
  seckill_activity_item_id = p.activity_item_id;
  sku_code = p.sku_code;
  product_name = p.name;
  main_image = p.main_image;
  unit_price_cent = p.price_cent;
  quantity = p.quantity;
  total_amount_cent = total;
  order_status = pending_pay;
  payment_status = unpaid;
  review_status = not_reviewed;
  shipping_status = not_shipped;
  refund_status = not_refunded;
  review_mode = manual;
  paid_at = none;
  pay_channel = [];
  pay_reference = [];
  receiver_name = [];
  receiver_phone = [];
  receiver_address = [];
  buyer_remark = [];
  review_due_at = none;
  reviewed_at = none;
  reviewed_by = 0;
  review_reason = [];
  shipped_at = none;
  shipped_by = 0;
  tracking_no = [];
  refund_due_at = none;
  refunded_at = none;
  stock_released = false;
  closed_at = none;
  close_reason = no_reason;
  created_at = now;
  updated_at = now;
}

abbrev pub seckill_event : ℕ → Purchase → ℕ → OrderEvent
seckill_event id p now = record {
  order_id = id;
  event_type = order_created_from_seckill;
  operator_type = user;
  operator_id = p.user_id;
  payload =
      (text "activity_id", num p.activity_id)
      ∷ (text "activity_item_id", num p.activity_item_id)
      ∷ (text "product_id", num p.product_id)
      ∷ (text "quantity", num p.quantity)
      ∷ (text "idempotency_key", str p.idempotency_key)
      ∷ [];
  created_at = some now;
}

-- `isDuplicateOrderNoErr`
unfoldable pub is_duplicate_order_no_err : OrderErr → Bool
is_duplicate_order_no_err duplicate_order_no = true
is_duplicate_order_no_err (driver (mysql_error number message)) = nat_beq number 1062
is_duplicate_order_no_err (driver (other_error message)) =
    contains (text "duplicate entry") (to_lower message)
    || contains (text "for key") (to_lower message)
is_duplicate_order_no_err _ = false

-- The order that was found is of this purchase.
abbrev pub same_purchase : Purchase → Order → Bool
same_purchase p o =
    o.order_source == seckill
    && nat_beq o.user_id p.user_id
    && nat_beq o.seckill_activity_id p.activity_id
    && nat_beq o.seckill_activity_item_id p.activity_item_id

abbrev pub matched : Purchase → Result OrderErr Order → Result OrderErr (Option Order)
matched p (ok o) = ok (if same_purchase p o then some o else none)
matched p (err OrderErr.order_not_found) = ok none
matched p (err e) = err e

-- `findIdempotentSeckillOrder`, as the n-th lookup.
unfoldable pub find_idempotent_seckill_order : Env → ℕ → Text → Purchase → Act (Option Order)
find_idempotent_seckill_order env n order_no p =
    read always_db (λ db. matched p (find_by_order_no (env.lookup n) order_no db))

-- What was found, or what another look finds.
abbrev pub found_or : Option Order → Act (Option Order) → Act (Option Order)
found_or (some o) again = answer (some o)
found_or none again = again

-- The wait before the n-th lookup may end with the context's error, which `canceled` tells.
unfoldable pub find_again : (ℕ → Bool) → Env → ℕ → ℕ → Text → Purchase → Act (Option Order)
unfolding find_idempotent_seckill_order
find_again canceled env zero n order_no p = answer none
find_again canceled env (suc retries) n order_no p = do
  reject (canceled n) db_error
  found ← find_idempotent_seckill_order env n order_no p
  found_or found (find_again canceled env retries (suc n) order_no p)

-- `idempotentReplayRetryCount`
abbrev pub idempotent_replay_retry_count : ℕ
idempotent_replay_retry_count = 3

-- `findIdempotentSeckillOrderWithRetry`
unfoldable pub find_idempotent_seckill_order_with_retry :
    (ℕ → Bool) → Env → Text → Purchase → Act (Option Order)
unfolding find_idempotent_seckill_order find_again
find_idempotent_seckill_order_with_retry canceled env order_no p = do
  found ← find_idempotent_seckill_order env 0 order_no p
  found_or found (find_again canceled env idempotent_replay_retry_count 1 order_no p)

abbrev pub with_order : Order → Result OrderErr (Unit {0}) → Result OrderErr Order
with_order o (ok _) = ok o
with_order o (err e) = err e

-- The insert; a negative total does not fit its unsigned column.
abbrev pub insert_total : Env → ℕ → Text → Purchase → Option ℕ → Act (Result OrderErr Order)
insert_total env id order_no p none =
    answer (err (driver (mysql_error 1264 (text "Out of range value"))))
insert_total env id order_no p (some total) = do
  r ← attempt (
      creates (env.write 0) (env.clock 0) (order_of id order_no p total env.now)
        (seckill_event id p env.now))
  answer (with_order (order_of id order_no p total env.now) r)

unfoldable pub insert_purchase : Env → ℕ → Text → Purchase → Act (Result OrderErr Order)
unfolding seckill_total
insert_purchase env id order_no p = insert_total env id order_no p (seckill_total p)

abbrev pub existing_or : Code → Option Order → Act OrderView
existing_or c none = decide (err c)
existing_or c (some o) = answer (to_order_view o)

-- What the outcome of the insert is answered with.
unfoldable pub after_insert :
    (ℕ → Bool) → Env → Text → Purchase → Result OrderErr Order → Act OrderView
unfolding is_duplicate_order_no_err find_idempotent_seckill_order
    find_idempotent_seckill_order_with_retry
after_insert canceled env order_no p (ok o) = do
  emit_state env StateEventType.order_created o
  answer (to_order_view o)
after_insert canceled env order_no p (err e) =
    if is_duplicate_order_no_err e
    then (do
      found ← find_idempotent_seckill_order_with_retry canceled env order_no p
      existing_or seckill_purchase_conflict found)
    else (do found ← find_idempotent_seckill_order env 0 order_no p; existing_or db_error found)

module _ (sha1_hex : Text → Text) where
  -- `BuildSeckillOrderNo`
  unfoldable pub build_seckill_order_no : ℕ → ℕ → ℕ → Text → Text
  build_seckill_order_no user_id activity_id item_id key =
      text "SCK"
      ++ take 29 (
          sha1_hex (
            decimal user_id
            ++ text ":"
            ++ decimal activity_id
            ++ text ":"
            ++ decimal item_id
            ++ text ":"
            ++ trim_space key))

  abbrev pub order_no_of : Purchase → Text
  order_no_of p =
      build_seckill_order_no p.user_id p.activity_id p.activity_item_id p.idempotency_key

  -- `CreateOrderFromSeckill`: `busy` is that no slot was free in time (`acquireCreateSlot`), and
  -- `id` is the snowflake node's.
  unfoldable pub create_order_from_seckill :
      Bool → (ℕ → Bool) → Env → ℕ → SeckillForm → Act OrderView
  unfolding check_seckill insert_purchase after_insert build_seckill_order_no
  create_order_from_seckill busy canceled env id form = do
    p ← check_seckill form
    reject busy seckill_purchase_conflict
    r ← insert_purchase env id (order_no_of p) p
    after_insert canceled env (order_no_of p) p r
