-- ===== src/Order/Service/Consumer.antt =====
-- apps/order/rpc/internal/logic/purchase_create_consumer.go: the consumer of seckill purchases. The
-- decoding of a message is the JSON library's: `none` is a message that does not decode. A returned
-- error leaves the message to be consumed again.
use flash_sale.Prelude.{
  ℕ, zero, suc, ℤ, positive, Bool, true, false, not, ◌&&◌, ◌||◌, Option, none, some, List, [], ◌∷◌,
  is_some, if◌then◌else◌,
}
use flash_sale.Text.{Text, text, trim_space, is_blank}
use flash_sale.Result.{Result, ok, err}
use flash_sale.Errorx.{Code, sys_bad_request, sys_internal, auth_unauthorized, auth_forbidden}
use flash_sale.Order.Service.Views.{OrderView, unix}
use flash_sale.Order.Service.World.{
  Env, Act, Post, dead_letter, stock_compensate, StockCompensateEvent, Publish, publish, catch,
  ◌>>=◌, ◌>>◌, decide, answer,
}
use flash_sale.Order.Service.Seckill.{SeckillForm, create_order_from_seckill}

-- `SeckillPurchaseCreateEvent`
pub record PurchaseEvent : Type 0 where
  pub order_no : Text
  pub user_id : ℤ
  pub activity_id : ℤ
  pub activity_item_id : ℤ
  pub product_id : ℤ
  pub quantity : ℤ
  pub seckill_price_cent : ℤ
  pub snapshot_name : Text
  pub snapshot_main_image : Text
  pub sku_code : Text
  pub idempotency_key : Text

-- What one attempt at the order meets: a slot, the context's errors while it looks again, its calls
-- of the database, its id; and whether the context ends in the wait after it.
pub record Attempt : Type 0 where
  pub busy : Bool
  pub canceled : ℕ → Bool
  pub env : Env
  pub id : ℕ
  pub interrupted : Bool

-- What the broker does with what is published, and the time of that.
pub record Broker : Type 0 where
  pub has_dlq_topic : Bool
  pub dlq : Publish
  pub compensate : Publish
  pub now : ℕ

abbrev all_positive : List ℤ → Bool
all_positive [] = true
all_positive (v ∷ vs) = is_some (positive v) && all_positive vs

-- `validateSeckillPurchaseCreateEvent`
unfoldable pub is_valid_event : PurchaseEvent → Bool
is_valid_event e =
    not (is_blank e.order_no || is_blank e.idempotency_key)
    && all_positive (
        e.user_id ∷ e.activity_id ∷ e.activity_item_id ∷ e.product_id ∷ e.quantity
        ∷ e.seckill_price_cent ∷ [])
    && not (is_blank e.snapshot_name || is_blank e.snapshot_main_image || is_blank e.sku_code)

-- `isNonRetryablePurchaseCreateError`
unfoldable pub is_non_retryable : Code → Bool
is_non_retryable sys_bad_request = true
is_non_retryable auth_unauthorized = true
is_non_retryable auth_forbidden = true
is_non_retryable _ = false

-- `publishPurchaseCreateDLQ`
unfoldable pub publish_dlq : Broker → Text → Act (Unit {0})
publish_dlq broker reason =
    if broker.has_dlq_topic then publish broker.dlq (dead_letter reason) else answer tt

abbrev pub compensate_event : Broker → PurchaseEvent → StockCompensateEvent
compensate_event broker e = record {
  order_no = e.order_no;
  user_id = e.user_id;
  activity_id = e.activity_id;
  activity_item_id = e.activity_item_id;
  quantity = e.quantity;
  idempotency_key = e.idempotency_key;
  occurred_at_unix = unix broker.now;
}

-- The request to give the stock of a purchase back.
abbrev pub request_of : Broker → PurchaseEvent → Post
request_of broker e =
    stock_compensate (trim_space e.order_no) (trim_space e.idempotency_key)
      (compensate_event broker e)

-- `publishStockCompensate`
unfoldable pub publish_stock_compensate : Broker → PurchaseEvent → Act (Unit {0})
publish_stock_compensate broker e = publish broker.compensate (request_of broker e)

abbrev pub form_of : PurchaseEvent → SeckillForm
form_of e = record {
  user_id = e.user_id;
  activity_id = e.activity_id;
  activity_item_id = e.activity_item_id;
  product_id = e.product_id;
  quantity = e.quantity;
  seckill_price_cent = e.seckill_price_cent;
  snapshot_name = e.snapshot_name;
  snapshot_main_image = e.snapshot_main_image;
  sku_code = e.sku_code;
  idempotency_key = e.idempotency_key;
}

-- How the attempts at an order end.
pub data Ending : Type 0 where
  created refused exhausted interrupted : Ending

-- What follows an attempt, with what another one would end in.
unfoldable pub judge : Result Code OrderView → Bool → Act Ending → Act Ending
judge (ok v) stop again = answer created
judge (err c) stop again =
    if is_non_retryable c then answer refused else if stop then answer interrupted else again

-- `seckillPurchaseCreateRetryCount`
abbrev pub retry_count : ℕ
retry_count = 2

-- A message that cannot become an order is set aside, and its stock is asked back.
unfoldable pub give_up : Broker → Text → PurchaseEvent → Act (Unit {0})
unfolding publish_dlq publish_stock_compensate
give_up broker reason e = do publish_dlq broker reason; publish_stock_compensate broker e

unfoldable pub finish : Broker → PurchaseEvent → Ending → Act (Unit {0})
unfolding give_up
finish broker e created = answer tt
finish broker e refused = give_up broker (text "non_retryable") e
finish broker e exhausted = give_up broker (text "retries_exhausted") e
finish broker e interrupted = decide (err sys_internal)

module _ (sha1_hex : Text → Text) where
  abbrev pub attempt_create : Attempt → PurchaseEvent → Act OrderView
  attempt_create a e = create_order_from_seckill sha1_hex a.busy a.canceled a.env a.id (form_of e)

  -- The loop over the attempts.
  unfoldable pub try_create : (ℕ → Attempt) → ℕ → PurchaseEvent → Act Ending
  unfolding judge
  try_create attempts zero e = do
    r ← catch (attempt_create (attempts 0) e)
    judge r false (answer exhausted)
  try_create attempts (suc retries) e = do
    r ← catch (attempt_create (attempts 0) e)
    judge r (attempts 0).interrupted (try_create (λ n. attempts (suc n)) retries e)

  unfoldable pub consume_event : (ℕ → Attempt) → Broker → PurchaseEvent → Act (Unit {0})
  unfolding try_create finish give_up
  consume_event attempts broker e =
      if is_valid_event e
      then (do ending ← try_create attempts retry_count e; finish broker e ending)
      else give_up broker (text "invalid_payload") e

  -- `consumeSeckillPurchaseCreateMessage`
  unfoldable pub consume_message : (ℕ → Attempt) → Broker → Option PurchaseEvent → Act (Unit {0})
  unfolding consume_event publish_dlq
  consume_message attempts broker none = do
    publish_dlq broker (text "decode_failed")
    decide (err sys_internal)
  consume_message attempts broker (some e) = consume_event attempts broker e
