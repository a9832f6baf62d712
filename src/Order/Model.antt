-- ===== src/Order/Model.antt =====
-- apps/order/rpc/internal/model/order.go. The `int8` constants are data types with a code each; a
-- time is in nanoseconds since the epoch, and a `*time.Time` or a nullable column is an `Option`.
use flash_sale.Prelude.{ℕ, Bool, true, Option, List, ◌≡◌, ◌↔◌, arith, nat_beq, Comparable}
use flash_sale.Text.{Text}
use flash_sale.Sql.{DriverErr}

pub data OrderSource : Type 0 where
  normal seckill : OrderSource

pub data OrderStatus : Type 0 where
  pending_pay pending_review pending_ship shipped closed : OrderStatus

pub data PaymentStatus : Type 0 where
  unpaid paid : PaymentStatus

pub data ReviewStatus : Type 0 where
  not_reviewed manual_pending passed rejected timeout_reject : ReviewStatus

pub data ShippingStatus : Type 0 where
  not_shipped on_the_way received : ShippingStatus

pub data RefundStatus : Type 0 where
  not_refunded refunding refunded : RefundStatus

pub data ReviewMode : Type 0 where
  auto manual : ReviewMode

-- The texts of `CloseReason…`; `no_reason` is the empty text of an open order.
pub data CloseReason : Type 0 where
  no_reason completed auto_completed user_cancel pay_timeout audit_reject audit_timeout :
      CloseReason

abbrev pub source_code : OrderSource → ℕ
source_code normal = 1
source_code seckill = 2

abbrev pub order_code : OrderStatus → ℕ
order_code pending_pay = 10
order_code pending_review = 20
order_code pending_ship = 30
order_code shipped = 40
order_code closed = 90

abbrev pub payment_code : PaymentStatus → ℕ
payment_code unpaid = 0
payment_code paid = 1

abbrev pub review_code : ReviewStatus → ℕ
review_code not_reviewed = 0
review_code manual_pending = 1
review_code passed = 2
review_code rejected = 3
review_code timeout_reject = 4

abbrev pub shipping_code : ShippingStatus → ℕ
shipping_code not_shipped = 0
shipping_code on_the_way = 1
shipping_code received = 2

abbrev pub refund_code : RefundStatus → ℕ
refund_code not_refunded = 0
refund_code refunding = 1
refund_code refunded = 2

pub order_code_iff : (a b : OrderStatus) → (nat_beq (order_code a) (order_code b) ≡ true) ↔ (a ≡ b)
order_code_iff a b = (λ h. ground arith, λ h. ground arith)

pub payment_code_iff :
    (a b : PaymentStatus) → (nat_beq (payment_code a) (payment_code b) ≡ true) ↔ (a ≡ b)
payment_code_iff a b = (λ h. ground arith, λ h. ground arith)

pub review_code_iff :
    (a b : ReviewStatus) → (nat_beq (review_code a) (review_code b) ≡ true) ↔ (a ≡ b)
review_code_iff a b = (λ h. ground arith, λ h. ground arith)

pub shipping_code_iff :
    (a b : ShippingStatus) → (nat_beq (shipping_code a) (shipping_code b) ≡ true) ↔ (a ≡ b)
shipping_code_iff a b = (λ h. ground arith, λ h. ground arith)

pub refund_code_iff :
    (a b : RefundStatus) → (nat_beq (refund_code a) (refund_code b) ≡ true) ↔ (a ≡ b)
refund_code_iff a b = (λ h. ground arith, λ h. ground arith)

pub source_code_iff :
    (a b : OrderSource) → (nat_beq (source_code a) (source_code b) ≡ true) ↔ (a ≡ b)
source_code_iff a b = (λ h. ground arith, λ h. ground arith)

instance abbrev pub order_status_eq : Comparable OrderStatus
order_status_eq = record {
  same = λ a b. nat_beq (order_code a) (order_code b);
  same_iff = order_code_iff;
}

instance abbrev pub payment_status_eq : Comparable PaymentStatus
payment_status_eq = record {
  same = λ a b. nat_beq (payment_code a) (payment_code b);
  same_iff = payment_code_iff;
}

instance abbrev pub review_status_eq : Comparable ReviewStatus
review_status_eq = record {
  same = λ a b. nat_beq (review_code a) (review_code b);
  same_iff = review_code_iff;
}

instance abbrev pub shipping_status_eq : Comparable ShippingStatus
shipping_status_eq = record {
  same = λ a b. nat_beq (shipping_code a) (shipping_code b);
  same_iff = shipping_code_iff;
}

instance abbrev pub refund_status_eq : Comparable RefundStatus
refund_status_eq = record {
  same = λ a b. nat_beq (refund_code a) (refund_code b);
  same_iff = refund_code_iff;
}

instance abbrev pub order_source_eq : Comparable OrderSource
order_source_eq = record {
  same = λ a b. nat_beq (source_code a) (source_code b);
  same_iff = source_code_iff;
}

-- `Order`, one row of `orders`. `stock_released` is `StockReleased` (1) or `StockReleasePending` (0).
pub record Order : Type 0 where
  pub id : ℕ
  pub order_no : Text
  pub user_id : ℕ
  pub order_source : OrderSource
  pub product_id : ℕ
  pub seckill_activity_id : ℕ
  pub seckill_activity_item_id : ℕ
  pub sku_code : Text
  pub product_name : Text
  pub main_image : Text
  pub unit_price_cent : ℕ
  pub quantity : ℕ
  pub total_amount_cent : ℕ
  pub order_status : OrderStatus
  pub payment_status : PaymentStatus
  pub review_status : ReviewStatus
  pub shipping_status : ShippingStatus
  pub refund_status : RefundStatus
  pub review_mode : ReviewMode
  pub paid_at : Option ℕ
  pub pay_channel : Text
  pub pay_reference : Text
  pub receiver_name : Text
  pub receiver_phone : Text
  pub receiver_address : Text
  pub buyer_remark : Text
  pub review_due_at : Option ℕ
  pub reviewed_at : Option ℕ
  pub reviewed_by : ℕ
  pub review_reason : Text
  pub shipped_at : Option ℕ
  pub shipped_by : ℕ
  pub tracking_no : Text
  pub refund_due_at : Option ℕ
  pub refunded_at : Option ℕ
  pub stock_released : Bool
  pub closed_at : Option ℕ
  pub close_reason : CloseReason
  pub created_at : ℕ
  pub updated_at : ℕ

-- The values of an event's JSON payload.
pub data Json : Type 0 where
  str : Text → Json
  num : ℕ → Json
  bool : Bool → Json

-- The `EventType` texts of order events.
pub data EventType : Type 0 where
  order_created order_created_from_seckill order_paid_confirmed order_canceled_by_user : EventType
  order_review_approved order_review_rejected order_shipped order_received_by_user : EventType
  order_closed_by_pay_timeout order_review_timeout_rejected order_stock_released : EventType
  order_refund_completed order_auto_received : EventType

pub data OperatorType : Type 0 where
  user admin system : OperatorType

-- `OrderEvent`. The payload is the decoded object, `[]` for `{}` and for a blank one; `none` is
-- Go's zero time.
pub record OrderEvent : Type 0 where
  pub order_id : ℕ
  pub event_type : EventType
  pub operator_type : OperatorType
  pub operator_id : ℕ
  pub payload : List (Text × Json)
  pub created_at : Option ℕ

pub record OrderDb : Type 0 where
  pub orders : List Order
  pub events : List OrderEvent

-- `ErrOrderNotFound`, `ErrOrderStateConflict`, a duplicate `order_no` (server error 1062), others
pub data OrderErr : Type 0 where
  order_not_found order_state_conflict duplicate_order_no : OrderErr
  driver : DriverErr → OrderErr
