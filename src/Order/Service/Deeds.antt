-- ===== src/Order/Service/Deeds.antt =====
-- What buyers and administrators may do to an order, written down without the handlers: who may do
-- it, to which order, from which statuses, and what is recorded. The handlers of
-- apps/order/rpc/internal/logic do nothing else.
pub mod Rows
pub mod Moves
pub mod Asked
pub mod Handlers
pub mod Rejection
use flash_sale.Prelude.{ℕ, ℤ, pos, ◌+◌, Bool, true, false, some, leb, ◌≡◌, if◌then◌else◌}
use flash_sale.Text.{Text}
use flash_sale.Result.{ok}
use flash_sale.Order.Model.{
  Order, pending_pay, pending_review, pending_ship, shipped, closed, unpaid, paid, manual_pending,
  passed, rejected, on_the_way, received, refunding, completed, user_cancel, audit_reject, seckill,
  normal, CloseReason, OrderSource, OrderStatus, ReviewStatus,
}
use flash_sale.Order.Service.World.{Env}
use flash_sale.Order.Service.Input.{PaymentForm, normalize_tracking_no}

-- A call of a handler for one order.
pub data Request : Type 0 where
  pays : Env → ℤ → ℤ → PaymentForm → Request
  cancels : Env → ℤ → ℤ → Text → Request
  confirms : Env → ℤ → ℤ → Request
  reviews : Env → ℤ → ℤ → Bool → Text → Request
  ships : Env → ℤ → ℤ → Text → Request

-- The order that a request names.
abbrev pub names : Request → ℤ
names (pays env user_id order_id form) = order_id
names (cancels env user_id order_id reason) = order_id
names (confirms env user_id order_id) = order_id
names (reviews env order_id admin_id approved reason) = order_id
names (ships env order_id admin_id number) = order_id

-- What an order is for good: none of the deeds changes it.
pub record SameDeal (o o' : Order) : Type 0 where
  pub id : o'.id ≡ o.id
  pub order_no : o'.order_no ≡ o.order_no
  pub user : o'.user_id ≡ o.user_id
  pub source : o'.order_source ≡ o.order_source
  pub product : o'.product_id ≡ o.product_id
  pub units : o'.quantity ≡ o.quantity
  pub price : o'.total_amount_cent ≡ o.total_amount_cent

-- Where a payment leads: an order of a seckill, or of 1000 yuan and more, is reviewed by hand.
abbrev paid_into : OrderSource → ℕ → OrderStatus × ReviewStatus
paid_into seckill total = (pending_review, manual_pending)
paid_into normal total =
    if leb 100000 total then (pending_review, manual_pending) else (pending_ship, passed)

pub record Pays (env : Env) (o o' : Order) : Type 0 where
  pub was : (o.order_status ≡ pending_pay) × (o.payment_status ≡ unpaid)
  pub is_now :
      (o'.payment_status ≡ paid)
      × ((o'.order_status, o'.review_status) ≡ paid_into o.order_source o.total_amount_cent)
  pub time : o'.paid_at ≡ some env.now

-- An unpaid order is dropped; one that waits for its review is paid back, a minute later.
pub data Cancels (env : Env) (o o' : Order) : Type 0 where
  drops :
      (o.order_status ≡ pending_pay) × (o.payment_status ≡ unpaid)
      → o'.refund_status ≡ o.refund_status
      → Cancels env o o'
  pays_back :
      (o.order_status ≡ pending_review) × (o.payment_status ≡ paid)
      → (o'.refund_status ≡ refunding) × (o'.refund_due_at ≡ some (env.now + 60000000000))
      → Cancels env o o'

pub record Closes (env : Env) (reason : CloseReason) (o' : Order) : Type 0 where
  pub status : o'.order_status ≡ closed
  pub why : o'.close_reason ≡ reason
  pub time : o'.closed_at ≡ some env.now

abbrev InReview : Order → Type 0
InReview o = (o.order_status ≡ pending_review) × (o.review_status ≡ manual_pending)

pub record Approves (admin : ℤ) (o o' : Order) : Type 0 where
  pub was : InReview o
  pub is_now : (o'.order_status ≡ pending_ship) × (o'.review_status ≡ passed)
  pub by : admin ≡ pos o'.reviewed_by

pub record Rejects (env : Env) (admin : ℤ) (o o' : Order) : Type 0 where
  pub was : InReview o
  pub is_now : Closes env audit_reject o' × (o'.review_status ≡ rejected)
  pub refund : (o'.refund_status ≡ refunding) × (o'.refund_due_at ≡ some (env.now + 60000000000))
  pub by : admin ≡ pos o'.reviewed_by

pub record Ships (admin : ℤ) (number : Text) (o o' : Order) : Type 0 where
  pub was : o.order_status ≡ pending_ship
  pub is_now : (o'.order_status ≡ shipped) × (o'.shipping_status ≡ on_the_way)
  pub parcel : normalize_tracking_no number ≡ ok o'.tracking_no
  pub by : admin ≡ pos o'.shipped_by

pub record Receives (env : Env) (o o' : Order) : Type 0 where
  pub was : (o.order_status ≡ shipped) × (o.shipping_status ≡ on_the_way)
  pub is_now : Closes env completed o' × (o'.shipping_status ≡ received)

-- The deed that a request asks for, done to the order with the id: it is the order that the request
-- names, and a buyer's own.
abbrev pub Deed : Request → ℕ → Order → Order → Type 0
Deed (pays env user_id order_id form) id o o' =
    (order_id ≡ pos id) × (user_id ≡ pos o.user_id) × SameDeal o o' × Pays env o o'
Deed (cancels env user_id order_id reason) id o o' =
    (order_id ≡ pos id)
    × (user_id ≡ pos o.user_id)
    × SameDeal o o'
    × Closes env user_cancel o'
    × Cancels env o o'
Deed (confirms env user_id order_id) id o o' =
    (order_id ≡ pos id) × (user_id ≡ pos o.user_id) × SameDeal o o' × Receives env o o'
Deed (reviews env order_id admin_id true reason) id o o' =
    (order_id ≡ pos id) × SameDeal o o' × Approves admin_id o o'
Deed (reviews env order_id admin_id false reason) id o o' =
    (order_id ≡ pos id) × SameDeal o o' × Rejects env admin_id o o'
Deed (ships env order_id admin_id number) id o o' =
    (order_id ≡ pos id) × SameDeal o o' × Ships admin_id number o o'
