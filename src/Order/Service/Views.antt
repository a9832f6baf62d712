-- ===== src/Order/Service/Views.antt =====
-- apps/order/rpc/internal/logic/common.go: the order that the service's answers show.
use flash_sale.Prelude.{ℕ, ◌/◌, Option, none, some}
use flash_sale.Text.{Text}
use flash_sale.Order.Model.{
  CloseReason, Order, ReviewMode, auto, manual, source_code, order_code, payment_code, review_code,
  shipping_code, refund_code,
}

-- `OrderView`: a time that is not there is 0.
pub record OrderView : Type 0 where
  pub order_id : ℕ
  pub order_no : Text
  pub user_id : ℕ
  pub order_source : ℕ
  pub product_id : ℕ
  pub seckill_activity_id : ℕ
  pub seckill_activity_item_id : ℕ
  pub sku_code : Text
  pub product_name : Text
  pub main_image : Text
  pub unit_price_cent : ℕ
  pub quantity : ℕ
  pub total_amount_cent : ℕ
  pub order_status : ℕ
  pub payment_status : ℕ
  pub review_status : ℕ
  pub shipping_status : ℕ
  pub refund_status : ℕ
  pub review_mode : ℕ
  pub paid_at_unix : ℕ
  pub pay_channel : Text
  pub pay_reference : Text
  pub receiver_name : Text
  pub receiver_phone : Text
  pub receiver_address : Text
  pub buyer_remark : Text
  pub review_due_at_unix : ℕ
  pub reviewed_at_unix : ℕ
  pub reviewed_by : ℕ
  pub review_reason : Text
  pub shipped_at_unix : ℕ
  pub shipped_by : ℕ
  pub tracking_no : Text
  pub refund_due_at_unix : ℕ
  pub refunded_at_unix : ℕ
  pub closed_at_unix : ℕ
  pub close_reason : CloseReason
  pub created_at_unix : ℕ
  pub updated_at_unix : ℕ

abbrev pub unix : ℕ → ℕ
unix nanos = nanos / 1000000000

abbrev pub unix_or_zero : Option ℕ → ℕ
unix_or_zero none = 0
unix_or_zero (some nanos) = unix nanos

abbrev pub mode_code : ReviewMode → ℕ
mode_code auto = 1
mode_code manual = 2

-- `toOrderView`
unfoldable pub to_order_view : Order → OrderView
to_order_view m = record {
  order_id = m.id;
  order_no = m.order_no;
  user_id = m.user_id;
  order_source = source_code m.order_source;
  product_id = m.product_id;
  seckill_activity_id = m.seckill_activity_id;
  seckill_activity_item_id = m.seckill_activity_item_id;
  sku_code = m.sku_code;
  product_name = m.product_name;
  main_image = m.main_image;
  unit_price_cent = m.unit_price_cent;
  quantity = m.quantity;
  total_amount_cent = m.total_amount_cent;
  order_status = order_code m.order_status;
  payment_status = payment_code m.payment_status;
  review_status = review_code m.review_status;
  shipping_status = shipping_code m.shipping_status;
  refund_status = refund_code m.refund_status;
  review_mode = mode_code m.review_mode;
  paid_at_unix = unix_or_zero m.paid_at;
  pay_channel = m.pay_channel;
  pay_reference = m.pay_reference;
  receiver_name = m.receiver_name;
  receiver_phone = m.receiver_phone;
  receiver_address = m.receiver_address;
  buyer_remark = m.buyer_remark;
  review_due_at_unix = unix_or_zero m.review_due_at;
  reviewed_at_unix = unix_or_zero m.reviewed_at;
  reviewed_by = m.reviewed_by;
  review_reason = m.review_reason;
  shipped_at_unix = unix_or_zero m.shipped_at;
  shipped_by = m.shipped_by;
  tracking_no = m.tracking_no;
  refund_due_at_unix = unix_or_zero m.refund_due_at;
  refunded_at_unix = unix_or_zero m.refunded_at;
  closed_at_unix = unix_or_zero m.closed_at;
  close_reason = m.close_reason;
  created_at_unix = unix m.created_at;
  updated_at_unix = unix m.updated_at;
}
