-- ===== src/Order/Service/Input.antt =====
-- apps/order/rpc/internal/logic/common.go: what the handlers accept of a request. A value taken from
-- the request is trimmed before it is measured, in code points.
use flash_sale.Prelude.{
  ℕ, zero, suc, ℤ, pos, positive, Bool, true, not, ◌&&◌, ◌||◌, Option, none, some, [], ◌∷◌, nat_beq,
  ltb, leb, ◌==◌, if◌then◌else◌, length,
}
use flash_sale.Text.{Text, trim_space, is_blank}
use flash_sale.Result.{Result, ok, err, ◌>>=◌, ◌>>◌, reject_if}
use flash_sale.Errorx.{Code, sys_bad_request, order_invalid_receiver_info}
use flash_sale.Order.Updates.{PaymentInfo}
use flash_sale.Order.Model.{
  OrderSource, normal, seckill, pending_review, paid, manual_pending, order_source_eq,
  order_status_eq, payment_status_eq, review_status_eq, Order,
}

abbrev or_default : ℕ → Option ℕ → ℕ
or_default d none = d
or_default d (some n) = n

-- `normalizePagination`
unfoldable pub normalize_pagination : ℤ → ℤ → ℕ × ℕ
normalize_pagination page page_size =
    let size = or_default 20 (positive page_size) in
    (or_default 1 (positive page), if ltb 100 size then 100 else size)

-- `normalizeOrderSource`
unfoldable pub normalize_order_source : ℤ → Result Code OrderSource
normalize_order_source (pos zero) = ok normal
normalize_order_source (pos (suc zero)) = ok normal
normalize_order_source (pos (suc (suc zero))) = ok seckill
normalize_order_source _ = err sys_bad_request

-- `[0-9+\-]`
abbrev pub phone_char : ℕ → Bool
phone_char c = (leb 48 c && leb c 57) || nat_beq c 43 || nat_beq c 45

unfoldable pub all_phone_chars : Text → Bool
all_phone_chars [] = true
all_phone_chars (c ∷ s) = phone_char c && all_phone_chars s

-- `phonePattern`
unfoldable pub is_phone : Text → Bool
unfolding all_phone_chars
is_phone s = all_phone_chars s && leb 6 (length s) && leb (length s) 20

-- Whether a text's length is out of bounds.
abbrev pub outside : ℕ → ℕ → Text → Bool
outside low high s = ltb (length s) low || ltb high (length s)

-- The four texts of a delivery.
pub record ReceiverInfo : Type 0 where
  pub name : Text
  pub phone : Text
  pub address : Text
  pub remark : Text

-- `normalizeReceiverInfo`
unfoldable pub normalize_receiver_info : Text → Text → Text → Text → Result Code ReceiverInfo
unfolding is_phone
normalize_receiver_info name phone address remark = do
  reject_if (outside 1 64 (trim_space name)) order_invalid_receiver_info
  reject_if (not (is_phone (trim_space phone))) order_invalid_receiver_info
  reject_if (outside 1 512 (trim_space address)) order_invalid_receiver_info
  reject_if (ltb 200 (length (trim_space remark))) sys_bad_request
  ok (record {
    name = trim_space name;
    phone = trim_space phone;
    address = trim_space address;
    remark = trim_space remark;
  })

-- `normalizeTrackingNo`
unfoldable pub normalize_tracking_no : Text → Result Code Text
normalize_tracking_no v = do
  reject_if (outside 1 64 (trim_space v)) sys_bad_request
  ok (trim_space v)

-- `normalizePayField`
unfoldable pub normalize_pay_field : Text → ℕ → Result Code Text
normalize_pay_field v most = do
  reject_if (is_blank v) sys_bad_request
  reject_if (ltb most (length (trim_space v))) sys_bad_request
  ok (trim_space v)

-- The texts of `ConfirmPaymentAndInfoReq`.
pub record PaymentForm : Type 0 where
  pub pay_channel : Text
  pub pay_reference : Text
  pub receiver_name : Text
  pub receiver_phone : Text
  pub receiver_address : Text
  pub buyer_remark : Text

-- What `ConfirmPaymentAndInfo` checks of its texts, in its order.
unfoldable pub check_payment : PaymentForm → Result Code PaymentInfo
unfolding normalize_pay_field normalize_receiver_info
check_payment form = do
  channel ← normalize_pay_field form.pay_channel 32
  reference ← normalize_pay_field form.pay_reference 64
  receiver ←
      normalize_receiver_info form.receiver_name form.receiver_phone form.receiver_address
        form.buyer_remark
  ok (record {
    pay_channel = channel;
    pay_reference = reference;
    receiver_name = receiver.name;
    receiver_phone = receiver.phone;
    receiver_address = receiver.address;
    buyer_remark = receiver.remark;
  })

-- `needManualReview`
unfoldable pub need_manual_review : OrderSource → ℕ → Bool
need_manual_review seckill total = true
need_manual_review normal total = leb 100000 total

-- `isManualPendingForCancel`
unfoldable pub is_manual_pending_for_cancel : Order → Bool
is_manual_pending_for_cancel o =
    o.order_status == pending_review
    && o.payment_status == paid
    && o.review_status == manual_pending
