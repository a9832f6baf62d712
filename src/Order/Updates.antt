-- ===== src/Order/Updates.antt =====
-- apps/order/rpc/internal/repository/mysql_order_repository.go: the guarded updates of an order,
-- each as its `WHERE` and its `SET`.
use flash_sale.Prelude.{ℕ, Bool, ◌&&◌, none, some, ◌==◌, nat_eq}
use flash_sale.Text.{Text, text_eq}
use flash_sale.Order.Model.{
  CloseReason, pending_pay, pending_review, pending_ship, shipped, closed, unpaid, paid,
  manual_pending, passed, rejected, timeout_reject, on_the_way, received, refunding, refunded, auto,
  manual, completed, auto_completed, audit_reject, audit_timeout, pay_timeout, order_status_eq,
  payment_status_eq, review_status_eq, shipping_status_eq, refund_status_eq, Order,
}

-- An `UPDATE … SET … WHERE id = ? AND …`: the `WHERE` at the row, and what `SET` makes of it.
pub record Update : Type 0 where
  pub where_ : Order → Bool
  pub set_ : Order → Order

-- The texts that a buyer gives with the payment.
pub record PaymentInfo : Type 0 where
  pub pay_channel : Text
  pub pay_reference : Text
  pub receiver_name : Text
  pub receiver_phone : Text
  pub receiver_address : Text
  pub buyer_remark : Text

abbrev pub pay : ℕ → PaymentInfo → Order → Order
pay paid_at info o = record o {
  payment_status = paid;
  paid_at = some paid_at;
  pay_channel = info.pay_channel;
  pay_reference = info.pay_reference;
  receiver_name = info.receiver_name;
  receiver_phone = info.receiver_phone;
  receiver_address = info.receiver_address;
  buyer_remark = info.buyer_remark;
}

abbrev pub unpaid_of : ℕ → Order → Bool
unpaid_of user_id o =
    o.user_id == user_id && o.order_status == pending_pay && o.payment_status == unpaid

abbrev pub in_manual_review : Order → Bool
in_manual_review o = o.order_status == pending_review && o.review_status == manual_pending

-- `MarkPaidAutoPass`
unfoldable pub mark_paid_auto_pass : ℕ → ℕ → PaymentInfo → Update
mark_paid_auto_pass user_id paid_at info = record {
  where_ = unpaid_of user_id;
  set_ = λ o. record (pay paid_at info o) {
    order_status = pending_ship;
    review_status = passed;
    review_mode = auto;
    review_due_at = none;
  };
}

-- `MarkPaidManualReview`
unfoldable pub mark_paid_manual_review : ℕ → ℕ → PaymentInfo → ℕ → Update
mark_paid_manual_review user_id paid_at info review_due_at = record {
  where_ = unpaid_of user_id;
  set_ = λ o. record (pay paid_at info o) {
    order_status = pending_review;
    review_status = manual_pending;
    review_mode = manual;
    review_due_at = some review_due_at;
  };
}

-- `CancelUnpaid`
unfoldable pub cancel_unpaid : ℕ → ℕ → CloseReason → Update
cancel_unpaid user_id now reason = record {
  where_ = unpaid_of user_id;
  set_ = λ o. record o { order_status = closed; close_reason = reason; closed_at = some now };
}

-- `CancelPaidPendingReview`
unfoldable pub cancel_paid_pending_review : ℕ → ℕ → CloseReason → ℕ → Update
cancel_paid_pending_review user_id now reason refund_due_at = record {
  where_ =
      λ o. o.user_id == user_id && o.order_status == pending_review && o.payment_status == paid;
  set_ = λ o. record o {
    order_status = closed;
    close_reason = reason;
    closed_at = some now;
    refund_status = refunding;
    refund_due_at = some refund_due_at;
  };
}

-- `ReviewApprove`
unfoldable pub review_approve : ℕ → ℕ → Text → Update
review_approve admin_id now reason = record {
  where_ = in_manual_review;
  set_ = λ o. record o {
    order_status = pending_ship;
    review_status = passed;
    reviewed_at = some now;
    reviewed_by = admin_id;
    review_reason = reason;
  };
}

-- `ReviewReject`
unfoldable pub review_reject : ℕ → ℕ → Text → ℕ → Update
review_reject admin_id now reason refund_due_at = record {
  where_ = in_manual_review;
  set_ = λ o. record o {
    order_status = closed;
    review_status = rejected;
    reviewed_at = some now;
    reviewed_by = admin_id;
    review_reason = reason;
    refund_status = refunding;
    refund_due_at = some refund_due_at;
    close_reason = audit_reject;
    closed_at = some now;
  };
}

-- `Ship`
unfoldable pub ship : ℕ → Text → ℕ → Update
ship admin_id tracking_no now = record {
  where_ = λ o. o.order_status == pending_ship;
  set_ = λ o. record o {
    order_status = shipped;
    shipping_status = on_the_way;
    shipped_at = some now;
    shipped_by = admin_id;
    tracking_no = tracking_no;
  };
}

abbrev pub receive : ℕ → CloseReason → Order → Order
receive now reason o = record o {
  order_status = closed;
  shipping_status = received;
  close_reason = reason;
  closed_at = some now;
}

-- `ConfirmReceipt`
unfoldable pub confirm_receipt : ℕ → ℕ → Update
confirm_receipt user_id now = record {
  where_ =
      λ o. o.user_id == user_id && o.order_status == shipped && o.shipping_status == on_the_way;
  set_ = receive now completed;
}

-- `AutoReceive`
unfoldable pub auto_receive : ℕ → Update
auto_receive now = record {
  where_ = λ o. o.order_status == shipped && o.shipping_status == on_the_way;
  set_ = receive now auto_completed;
}

-- `ClosePayTimeout`
unfoldable pub close_pay_timeout : ℕ → Update
close_pay_timeout now = record {
  where_ = λ o. o.order_status == pending_pay && o.payment_status == unpaid;
  set_ = λ o. record o { order_status = closed; close_reason = pay_timeout; closed_at = some now };
}

-- `CloseReviewTimeoutRefunding`
unfoldable pub close_review_timeout_refunding : ℕ → ℕ → Update
close_review_timeout_refunding now refund_due_at = record {
  where_ = in_manual_review;
  set_ = λ o. record o {
    order_status = closed;
    review_status = timeout_reject;
    refund_status = refunding;
    refund_due_at = some refund_due_at;
    close_reason = audit_timeout;
    closed_at = some now;
  };
}

-- `CompleteRefund`
unfoldable pub complete_refund : ℕ → Update
complete_refund now = record {
  where_ = λ o. o.order_status == closed && o.refund_status == refunding;
  set_ = λ o. record o { refund_status = refunded; refunded_at = some now };
}
