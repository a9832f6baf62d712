-- ===== src/Witness/Reviews.antt =====
-- An order that waits for its review, rejected by administrator 2.
use flash_sale.Prelude.{true, false, pos, ◌+◌, some, [], ◌∷◌, ◌≡◌, refl}
use flash_sale.Result.{ok}
use flash_sale.Sql.{find, update}
use flash_sale.Order.Model.{
  Order, closed, pending_review, paid, manual_pending, rejected, refunding, audit_reject,
}
use flash_sale.Order.Repository.{exec_with_event, append_event_tx, find_by_id, mark_stock_released}
use flash_sale.Order.Repository.Operations.{apply_op, update_of}
use flash_sale.Order.Updates.{review_reject}
use flash_sale.Product.Repository.{release_stock}
use flash_sale.Product.Service.{release_stock_for_order}
use flash_sale.Order.Service.Views.{to_order_view}
use flash_sale.Order.Service.World.{World, continue, ◌>>=◌, decide, read, write, call_product, emit}
use flash_sale.Order.Service.Steps.{
  both_ids, release_stock_for, mark_order_stock_released, release_unless_seckill, emit_state,
}
use flash_sale.Order.Service.Admin.{review_order_admin, review_move, after_review}
use flash_sale.Product.Repository.{
  stock_tx, lock_idempotency_record_tx, mark_idempotency_done_tx, release_stock_tx, find_record,
  mark_done,
}
use flash_sale.Text.{trim_space, is_blank}
use flash_sale.Order.Service.Deeds.Rejection.{Rejected, review_order_admin-Rejected}
use flash_sale.Witness.Orders.{draft}
use flash_sale.Witness.Stock.{shop}
use flash_sale.Witness.Service.{reached}

abbrev waiting : Order
waiting = record draft {
  order_status = pending_review;
  payment_status = paid;
  review_status = manual_pending;
}

abbrev desk : World
desk = record {
  orders = record { orders = waiting ∷ []; events = [] };
  products = shop;
  emitted = [];
  posted = [];
}

abbrev turned_down : Order
turned_down = record waiting {
  order_status = closed;
  review_status = rejected;
  reviewed_at = some reached.now;
  reviewed_by = 2;
  review_reason = 63 ∷ [];
  refund_status = refunding;
  refund_due_at = some (reached.now + 60000000000);
  close_reason = audit_reject;
  closed_at = some reached.now;
  stock_released = true;
  updated_at = reached.later;
}

order_rejected :
    (review_order_admin reached (pos 31) (pos 2) false (63 ∷ []) desk).0
    ≡ ok (to_order_view turned_down)
unfolding review_order_admin review_move after_review continue ◌>>=◌ decide read write call_product
    both_ids find_by_id find apply_op exec_with_event append_event_tx update update_of review_reject
    release_unless_seckill release_stock_for release_stock_for_order release_stock is_blank
    trim_space stock_tx lock_idempotency_record_tx mark_idempotency_done_tx release_stock_tx
    find_record mark_done mark_order_stock_released mark_stock_released emit_state emit
    to_order_view
order_rejected = refl

review_order_admin-Rejected_example :
    Rejected reached
      (pos 2)
      31
      (to_order_view turned_down)
      (review_order_admin reached (pos 31) (pos 2) false (63 ∷ []) desk).1
review_order_admin-Rejected_example =
    review_order_admin-Rejected reached (pos 31) (pos 2) (63 ∷ []) desk refl order_rejected
