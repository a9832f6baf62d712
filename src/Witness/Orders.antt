-- ===== src/Witness/Orders.antt =====
-- One order, from its creation on.
use flash_sale.Prelude.{List, [], ◌∷◌, ◌≡◌, refl, none, some, arith, true, false}
use flash_sale.Result.{ok}
use flash_sale.Sql.{no_faults, All, find, insert, update}
use flash_sale.Order.Model.{
  Order, OrderEvent, OrderDb, normal, pending_pay, unpaid, not_reviewed, not_shipped, not_refunded,
  auto, no_reason, closed, pay_timeout, order_created, user,
}
use flash_sale.Order.Repository.{
  find_order, inserted_row, create, exec_with_event, append_event_tx, lookup_order_no,
  mark_stock_released,
}
use flash_sale.Order.Repository.Operations.{
  OrderOp, moves, releases, creates, times_out_pay, apply_op, run, update_of,
}
use flash_sale.Order.Repository.Phases.{IsLegal, IsSafe, apply_op-IsLegal, run-IsSafe}
use flash_sale.Order.Repository.Finality.{Continues, run-Continues}
use flash_sale.Order.Repository.Audit.{Logged, apply_op-Logged}

abbrev pub draft : Order
draft = record {
  id = 31;
  order_no = 79 ∷ [];
  user_id = 5;
  order_source = normal;
  product_id = 7;
  seckill_activity_id = 0;
  seckill_activity_item_id = 0;
  sku_code = [];
  product_name = [];
  main_image = [];
  unit_price_cent = 1999;
  quantity = 1;
  total_amount_cent = 1999;
  order_status = pending_pay;
  payment_status = unpaid;
  review_status = not_reviewed;
  shipping_status = not_shipped;
  refund_status = not_refunded;
  review_mode = auto;
  paid_at = none;
  pay_channel = [];
  pay_reference = [];
  receiver_name = [];
  receiver_phone = [];
  receiver_address = [];
  buyer_remark = [];
  review_due_at = none;
  reviewed_at = none;
  reviewed_by = 0;
  review_reason = [];
  shipped_at = none;
  shipped_by = 0;
  tracking_no = [];
  refund_due_at = none;
  refunded_at = none;
  stock_released = false;
  closed_at = none;
  close_reason = no_reason;
  created_at = 0;
  updated_at = 0;
}

abbrev note : OrderEvent
note = record {
  order_id = 31;
  event_type = order_created;
  operator_type = user;
  operator_id = 5;
  payload = [];
  created_at = none;
}

abbrev empty : OrderDb
empty = record { orders = []; events = [] }

abbrev pub placed : OrderDb
placed = record { orders = inserted_row 100 draft ∷ []; events = [] }

abbrev make : OrderOp
make = creates no_faults 100 draft note

abbrev expire : OrderOp
expire = moves no_faults 200 31 (times_out_pay 190) note

make_succeeds : (apply_op make empty).0 ≡ ok tt
unfolding apply_op create append_event_tx find lookup_order_no insert
make_succeeds = refl

apply_op-IsLegal_example : All IsLegal (apply_op make empty).1.orders
apply_op-IsLegal_example = apply_op-IsLegal make empty (ground arith) tt

abbrev life : List OrderOp
life = make ∷ expire ∷ releases no_faults 300 31 290 note ∷ []

life_found :
    find_order 31 (run life empty)
    ≡ some (record (inserted_row 100 draft) {
      order_status = closed;
      close_reason = pay_timeout;
      closed_at = some 190;
      stock_released = true;
      updated_at = 290;
    })
unfolding run apply_op create append_event_tx find lookup_order_no insert update exec_with_event
    update_of mark_stock_released
life_found = refl

run-IsSafe_example : IsSafe (record (inserted_row 100 draft) {
  order_status = closed;
  close_reason = pay_timeout;
  closed_at = some 190;
  stock_released = true;
  updated_at = 290;
})
run-IsSafe_example = run-IsSafe life empty 31 (ground arith, (tt, (tt, tt))) tt life_found

run-Continues_example : Continues 31 (inserted_row 100 draft) (run (expire ∷ []) placed)
unfolding find
run-Continues_example = run-Continues 31 (inserted_row 100 draft) (expire ∷ []) placed refl

apply_op-Logged_example : Logged make empty (apply_op make empty).1
apply_op-Logged_example = apply_op-Logged make empty make_succeeds
