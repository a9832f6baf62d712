-- ===== src/Witness/Service.antt =====
-- Calls of the order service, one after another.
use flash_sale.Prelude.{
  length, select, ◌≤◌, ◌⊎◌, pos, List, [], ◌∷◌, ◌≡◌, refl, none, some, arith, true,
}
use flash_sale.Text.{Text}
use flash_sale.Result.{ok, err}
use flash_sale.Sql.{no_faults, find, update}
use flash_sale.Errorx.{Code}
use flash_sale.Order.Model.{Order, closed, user_cancel}
use flash_sale.Order.Repository.{
  find_order, inserted_row, exec_with_event, append_event_tx, find_by_id, mark_stock_released,
}
use flash_sale.Order.Repository.Operations.{apply_op, update_of}
use flash_sale.Order.Updates.{cancel_unpaid}
use flash_sale.Order.Repository.Phases.{IsSafe}
use flash_sale.Order.Repository.Finality.{Continues}
use flash_sale.Product.Repository.{release_stock}
use flash_sale.Product.Service.{release_stock_for_order}
use flash_sale.Order.Service.Views.{to_order_view}
use flash_sale.Order.Service.World.{
  World, Env, delivered, undelivered, continue, ◌>>=◌, decide, read, write, logged, call_product,
  emit,
}
use flash_sale.Order.Service.Steps.{
  both_ids, release_stock_for, mark_order_stock_released, release_unless_seckill, emit_state,
}
use flash_sale.Order.Service.Buyer.{cancellation, cancel_order}
use flash_sale.Order.Service.Steps.{release_suffix_from_close_reason}
use flash_sale.Order.Repository.Lists.{
  list_by_condition, pay_timed_out, review_timed_out, stock_release_pending, refund_due,
  auto_receive_due,
}
use flash_sale.Order.Service.Jobs.{
  run_once, handle_pay_timeout, handle_review_timeout, handle_stock_release_retry,
  handle_refund_completion, handle_auto_receive, batch, for_each, pay_timeout_item,
  review_timeout_item, stock_release_retry_item, refund_completion_item, auto_receive_item,
  close_and_release, after_close, pay_timeout_dur,
}
use flash_sale.Order.Service.Timeliness.{Reorders, Settled, handle_pay_timeout_settles}
use flash_sale.Order.Service.Cancellation.{Cancelled, cancel_order-Cancelled}
use flash_sale.Product.Repository.{
  stock_tx, lock_idempotency_record_tx, mark_idempotency_done_tx, release_stock_tx, find_record,
  mark_done,
}
use flash_sale.Text.{trim_space, is_blank}
use flash_sale.Order.Service.Deeds.{Deed, cancels}
use flash_sale.Order.Service.Deeds.Rows.{Row, Excused}
use flash_sale.Order.Service.Deeds.Handlers.{handle, handle-Deed}
use flash_sale.Order.Service.History.Calls.{
  Call, runs_jobs, serve, serve_all, serve_all-IsSafe, serve_all-Continues,
}
use flash_sale.Witness.Orders.{placed, draft}
use flash_sale.Witness.Stock.{shop}

abbrev pub env : Env
env = record {
  now = 1000;
  later = 1001;
  sent_at = 1002;
  clock = λ n. 1003;
  lookup = λ n. none;
  write = λ n. no_faults;
  token = λ n. true;
  rpc = λ n. undelivered Code.sys_internal;
  publishes = true;
}

-- The product service answers, and loses nothing.
abbrev pub reached : Env
reached = record env { rpc = λ n. delivered no_faults 1004 }

abbrev start : World
start = record { orders = placed; products = shop; emitted = []; posted = [] }

-- Out of reach, the order is closed and keeps its stock.
unreached : (cancel_order env (pos 5) (pos 31) [] start).0 ≡ err Code.sys_internal
unfolding cancel_order continue ◌>>=◌ decide read write call_product both_ids find_by_id find
    cancellation apply_op exec_with_event append_event_tx update update_of cancel_unpaid
    release_unless_seckill release_stock_for
unreached = refl

abbrev gone : Order
gone = record (inserted_row 100 draft) {
  order_status = closed;
  close_reason = user_cancel;
  closed_at = some 1000;
  stock_released = true;
  updated_at = 1001;
}

order_cancelled : (cancel_order reached (pos 5) (pos 31) [] start).0 ≡ ok (to_order_view gone)
unfolding cancel_order continue ◌>>=◌ decide read write call_product both_ids find_by_id find
    cancellation apply_op exec_with_event append_event_tx update update_of cancel_unpaid
    release_unless_seckill release_stock_for release_stock_for_order release_stock is_blank
    trim_space stock_tx lock_idempotency_record_tx mark_idempotency_done_tx release_stock_tx
    find_record mark_done mark_order_stock_released mark_stock_released emit_state emit
    to_order_view
order_cancelled = refl

cancel_order-Cancelled_example :
    Cancelled 31 (to_order_view gone) (cancel_order reached (pos 5) (pos 31) [] start).1
cancel_order-Cancelled_example =
    cancel_order-Cancelled reached (pos 5) (pos 31) [] start refl order_cancelled

-- A buyer cancels out of reach, tries again, and the jobs make up for it.
abbrev afternoon : List Call
afternoon =
    Call.cancels env (pos 5) (pos 31) []
    ∷ Call.cancels env (pos 5) (pos 31) []
    ∷ runs_jobs (λ n. none) (λ n k. reached) 2000
    ∷ []

abbrev pub plain_sha1 : Text → Text
plain_sha1 s = s

abbrev in_order : List Order → List Order
in_order os = os

handle-Deed_example : Row 31 (handle (cancels reached (pos 5) (pos 31) []) start).1.orders (λ o.
    ((o ≡ inserted_row 100 draft)
      × Excused (pos 31) 31 (handle (cancels reached (pos 5) (pos 31) []) start).0)
    ⊎ Deed (cancels reached (pos 5) (pos 31) []) 31 (inserted_row 100 draft) o)
unfolding find
handle-Deed_example =
    handle-Deed (cancels reached (pos 5) (pos 31) []) start 31 (inserted_row 100 draft) refl

-- What the jobs make of the order that was closed out of reach.
abbrev made_up : Order
made_up = record gone { updated_at = 2000 }

afternoon_ends : find_order 31 (serve_all plain_sha1 in_order afternoon start).orders ≡ some made_up
unfolding serve_all serve cancel_order continue ◌>>=◌ decide read write call_product both_ids
    find_by_id find cancellation apply_op exec_with_event append_event_tx update update_of
    cancel_unpaid release_unless_seckill release_stock_for release_stock_for_order release_stock
    is_blank trim_space stock_tx lock_idempotency_record_tx mark_idempotency_done_tx
    release_stock_tx find_record mark_done mark_order_stock_released mark_stock_released emit_state
    emit to_order_view run_once handle_pay_timeout handle_review_timeout handle_stock_release_retry
    handle_refund_completion handle_auto_receive batch for_each pay_timeout_item review_timeout_item
    stock_release_retry_item refund_completion_item auto_receive_item close_and_release after_close
    logged list_by_condition pay_timed_out review_timed_out stock_release_pending refund_due
    auto_receive_due release_suffix_from_close_reason
afternoon_ends = refl

serve_all-IsSafe_example : IsSafe made_up
serve_all-IsSafe_example =
    serve_all-IsSafe plain_sha1 in_order afternoon start 31 (ground arith, tt) afternoon_ends

serve_all-Continues_example :
    Continues 31 (inserted_row 100 draft) (serve_all plain_sha1 in_order afternoon start).orders
unfolding find
serve_all-Continues_example =
    serve_all-Continues plain_sha1 in_order afternoon start 31 (inserted_row 100 draft) refl

same_rows : Reorders in_order
same_rows = record { keeps = λ o os m. m; size = λ os. refl }

order_due : pay_timed_out 900000000100 pay_timeout_dur (inserted_row 100 draft) ≡ true
unfolding pay_timed_out
order_due = refl

few_due : length (select (pay_timed_out 900000000100 pay_timeout_dur) placed.orders) ≤ 100
unfolding pay_timed_out
few_due = ground arith

handle_pay_timeout_settles_example :
    Settled 31 (handle_pay_timeout in_order none (λ n. env) 900000000100 start).1
unfolding find
handle_pay_timeout_settles_example =
    handle_pay_timeout_settles in_order (λ n. env) 900000000100 start 31 (inserted_row 100 draft)
      same_rows (λ n. refl) (ground arith, tt) few_due refl order_due
