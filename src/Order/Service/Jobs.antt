-- ===== src/Order/Service/Jobs.antt =====
-- apps/order/rpc/internal/logic/timeout_job_logic.go: the jobs that a timer runs. Each order of a
-- batch has what the driver, the clock and the network do to it; an error is logged.
use flash_sale.Prelude.{
  ℕ, suc, ◌+◌, Bool, Option, none, some, List, [], ◌∷◌, ◌++◌, ◌==◌, if◌then◌else◌,
}
use flash_sale.Text.{Text, text}
use flash_sale.Sql.{DriverErr}
use flash_sale.Order.Model.{
  CloseReason, no_reason, completed, auto_completed, user_cancel, pay_timeout, audit_reject,
  audit_timeout, seckill, order_source_eq, Order, OrderEvent, EventType,
  order_closed_by_pay_timeout, order_review_timeout_rejected, order_auto_received, system,
}
use flash_sale.Order.Repository.Lists.{
  list_by_condition, pay_timed_out, review_timed_out, stock_release_pending, refund_due,
  auto_receive_due,
}
use flash_sale.Order.Repository.Operations.{
  Transition, times_out_pay, times_out_review, refunds, receives,
}
use flash_sale.Order.Service.World.{
  Env, Act, StateEventType, order_closed, order_received, ◌>>=◌, ◌>>◌, answer, read, logged,
}
use flash_sale.Order.Service.Steps.{
  always_db, reload, move, release_stock_for, mark_order_stock_released,
  release_suffix_from_close_reason, release_unless_seckill, emit_state,
}
use flash_sale.Order.Service.Buyer.{virtual_refund_dur}

-- `payTimeoutDur` and `autoReceiveDur` in nanoseconds, and `backgroundBatchSize`
abbrev pub pay_timeout_dur : ℕ
pay_timeout_dur = 900000000000

abbrev pub auto_receive_dur : ℕ
auto_receive_dur = 604800000000000

abbrev pub background_batch_size : ℕ
background_batch_size = 100

-- The texts of the constants `CloseReason…`.
abbrev pub close_reason_text : CloseReason → Text
close_reason_text no_reason = []
close_reason_text completed = text "completed"
close_reason_text auto_completed = text "auto_completed"
close_reason_text user_cancel = text "user_cancel"
close_reason_text pay_timeout = text "pay_timeout"
close_reason_text audit_reject = text "audit_reject"
close_reason_text audit_timeout = text "audit_timeout"

abbrev pub by_system : Order → EventType → ℕ → OrderEvent
by_system o event_type now = record {
  order_id = o.id;
  event_type = event_type;
  operator_type = system;
  operator_id = 0;
  payload = [];
  created_at = some now;
}

-- The body of a job's loop, for every order of the batch.
unfoldable pub for_each : (ℕ → Env) → (Env → Order → Act (Unit {0})) → List Order → Act (Unit {0})
for_each envs body [] = answer tt
for_each envs body (o ∷ os) = body (envs 0) o >> for_each (λ n. envs (suc n)) body os

-- What follows the closing of an order: its stock is given back, and it is reported.
unfoldable pub after_close : Text → Text → Env → Order → Act (Unit {0})
after_close suffix trigger env o = do
  remain ← release_unless_seckill env o suffix
  logged (mark_order_stock_released env 1 o.id remain trigger env.later)
  updated ← reload env o.id
  emit_state env order_closed updated

unfoldable pub close_and_release :
    Transition → EventType → Text → Text → ℕ → Env → Order → Act (Unit {0})
unfolding after_close
close_and_release t event_type suffix trigger now env o =
    logged (do move env o.id t (by_system o event_type now); after_close suffix trigger env o)

unfoldable pub pay_timeout_item : ℕ → Env → Order → Act (Unit {0})
unfolding close_and_release
pay_timeout_item now env o =
    close_and_release (times_out_pay now) order_closed_by_pay_timeout (text "release:pay_timeout")
      (text "pay_timeout") now env o

unfoldable pub review_timeout_item : ℕ → Env → Order → Act (Unit {0})
unfolding close_and_release
review_timeout_item now env o =
    close_and_release (times_out_review now (now + virtual_refund_dur))
      order_review_timeout_rejected (text "release:review_timeout") (text "review_timeout") now env
      o

abbrev pub retry_suffix : ℕ → Env → Order → Option Text → Act (Unit {0})
retry_suffix now env o none = answer tt
retry_suffix now env o (some suffix) = do
  remain ← release_stock_for env 0 o.order_no o.product_id o.quantity suffix
  mark_order_stock_released env 0 o.id remain (text "retry:" ++ close_reason_text o.close_reason)
      now

unfoldable pub stock_release_retry_item : ℕ → Env → Order → Act (Unit {0})
stock_release_retry_item now env o = logged (
    if o.order_source == seckill
    then mark_order_stock_released env 0 o.id 0 (text "retry:seckill") now
    else retry_suffix now env o (release_suffix_from_close_reason o.close_reason))

unfoldable pub refund_completion_item : ℕ → Env → Order → Act (Unit {0})
refund_completion_item now env o = logged (do
  move env o.id (refunds now) (by_system o EventType.order_refund_completed now)
  updated ← reload env o.id
  emit_state env StateEventType.order_refund_completed updated)

unfoldable pub auto_receive_item : ℕ → Env → Order → Act (Unit {0})
auto_receive_item now env o = logged (do
  move env o.id (receives now) (by_system o order_auto_received now)
  updated ← reload env o.id
  emit_state env order_received updated
  emit_state env order_closed updated)

module _ (oldest_first : List Order → List Order) where
  -- A list of due orders, and the loop over it.
  unfoldable pub batch :
      Option DriverErr
      → (Order → Bool)
      → (ℕ → Env)
      → (Env → Order → Act (Unit {0}))
      → Act (Unit {0})
  unfolding for_each
  batch fault due envs body = logged (do
    items ← read always_db (list_by_condition oldest_first fault due background_batch_size)
    for_each envs body items)

  -- `handlePayTimeout`, `handleReviewTimeout`, `handleStockReleaseRetry`,
  -- `handleRefundCompletion`, `handleAutoReceive`
  unfoldable pub handle_pay_timeout : Option DriverErr → (ℕ → Env) → ℕ → Act (Unit {0})
  unfolding batch pay_timeout_item
  handle_pay_timeout fault envs now =
      batch fault (pay_timed_out now pay_timeout_dur) envs (pay_timeout_item now)

  unfoldable pub handle_review_timeout : Option DriverErr → (ℕ → Env) → ℕ → Act (Unit {0})
  unfolding batch review_timeout_item
  handle_review_timeout fault envs now =
      batch fault (review_timed_out now) envs (review_timeout_item now)

  unfoldable pub handle_stock_release_retry : Option DriverErr → (ℕ → Env) → ℕ → Act (Unit {0})
  unfolding batch stock_release_retry_item
  handle_stock_release_retry fault envs now =
      batch fault stock_release_pending envs (stock_release_retry_item now)

  unfoldable pub handle_refund_completion : Option DriverErr → (ℕ → Env) → ℕ → Act (Unit {0})
  unfolding batch refund_completion_item
  handle_refund_completion fault envs now =
      batch fault (refund_due now) envs (refund_completion_item now)

  unfoldable pub handle_auto_receive : Option DriverErr → (ℕ → Env) → ℕ → Act (Unit {0})
  unfolding batch auto_receive_item
  handle_auto_receive fault envs now =
      batch fault (auto_receive_due now auto_receive_dur) envs (auto_receive_item now)

  -- `RunOnce`: the n-th job has the n-th fault of its list and the n-th row of environments.
  unfoldable pub run_once : (ℕ → Option DriverErr) → (ℕ → ℕ → Env) → ℕ → Act (Unit {0})
  unfolding handle_pay_timeout handle_review_timeout handle_stock_release_retry
      handle_refund_completion handle_auto_receive
  run_once lists envs now = do
    handle_pay_timeout (lists 0) (envs 0) now
    handle_review_timeout (lists 1) (envs 1) now
    handle_stock_release_retry (lists 2) (envs 2) now
    handle_refund_completion (lists 3) (envs 3) now
    handle_auto_receive (lists 4) (envs 4) now
