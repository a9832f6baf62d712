-- ===== src/Order/Service/History/Jobs.antt =====
-- The jobs of the order service, whatever happens in them, make histories of guarded writes.
use flash_sale.Prelude.{ℕ, suc, Bool, Option, none, some, List, [], ◌∷◌}
use flash_sale.Text.{Text}
use flash_sale.Sql.{DriverErr}
use flash_sale.Order.Model.{Order, EventType}
use flash_sale.Order.Repository.Operations.{Transition}
use flash_sale.Order.Service.World.{Env, Act}
use flash_sale.Order.Service.Jobs.{
  for_each, after_close, close_and_release, pay_timeout_item, review_timeout_item, retry_suffix,
  stock_release_retry_item, refund_completion_item, auto_receive_item, batch, handle_pay_timeout,
  handle_review_timeout, handle_stock_release_retry, handle_refund_completion, handle_auto_receive,
  run_once,
}
use flash_sale.Order.Service.History.{
  IsHistory, bind-IsHistory, decide-IsHistory, read-IsHistory, logged-IsHistory,
}
use flash_sale.Order.Service.History.Handlers.{steps}

pub for_each-IsHistory :
    (envs : ℕ → Env) (body : Env → Order → Act (Unit {0})) (os : List Order)
    → ((env : Env) (o : Order) → IsHistory (body env o))
    → IsHistory (for_each envs body os)
unfolding for_each
for_each-IsHistory envs body [] h = decide-IsHistory _
for_each-IsHistory envs body (o ∷ os) h =
    bind-IsHistory (h (envs 0) o) (λ _. for_each-IsHistory (λ n. envs (suc n)) body os h)

pub after_close-IsHistory :
    (suffix trigger : Text) (env : Env) (o : Order) → IsHistory (after_close suffix trigger env o)
unfolding after_close
after_close-IsHistory suffix trigger env o = search steps depth 30

close_and_release-IsHistory :
    (t : Transition) (event_type : EventType) (suffix trigger : Text) (now : ℕ) (env : Env)
    (o : Order)
    → IsHistory (close_and_release t event_type suffix trigger now env o)
unfolding close_and_release
close_and_release-IsHistory t event_type suffix trigger now env o =
    search (steps, after_close-IsHistory)

pub pay_timeout_item-IsHistory :
    (now : ℕ) (env : Env) (o : Order) → IsHistory (pay_timeout_item now env o)
unfolding pay_timeout_item
pay_timeout_item-IsHistory now env o = close_and_release-IsHistory _ _ _ _ now env o

review_timeout_item-IsHistory :
    (now : ℕ) (env : Env) (o : Order) → IsHistory (review_timeout_item now env o)
unfolding review_timeout_item
review_timeout_item-IsHistory now env o = close_and_release-IsHistory _ _ _ _ now env o

retry_suffix-IsHistory :
    (now : ℕ) (env : Env) (o : Order) (suffix : Option Text)
    → IsHistory (retry_suffix now env o suffix)
retry_suffix-IsHistory now env o none = search steps
retry_suffix-IsHistory now env o (some suffix) = search steps

stock_release_retry_item-IsHistory :
    (now : ℕ) (env : Env) (o : Order) → IsHistory (stock_release_retry_item now env o)
unfolding stock_release_retry_item
stock_release_retry_item-IsHistory now env o = search (steps, retry_suffix-IsHistory)

refund_completion_item-IsHistory :
    (now : ℕ) (env : Env) (o : Order) → IsHistory (refund_completion_item now env o)
unfolding refund_completion_item
refund_completion_item-IsHistory now env o = search steps depth 10

auto_receive_item-IsHistory :
    (now : ℕ) (env : Env) (o : Order) → IsHistory (auto_receive_item now env o)
unfolding auto_receive_item
auto_receive_item-IsHistory now env o = search steps depth 10

module _ (oldest_first : List Order → List Order) where
  batch-IsHistory :
      (fault : Option DriverErr) (due : Order → Bool) (envs : ℕ → Env)
      (body : Env → Order → Act (Unit {0}))
      → ((env : Env) (o : Order) → IsHistory (body env o))
      → IsHistory (batch oldest_first fault due envs body)
  unfolding batch
  batch-IsHistory fault due envs body h =
      logged-IsHistory
        (bind-IsHistory (read-IsHistory _ _) (λ items. for_each-IsHistory envs body items h))

  pub run_once-IsHistory :
      (lists : ℕ → Option DriverErr) (envs : ℕ → ℕ → Env) (now : ℕ)
      → IsHistory (run_once oldest_first lists envs now)
  unfolding run_once handle_pay_timeout handle_review_timeout handle_stock_release_retry
      handle_refund_completion handle_auto_receive
  run_once-IsHistory lists envs now =
      search
        (
          bind-IsHistory, batch-IsHistory, pay_timeout_item-IsHistory,
          review_timeout_item-IsHistory, stock_release_retry_item-IsHistory,
          refund_completion_item-IsHistory, auto_receive_item-IsHistory,
        )
        depth 30
