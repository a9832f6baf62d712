-- ===== src/Order/Service/History/Seckill.antt =====
-- The orders of seckill purchases, and their consumer, make histories of guarded writes.
use flash_sale.Prelude.{ℕ, zero, suc, Bool, Option, none, some, refl}
use flash_sale.Text.{Text}
use flash_sale.Result.{Result, ok, err}
use flash_sale.Errorx.{Code}
use flash_sale.Order.Model.{Order, OrderErr}
use flash_sale.Order.Repository.Phases.{IsNew}
use flash_sale.Order.Service.Views.{OrderView}
use flash_sale.Order.Service.World.{Env, Act}
use flash_sale.Order.Service.Seckill.{
  SeckillForm, Purchase, check_seckill, order_of, find_idempotent_seckill_order, find_again,
  found_or, insert_total, idempotent_replay_retry_count, find_idempotent_seckill_order_with_retry,
  insert_purchase, existing_or, after_insert, create_order_from_seckill,
}
use flash_sale.Order.Service.Consumer.{
  PurchaseEvent, Attempt, Broker, publish_dlq, publish_stock_compensate, give_up, finish, Ending,
  created, refused, exhausted, interrupted, judge, try_create, consume_event, consume_message,
}
use flash_sale.Order.Service.History.{
  IsHistory, bind-IsHistory, decide-IsHistory, read-IsHistory, attempt-IsHistory, catch-IsHistory,
  if-IsHistory, publish-IsHistory,
}
use flash_sale.Order.Service.History.Handlers.{steps}

check_seckill-IsHistory : (form : SeckillForm) → IsHistory (check_seckill form)
unfolding check_seckill
check_seckill-IsHistory form = search steps depth 30

find-IsHistory :
    (env : Env) (n : ℕ) (order_no : Text) (p : Purchase)
    → IsHistory (find_idempotent_seckill_order env n order_no p)
unfolding find_idempotent_seckill_order
find-IsHistory env n order_no p = read-IsHistory _ _

found_or-IsHistory :
    (found : Option Order) (again : Act (Option Order))
    → IsHistory again
    → IsHistory (found_or found again)
found_or-IsHistory none again h = h
found_or-IsHistory (some o) again h = decide-IsHistory _

find_again-IsHistory :
    (canceled : ℕ → Bool) (env : Env) (retries n : ℕ) (order_no : Text) (p : Purchase)
    → IsHistory (find_again canceled env retries n order_no p)
unfolding find_again
find_again-IsHistory canceled env zero n order_no p = decide-IsHistory _
find_again-IsHistory canceled env (suc retries) n order_no p =
    bind-IsHistory (decide-IsHistory _) (λ _.
      bind-IsHistory (find-IsHistory env n order_no p) (λ found.
        found_or-IsHistory found _ (find_again-IsHistory canceled env retries (suc n) order_no p)))

find_with_retry-IsHistory :
    (canceled : ℕ → Bool) (env : Env) (order_no : Text) (p : Purchase)
    → IsHistory (find_idempotent_seckill_order_with_retry canceled env order_no p)
unfolding find_idempotent_seckill_order_with_retry
find_with_retry-IsHistory canceled env order_no p =
    bind-IsHistory (find-IsHistory env 0 order_no p) (λ found.
      found_or-IsHistory found _
        (find_again-IsHistory canceled env idempotent_replay_retry_count 1 order_no p))

order_of-IsNew :
    (id : ℕ) (order_no : Text) (p : Purchase) (total now : ℕ)
    → IsNew (order_of id order_no p total now)
order_of-IsNew id order_no p total now = record {
  order_status = refl;
  payment_status = refl;
  review_status = refl;
  shipping_status = refl;
  refund_status = refl;
}

insert_total-IsHistory :
    (env : Env) (id : ℕ) (order_no : Text) (p : Purchase) (total : Option ℕ)
    → IsHistory (insert_total env id order_no p total)
insert_total-IsHistory env id order_no p none = decide-IsHistory _
insert_total-IsHistory env id order_no p (some total) =
    bind-IsHistory (attempt-IsHistory _ (order_of-IsNew id order_no p total env.now))
      (λ _. decide-IsHistory _)

insert_purchase-IsHistory :
    (env : Env) (id : ℕ) (order_no : Text) (p : Purchase)
    → IsHistory (insert_purchase env id order_no p)
unfolding insert_purchase
insert_purchase-IsHistory env id order_no p = insert_total-IsHistory env id order_no p _

existing_or-IsHistory : (c : Code) (o : Option Order) → IsHistory (existing_or c o)
existing_or-IsHistory c none = decide-IsHistory _
existing_or-IsHistory c (some o) = decide-IsHistory _

after_insert-IsHistory :
    (canceled : ℕ → Bool) (env : Env) (order_no : Text) (p : Purchase) (r : Result OrderErr Order)
    → IsHistory (after_insert canceled env order_no p r)
unfolding after_insert
after_insert-IsHistory canceled env order_no p (ok o) = search steps
after_insert-IsHistory canceled env order_no p (err e) =
    if-IsHistory _
      (bind-IsHistory (find_with_retry-IsHistory canceled env order_no p) (existing_or-IsHistory _))
      (bind-IsHistory (find-IsHistory env 0 order_no p) (existing_or-IsHistory _))

judge-IsHistory :
    (r : Result Code OrderView) (stop : Bool) (again : Act Ending)
    → IsHistory again
    → IsHistory (judge r stop again)
unfolding judge
judge-IsHistory (ok v) stop again h = decide-IsHistory _
judge-IsHistory (err c) stop again h = search (if-IsHistory, decide-IsHistory)

give_up-IsHistory :
    (broker : Broker) (reason : Text) (e : PurchaseEvent) → IsHistory (give_up broker reason e)
unfolding give_up publish_dlq publish_stock_compensate
give_up-IsHistory broker reason e = search (steps, publish-IsHistory)

finish-IsHistory :
    (broker : Broker) (e : PurchaseEvent) (ending : Ending) → IsHistory (finish broker e ending)
unfolding finish
finish-IsHistory broker e created = decide-IsHistory _
finish-IsHistory broker e refused = give_up-IsHistory broker _ e
finish-IsHistory broker e exhausted = give_up-IsHistory broker _ e
finish-IsHistory broker e interrupted = decide-IsHistory _

module _ (sha1_hex : Text → Text) where
  pub create_order_from_seckill-IsHistory :
      (busy : Bool) (canceled : ℕ → Bool) (env : Env) (id : ℕ) (form : SeckillForm)
      → IsHistory (create_order_from_seckill sha1_hex busy canceled env id form)
  unfolding create_order_from_seckill
  create_order_from_seckill-IsHistory busy canceled env id form =
      bind-IsHistory (check_seckill-IsHistory form) (λ p. bind-IsHistory (decide-IsHistory _) (λ _.
        bind-IsHistory (insert_purchase-IsHistory env id _ p)
          (λ r. after_insert-IsHistory canceled env _ p r)))

  try_create-IsHistory :
      (attempts : ℕ → Attempt) (retries : ℕ) (e : PurchaseEvent)
      → IsHistory (try_create sha1_hex attempts retries e)
  unfolding try_create
  try_create-IsHistory attempts zero e =
      bind-IsHistory (catch-IsHistory (create_order_from_seckill-IsHistory _ _ _ _ _))
        (λ r. judge-IsHistory r _ _ (decide-IsHistory _))
  try_create-IsHistory attempts (suc retries) e =
      bind-IsHistory (catch-IsHistory (create_order_from_seckill-IsHistory _ _ _ _ _))
        (λ r. judge-IsHistory r _ _ (try_create-IsHistory (λ n. attempts (suc n)) retries e))

  pub consume_message-IsHistory :
      (attempts : ℕ → Attempt) (broker : Broker) (message : Option PurchaseEvent)
      → IsHistory (consume_message sha1_hex attempts broker message)
  unfolding consume_message consume_event publish_dlq
  consume_message-IsHistory attempts broker none = search (steps, publish-IsHistory)
  consume_message-IsHistory attempts broker (some e) =
      search
        (if-IsHistory, bind-IsHistory, try_create-IsHistory, finish-IsHistory, give_up-IsHistory)
