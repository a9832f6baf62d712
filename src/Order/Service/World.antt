-- ===== src/Order/Service/World.antt =====
-- apps/order/rpc/internal/logic: what a handler acts on, and what it meets on the way.
use flash_sale.Prelude.{ℕ, ℤ, Bool, List, [], ◌∷◌, ◌++◌, Option, if◌then◌else◌}
use flash_sale.Text.{Text}
use flash_sale.Result.{Result, ok, err, map_err, reject_if}
use flash_sale.Sql.{DriverErr, Faults}
use flash_sale.Errorx.{Code, sys_internal}
use flash_sale.Order.Model.{CloseReason, OrderDb, OrderErr}
use flash_sale.Order.Repository.Operations.{OrderOp, apply_op}
use flash_sale.Product.Model.{ProductDb}

-- The `EventType` texts of `SeckillOrderStateEvent`.
pub data StateEventType : Type 0 where
  order_created order_paid_confirmed order_review_approved order_review_rejected : StateEventType
  order_shipped order_received order_closed order_refund_completed : StateEventType

-- `SeckillOrderStateEvent`
pub record StateEvent : Type 0 where
  pub event_type : StateEventType
  pub order_id : ℕ
  pub order_no : Text
  pub user_id : ℕ
  pub product_id : ℕ
  pub activity_id : ℕ
  pub activity_item_id : ℕ
  pub quantity : ℕ
  pub order_status : ℕ
  pub payment_status : ℕ
  pub review_status : ℕ
  pub shipping_status : ℕ
  pub refund_status : ℕ
  pub close_reason : CloseReason
  pub occurred_at_unix_second : ℕ

-- `SeckillStockCompensateEvent`; its reason is always that the order was not created.
pub record StockCompensateEvent : Type 0 where
  pub order_no : Text
  pub user_id : ℤ
  pub activity_id : ℤ
  pub activity_item_id : ℤ
  pub quantity : ℤ
  pub idempotency_key : Text
  pub occurred_at_unix : ℕ

-- What the consumer of purchases publishes: a message set aside with a reason, or a request to give
-- stock back, with its key and its idempotency header.
pub data Post : Type 0 where
  dead_letter : Text → Post
  stock_compensate : Text → Text → StockCompensateEvent → Post

-- The databases of the two services, the state events handed to the producer, and what the consumer
-- of purchases has published.
pub record World : Type 0 where
  pub orders : OrderDb
  pub products : ProductDb
  pub emitted : List StateEvent
  pub posted : List Post

-- A call of the product service: it ran and its answer came back, with what its driver reported and
-- its clock; it never ran; or it ran and its answer was lost. The codes are those that
-- `grpcerr.FromStatus` makes of the transport's errors; an error of the service keeps its code.
pub data Rpc : Type 0 where
  delivered : Faults → ℕ → Rpc
  undelivered : Code → Rpc
  unanswered : Faults → ℕ → Code → Rpc

-- What one call of a handler meets: its reads of the time, the server's clock and the driver's
-- errors at its n-th lookup and n-th transaction, its tokens and its remote calls.
pub record Env : Type 0 where
  pub now : ℕ
  pub later : ℕ
  pub sent_at : ℕ
  pub clock : ℕ → ℕ
  pub lookup : ℕ → Option DriverErr
  pub write : ℕ → Faults
  pub token : ℕ → Bool
  pub rpc : ℕ → Rpc
  pub publishes : Bool

-- A handler keeps what it has done when it answers with an error.
abbrev pub Act : Type 0 → Type 0
Act A = World → Result Code A × World

unfoldable pub continue :
    {A B : Type 0} → Result Code A × World → (A → Act B) → Result Code B × World
continue (ok a, w) f = f a w
continue (err c, w) f = (err c, w)

infixl 5 ◌>>=◌ ◌>>◌
unfoldable pub ◌>>=◌ : {A B : Type 0} → Act A → (A → Act B) → Act B
unfolding continue
◌>>=◌ m f w = continue (m w) f

abbrev pub ◌>>◌ : {A B : Type 0} → Act A → Act B → Act B
m >> n = m >>= λ _. n

-- What is decided without a look at the state.
unfoldable pub decide : {A : Type 0} → Result Code A → Act A
decide r w = (r, w)

abbrev pub answer : {A : Type 0} → A → Act A
answer a = decide (ok a)

-- `if bad { return nil, errorx.New(code, …) }`
abbrev pub reject : Bool → Code → Act (Unit {0})
reject bad c = decide (reject_if bad c)

-- A read of the orders, with the code that its error becomes.
unfoldable pub read : {A : Type 0} → (OrderErr → Code) → (OrderDb → Result OrderErr A) → Act A
read code query w = (map_err code (query w.orders), w)

abbrev pub written :
    (OrderErr → Code)
    → Result OrderErr (Unit {0}) × OrderDb
    → World
    → Result Code (Unit {0}) × World
written code (r, db) w = (map_err code r, record w { orders = db })

-- A call of a writing method of the order repository.
unfoldable pub write : (OrderErr → Code) → OrderOp → Act (Unit {0})
write code op w = written code (apply_op op w.orders) w

-- The same, where the caller looks into the error itself.
abbrev kept :
    Result OrderErr (Unit {0}) × OrderDb → World → Result Code (Result OrderErr (Unit {0})) × World
kept (r, db) w = (ok r, record w { orders = db })

unfoldable pub attempt : OrderOp → Act (Result OrderErr (Unit {0}))
attempt op w = kept (apply_op op w.orders) w

-- The errors of an action are logged.
abbrev settled : {A : Type 0} → Result Code A × World → Result Code (Unit {0}) × World
settled (_, w) = (ok tt, w)

unfoldable pub logged : {A : Type 0} → Act A → Act (Unit {0})
logged m w = settled (m w)

-- What an action does once another has failed, before the caller returns that error.
abbrev pub failed : {A : Type 0} → Result Code A × World → Act (Unit {0}) → Result Code A × World
failed (ok a, w) m = (ok a, w)
failed (err c, w) m = (err c, (m w).1)

unfoldable pub on_error : {A : Type 0} → Act A → Act (Unit {0}) → Act A
on_error m cleanup w = failed (m w) cleanup

abbrev returned : {A : Type 0} → Result Code A × ProductDb → World → Result Code A × World
returned (r, db) w = (r, record w { products = db })

unfoldable pub call_product :
    {A : Type 0} → Rpc → (Faults → ℕ → ProductDb → Result Code A × ProductDb) → Act A
call_product (delivered faults now) handler w = returned (handler faults now w.products) w
call_product (undelivered c) handler w = (err c, w)
call_product (unanswered faults now c) handler w =
    (err c, record w { products = (handler faults now w.products).1 })

-- `IssueProductManagementToken`
abbrev pub issue_token : Bool → Act (Unit {0})
issue_token issued = decide (if issued then ok tt else err sys_internal)

unfoldable pub emit : List StateEvent → Act (Unit {0})
emit events w = (ok tt, record w { emitted = w.emitted ++ events })

-- An error becomes a value that its caller looks into.
abbrev caught : {A : Type 0} → Result Code A × World → Result Code (Result Code A) × World
caught (r, w) = (ok r, w)

unfoldable pub catch : {A : Type 0} → Act A → Act (Result Code A)
catch m w = caught (m w)

-- What becomes of a `Publish`: the message is out; it is not; or it is, and an error was reported.
pub data Publish : Type 0 where
  sent unsent unconfirmed : Publish

-- An error without a code of its own counts as `sys_internal`, which `errorx.FromError` makes of it.
unfoldable pub publish : Publish → Post → Act (Unit {0})
publish sent post w = (ok tt, record w { posted = w.posted ++ post ∷ [] })
publish unsent post w = (err sys_internal, w)
publish unconfirmed post w = (err sys_internal, record w { posted = w.posted ++ post ∷ [] })
