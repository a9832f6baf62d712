-- ===== src/Seckill/Purchase/World.antt =====
-- apps/seckill/rpc/internal/logic/purchase_logic.go: what one purchase reads, writes and meets. The
-- service is initialised: its context, repository and order client are there.
use flash_sale.Prelude.{ℕ, ℤ, ◌∷◌, Bool, Option, List}
use flash_sale.Text.{Text}
use flash_sale.Result.{Result}
use flash_sale.Errorx.{Code}
use flash_sale.Sql.{DriverErr, Faults}
use flash_sale.Seckill.Model.{ActivityItem, OrderLink, SeckillDb}
use flash_sale.Seckill.Cache.{Slot}
use flash_sale.Order.Service.Views.{OrderView}
use flash_sale.Order.Service.Consumer.{PurchaseEvent}

-- `PurchaseReq`
pub record PurchaseForm : Type 0 where
  pub user_id : ℤ
  pub activity_id : ℤ
  pub activity_item_id : ℤ
  pub quantity : ℤ
  pub idempotency_key : Text

-- `PurchaseResp`, less the ids of the request.
pub record PurchaseReceipt : Type 0 where
  pub order_id : ℕ
  pub order_no : Text

-- The `event_type` and the suffix of the key of a traffic event that a purchase hands over; whether
-- the statistics keep it is not the purchase's concern.
pub data TrafficKind : Type 0 where
  purchase_attempt purchase_success purchase_fail : TrafficKind

abbrev pub Traffic : Type 0
Traffic = TrafficKind × Text

-- The values of the request in the cache, the database, the purchase messages that the broker has,
-- the order links that wait to be written, and the traffic events.
pub record Shop : Type 0 where
  pub slot : Slot
  pub db : SeckillDb
  pub messages : List PurchaseEvent
  pub link_queue : List OrderLink
  pub traffic : List Traffic

-- A command that Redis answered, did not get, or ran without its reply coming back.
pub data Redis : Type 0 where
  answered unreached unanswered : Redis

-- One `CreateOrderFromSeckill`: no slot was free in time, the order service's reply, or an error:
-- its code by `grpcerr.FromStatus`, and whether its status is `DeadlineExceeded` or `Canceled`.
pub data OrderCall : Type 0 where
  overloaded : OrderCall
  replied : Option OrderView → OrderCall
  failed : Code → Bool → OrderCall

-- What one purchase meets. `cached_item` is the copy that the process keeps of the item for a short
-- time, if it has one; storing one is not modelled. The attempts at the reservation are counted from 0, and so are the calls
-- of the order service; `waits` is the context's error in the wait after an attempt.
pub record Env : Type 0 where
  pub now : ℕ
  pub clock : ℕ
  pub cached_item : Option ActivityItem
  pub item_fault : Option DriverErr
  pub has_redis : Bool
  pub warm : Redis
  pub script : Redis
  pub rollback : Redis
  pub has_producer : Bool
  pub broker_confirms : Bool
  pub broker_keeps : Bool
  pub db_limit_check : Bool
  pub reserve : ℕ → Faults
  pub ledger_id : ℕ → ℕ
  pub waits : ℕ → Option DriverErr
  pub has_token : Bool
  pub order_call : ℕ → OrderCall
  pub compensate : Faults
  pub compensate_id : ℕ
  pub writes_links : Bool
  pub link_id : ℕ
  pub queue_takes : Bool
  pub link_fallback : Bool
  pub link_fault : Option DriverErr

-- The later time at which the link and the traffic events are stamped is `now` too: no rule reads it.
abbrev pub Step : Type 0 → Type 0
Step A = Shop → Result Code A × Shop

abbrev pub record_traffic : TrafficKind → Text → Shop → Shop
record_traffic kind suffix shop = record shop { traffic = (kind, suffix) ∷ shop.traffic }
