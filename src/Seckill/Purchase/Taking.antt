-- ===== src/Seckill/Purchase/Taking.antt =====
-- apps/seckill/rpc/internal/logic/purchase_logic.go: what a purchase takes, in the cache and in the
-- database, and how it is given back; with the part of purchase_cache.go that it calls.
use flash_sale.Prelude.{
  ℕ, zero, suc, pos, positive, ◌/◌, Bool, true, false, not, ◌&&◌, ◌||◌, Option, none, some, [], ◌∷◌,
  ◌++◌, nat_beq, if◌then◌else◌,
}
use flash_sale.Text.{Text, trim_space, is_blank}
use flash_sale.Result.{Result, ok, err}
use flash_sale.Errorx.{Code, sys_bad_request}
use flash_sale.Seckill.Model.{
  ActivityItem, SeckillDb, SeckillErr, PurchaseReservation, activity_item_not_found, driver,
}
use flash_sale.Seckill.Rules.{find_item, of_activity, second}
use flash_sale.Seckill.Repository.{reserve_purchase, compensate_release_purchase}
use flash_sale.Seckill.Cache.{
  Slot, Reply, reserve_purchase_script, rollback_reserve_script, cache_decision,
}
use flash_sale.Order.Service.Consumer.{PurchaseEvent}
use flash_sale.Seckill.Purchase.Errors.{is_txn_contention}
use flash_sale.Seckill.Purchase.World.{PurchaseForm, Shop, answered, unreached, unanswered, Env}

-- A purchase whose numbers are positive and whose key is trimmed and not blank.
pub record Ticket : Type 0 where
  pub user : ℕ
  pub activity : ℕ
  pub item : ℕ
  pub quantity : ℕ
  pub key : Text

abbrev positive_ticket : Text → Option ℕ → Option ℕ → Option ℕ → Option ℕ → Result Code Ticket
positive_ticket key (some u) (some a) (some i) (some q) =
    if is_blank key
    then err sys_bad_request
    else ok (record { user = u; activity = a; item = i; quantity = q; key = trim_space key })
positive_ticket key _ _ _ _ = err sys_bad_request

-- `validatePurchaseInput`
unfoldable pub validate_purchase_input : PurchaseForm → Result Code Ticket
validate_purchase_input form =
    positive_ticket form.idempotency_key (positive form.user_id) (positive form.activity_id)
      (positive form.activity_item_id) (positive form.quantity)

abbrev found_item : Option ActivityItem → Result SeckillErr ActivityItem
found_item none = err activity_item_not_found
found_item (some i) = ok i

-- `loadActivityItemForPurchase`: the process's short-lived copy, or the row.
unfoldable pub load_activity_item : Env → Ticket → SeckillDb → Result SeckillErr ActivityItem
load_activity_item env t db = elim env.cached_item [
  | some i ↦ ok i
  | none ↦ elim env.item_fault [
    | some e ↦ err (driver e)
    | none ↦ found_item (of_activity t.activity (find_item t.item db))
  ]
]

-- `warmCacheStock`: `SETNX`
abbrev warm_slot : ActivityItem → Slot → Slot
warm_slot i slot = elim slot.stock [
  | none ↦ record slot { stock = some i.available_stock }
  | some n ↦ slot
]

abbrev run_script : Env → Ticket → ActivityItem → Slot → Reply × Slot
run_script env t i slot =
    reserve_purchase_script env.clock (pos t.quantity) i.max_qty_per_order i.user_limit_mode
      i.user_limit_qty i.user_limit_window_sec (env.now / second) slot

abbrev with_script : Env → Ticket → ActivityItem → Slot → (Bool × Option Code) × Slot
with_script env t i slot = elim env.script [
  | answered ↦ (cache_decision ((run_script env t i slot).0).0, (run_script env t i slot).1)
  | unreached ↦ ((false, none), slot)
  | unanswered ↦ ((false, none), (run_script env t i slot).1)
]

-- `reservePurchaseInCache`: whether the cache has decided, and the error.
unfoldable pub reserve_in_cache : Env → Ticket → ActivityItem → Slot → (Bool × Option Code) × Slot
reserve_in_cache env t i slot =
    if not env.has_redis || nat_beq i.id 0 || nat_beq i.activity_id 0
    then ((false, none), slot)
    else elim env.warm [
      | answered ↦ with_script env t i (warm_slot i slot)
      | unreached ↦ ((false, none), slot)
      | unanswered ↦ ((false, none), warm_slot i slot)
    ]

-- `rollbackReserveInCache`
unfoldable pub rollback_in_cache : Env → Ticket → ActivityItem → Shop → Shop
rollback_in_cache env t i shop =
    let undone =
      (rollback_reserve_script env.clock (pos t.quantity) i.user_limit_mode shop.slot).1 in
    if not env.has_redis then shop else elim env.rollback [
      | answered ↦ record shop { slot = undone }
      | unreached ↦ shop
      | unanswered ↦ record shop { slot = undone }
    ]

-- `compensateReleaseWithTimeout`, under the key with a suffix that names the cause.
unfoldable pub compensate_release : Env → Ticket → Text → Shop → Shop
compensate_release env t cause shop = record shop {
  db =
      (compensate_release_purchase env.compensate env.compensate_id (pos t.activity) (pos t.item)
        (pos t.quantity) (t.key ++ cause) shop.db).1;
}

-- What the purchase took goes back: the units of the database, and those of the cache if it had
-- taken some; nothing, on the way of a request that is repeated.
unfoldable pub undo : Env → Ticket → ActivityItem → Bool → Bool → Text → Shop → Shop
unfolding compensate_release rollback_in_cache
undo env t i in_cache true cause shop = shop
undo env t i true false cause shop = rollback_in_cache env t i (compensate_release env t cause shop)
undo env t i false false cause shop = compensate_release env t cause shop

-- The message of `tryAsyncKafkaPath`.
abbrev pub purchase_event : Text → Ticket → ActivityItem → PurchaseEvent
purchase_event order_no t i = record {
  order_no = order_no;
  user_id = pos t.user;
  activity_id = pos t.activity;
  activity_item_id = pos t.item;
  product_id = pos i.product_id;
  quantity = pos t.quantity;
  seckill_price_cent = pos i.seckill_price_cent;
  snapshot_name = i.snapshot_name;
  snapshot_main_image = i.snapshot_main_image;
  sku_code = i.sku_code;
  idempotency_key = t.key;
}

abbrev pub post_message : Env → PurchaseEvent → Shop → Shop
post_message env e shop =
    if env.has_producer && env.broker_keeps
    then record shop { messages = shop.messages ++ e ∷ [] }
    else shop

abbrev pub reserve_once :
    ℕ → Env → Ticket → SeckillDb → Result SeckillErr PurchaseReservation × SeckillDb
reserve_once n env t db =
    reserve_purchase (env.reserve n) env.db_limit_check (env.ledger_id n) (pos t.activity)
      (pos t.item) t.user (pos t.quantity) t.key env.now db

abbrev pub contended : Result SeckillErr PurchaseReservation → Bool
contended (ok r) = false
contended (err e) = is_txn_contention e

-- `reservePurchaseWithRetry`, from its n-th attempt on, with `more` attempts left after it.
unfoldable pub reserve_with_retry :
    ℕ → ℕ → Env → Ticket → SeckillDb → Result SeckillErr PurchaseReservation × SeckillDb
reserve_with_retry zero n env t db = reserve_once n env t db
reserve_with_retry (suc more) n env t db =
    let once = reserve_once n env t db in
    let again = reserve_with_retry more (suc n) env t once.1 in
    if contended once.0
    then elim (env.waits n) [ some e ↦ (err (driver e), once.1) | none ↦ again ]
    else once

-- `reserveRetryMaxAttempts`, less the first.
abbrev pub more_attempts : ℕ
more_attempts = 2
