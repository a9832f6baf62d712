-- ===== src/Seckill/Purchase.antt =====
-- apps/seckill/rpc/internal/logic/purchase_logic.go: `Purchase`, in the phases of the source.
pub mod Errors
pub mod World
pub mod Taking
pub mod Repeat
pub mod Reservation
pub mod Backed
use flash_sale.Prelude.{
  ℕ, zero, suc, ℤ, pos, positive, ◌/◌, Bool, true, false, not, ◌&&◌, ◌||◌, Option, none, some, List,
  [], ◌∷◌, ◌++◌, nat_beq, if◌then◌else◌,
}
use flash_sale.Text.{Text, text, trim_space, is_blank}
use flash_sale.Result.{Result, ok, err}
use flash_sale.Errorx.{
  Code, sys_bad_request, sys_internal, auth_unauthorized, auth_forbidden, seckill_purchase_conflict,
}
use flash_sale.Sql.{Faults}
use flash_sale.Seckill.Model.{
  ActivityItem, OrderLink, SeckillDb, SeckillErr, PurchaseReservation, activity_item_not_found,
  idempotency_conflict, driver,
}
use flash_sale.Seckill.Rules.{find_item, of_activity, second}
use flash_sale.Seckill.Repository.{reserve_purchase, compensate_release_purchase}
use flash_sale.Seckill.Cache.{
  Slot, ReserveCode, Reply, reserve_purchase_script, rollback_reserve_script, cache_decision,
}
use flash_sale.Order.Service.Views.{OrderView}
use flash_sale.Order.Service.Seckill.{build_seckill_order_no}
use flash_sale.Order.Service.Consumer.{PurchaseEvent}
use flash_sale.Order.Service.Jobs.{close_reason_text}
use flash_sale.Seckill.Purchase.Errors.{is_txn_contention, map_repo_err}
use flash_sale.Seckill.Purchase.World.{
  PurchaseForm, PurchaseReceipt, Shop, Redis, answered, unreached, unanswered, OrderCall,
  overloaded, replied, failed, Env, Step, record_traffic, purchase_attempt, purchase_success,
  purchase_fail,
}
use flash_sale.Seckill.Purchase.Taking.{
  Ticket, validate_purchase_input, load_activity_item, reserve_in_cache, rollback_in_cache, undo,
  purchase_event, post_message, reserve_with_retry, more_attempts,
}

abbrev fail_with : {A : Type 0} → Text → Code → Step A
fail_with suffix code shop = (err code, record_traffic purchase_fail suffix shop)

abbrev is_conflict : SeckillErr → Bool
is_conflict idempotency_conflict = true
is_conflict _ = false

-- `reserveDBAndHandleConflict`, once the reservation has answered: whether it was a repeated request.
abbrev after_reserve :
    Env → Ticket → ActivityItem → Bool → Result SeckillErr PurchaseReservation → Step Bool
after_reserve env t i in_cache (ok r) shop = (ok false, shop)
after_reserve env t i in_cache (err e) shop =
    if is_conflict e
    then (ok true, shop)
    else fail_with (text ":reserve_fail") (map_repo_err e)
        (if in_cache then rollback_in_cache env t i shop else shop)

unfoldable pub reserve_db : Env → Ticket → ActivityItem → Bool → Step Bool
unfolding reserve_with_retry rollback_in_cache
reserve_db env t i in_cache shop =
    let r = reserve_with_retry more_attempts 0 env t shop.db in
    after_reserve env t i in_cache r.0 (record shop { db = r.1 })

-- `shouldImmediateCompensateOnOrderCreateError`
unfoldable pub should_compensate : Code → Bool
should_compensate sys_bad_request = true
should_compensate auth_unauthorized = true
should_compensate auth_forbidden = true
should_compensate seckill_purchase_conflict = true
should_compensate _ = false

abbrev order_pending : Step OrderView
order_pending = fail_with (text ":order_pending") seckill_purchase_conflict

abbrev replayed : OrderCall → Step OrderView
replayed (replied (some o)) shop = (ok o, shop)
replayed _ shop = order_pending shop

-- The one replay of the order, on the way of a repeated request and after an uncertain error.
abbrev replay : Env → Bool → Step OrderView
replay env false shop = order_pending shop
replay env true shop = replayed (env.order_call 1) shop

abbrev refused : Env → Ticket → ActivityItem → Bool → Bool → Code → Bool → Bool → Step OrderView
refused env t i in_cache repeated code uncertain true shop =
    let told =
      record_traffic purchase_fail (text ":order_fail")
        (undo env t i in_cache repeated (text ":order_fail") shop) in
    if repeated then replay env uncertain told else (err code, told)
refused env t i in_cache repeated code uncertain false shop =
    replay env (repeated && uncertain) shop

-- `createOrderWithCompensation`, once the order service has answered.
abbrev after_order : Env → Ticket → ActivityItem → Bool → Bool → OrderCall → Step OrderView
after_order env t i in_cache repeated (replied (some o)) shop = (ok o, shop)
after_order env t i in_cache repeated (replied none) shop = (
  err (if repeated then seckill_purchase_conflict else sys_internal),
  undo env t i in_cache repeated (text ":order_empty") shop,
)
after_order env t i in_cache repeated overloaded shop =
    fail_with (text ":order_overloaded") seckill_purchase_conflict
      (undo env t i in_cache repeated (text ":order_overloaded") shop)
after_order env t i in_cache repeated (failed code uncertain) shop =
    refused env t i in_cache repeated code uncertain (should_compensate code) shop

unfoldable pub create_order_with_compensation :
    Env → Ticket → ActivityItem → Bool → Bool → Step OrderView
unfolding undo should_compensate
create_order_with_compensation env t i in_cache repeated shop =
    if env.has_token
    then after_order env t i in_cache repeated (env.order_call 0) shop
    else (err auth_unauthorized, undo env t i in_cache repeated (text ":no_token") shop)

abbrev link_of : Env → Ticket → OrderView → OrderLink
link_of env t o = record {
  id = env.link_id;
  order_id = o.order_id;
  order_no = o.order_no;
  user_id = t.user;
  activity_id = t.activity;
  activity_item_id = t.item;
  quantity = t.quantity;
  order_status = o.order_status;
  payment_status = o.payment_status;
  close_reason = trim_space (close_reason_text o.close_reason);
  last_synced_at = env.now;
  created_at = env.now;
  updated_at = env.now;
}

-- `ON DUPLICATE KEY UPDATE`: the row with the id or the order keeps them, and when it was made.
abbrev refresh_link : OrderLink → OrderLink → OrderLink
refresh_link new old = record new {
  id = old.id;
  order_id = old.order_id;
  created_at = old.created_at;
}

-- `upsertOrderLinkSQL`
unfoldable pub upsert_order_link : OrderLink → List OrderLink → List OrderLink
upsert_order_link new [] = new ∷ []
upsert_order_link new (old ∷ rest) =
    let below = upsert_order_link new rest in
    if nat_beq old.id new.id || nat_beq old.order_id new.order_id
    then refresh_link new old ∷ rest
    else old ∷ below

abbrev write_link : Env → OrderLink → Shop → Shop
write_link env link shop = elim env.link_fault [
  | some e ↦ shop
  | none ↦ record shop { db = record shop.db { links = upsert_order_link link shop.db.links } }
]

-- `persistOrderLink`: queued, or written at once where the queue refuses and that is configured.
unfoldable pub persist_order_link : Env → OrderLink → Shop → Shop
unfolding upsert_order_link
persist_order_link env link shop =
    if env.queue_takes
    then record shop { link_queue = shop.link_queue ++ link ∷ [] }
    else if env.link_fallback
    then write_link env link shop
    else shop

-- `finalizePurchase`
unfoldable pub finalize_purchase : Env → Ticket → OrderView → Step PurchaseReceipt
unfolding persist_order_link
finalize_purchase env t o shop = (
  ok (record { order_id = o.order_id; order_no = o.order_no }),
  record_traffic purchase_success (text ":success")
      (if env.writes_links then persist_order_link env (link_of env t o) shop else shop),
)

abbrev with_order : Env → Ticket → Result Code OrderView → Step PurchaseReceipt
with_order env t (ok o) shop = finalize_purchase env t o shop
with_order env t (err e) shop = (err e, shop)

abbrev order_and_finish :
    Env → Ticket → ActivityItem → Bool → Result Code Bool → Step PurchaseReceipt
order_and_finish env t i in_cache (err e) shop = (err e, shop)
order_and_finish env t i in_cache (ok repeated) shop =
    let r = create_order_with_compensation env t i in_cache repeated shop in
    with_order env t r.0 r.1

-- The phases from the reservation in the database on.
unfoldable pub purchase_in_db : Env → Ticket → ActivityItem → Bool → Step PurchaseReceipt
unfolding reserve_db create_order_with_compensation finalize_purchase
purchase_in_db env t i in_cache shop =
    let r = reserve_db env t i in_cache shop in order_and_finish env t i in_cache r.0 r.1

module _ (sha1_hex : Text → Text) where
  -- `tryAsyncKafkaPath`: the answer, if the broker confirmed the message.
  unfoldable pub try_async :
      Env → Ticket → ActivityItem → Bool → Shop → Option PurchaseReceipt × Shop
  unfolding build_seckill_order_no
  try_async env t i false shop = (none, shop)
  try_async env t i true shop =
      let order_no = build_seckill_order_no sha1_hex t.user t.activity t.item t.key in
      let posted = post_message env (purchase_event order_no t i) shop in
      if env.has_producer && env.broker_confirms
      then (
        some (record { order_id = 0; order_no = order_no }),
        record_traffic purchase_success (text ":async_enqueued") posted,
      )
      else (none, posted)

  abbrev in_db_unless :
      Env → Ticket → ActivityItem → Bool → Option PurchaseReceipt → Step PurchaseReceipt
  in_db_unless env t i in_cache (some r) shop = (ok r, shop)
  in_db_unless env t i in_cache none shop = purchase_in_db env t i in_cache shop

  abbrev after_cache : Env → Ticket → ActivityItem → Bool × Option Code → Step PurchaseReceipt
  after_cache env t i (decided, some e) shop = fail_with (text ":cache_fail") e shop
  after_cache env t i (decided, none) shop =
      let r = try_async env t i decided shop in in_db_unless env t i decided r.0 r.1

  abbrev with_item : Env → Ticket → Result SeckillErr ActivityItem → Step PurchaseReceipt
  with_item env t (err e) shop = (err (map_repo_err e), shop)
  with_item env t (ok i) shop =
      let r = reserve_in_cache env t i shop.slot in
      after_cache env t i r.0 (record shop { slot = r.1 })

  abbrev with_ticket : Env → Result Code Ticket → Step PurchaseReceipt
  with_ticket env (err e) shop = (err e, shop)
  with_ticket env (ok t) shop =
      with_item env t (load_activity_item env t shop.db)
        (record_traffic purchase_attempt (text ":attempt") shop)

  -- `Purchase`
  unfoldable pub purchase : Env → PurchaseForm → Step PurchaseReceipt
  unfolding validate_purchase_input load_activity_item reserve_in_cache try_async purchase_in_db
  purchase env form shop = with_ticket env (validate_purchase_input form) shop
