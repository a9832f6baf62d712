-- ===== src/Seckill/Purchase/Repeat.antt =====
-- A purchase under a key that the ledger has: a repeated request.
use flash_sale.Prelude.{
  ℕ, Bool, true, false, Option, none, some, ◌≡◌, refl, ap, ◌∙◌, arith, Bool-cases, inl, inr,
}
use flash_sale.Text.{Text, trim_space}
use flash_sale.Result.{Result, ok, err}
use flash_sale.Errorx.{Code}
use flash_sale.Sql.{no_faults}
use flash_sale.Seckill.Model.{
  ActivityItem, SeckillDb, SeckillErr, PurchaseReservation, idempotency_conflict, invalid_params,
}
use flash_sale.Seckill.Repository.{reserve_purchase, run_reserve}
use flash_sale.Seckill.Repository.Effects.{reserve_key}
use flash_sale.Seckill.Repository.Retry.{key_in, reserve_again}
use flash_sale.Order.Service.Views.{OrderView}
use flash_sale.Seckill.Purchase.Errors.{is_txn_contention}
use flash_sale.Seckill.Purchase.World.{
  PurchaseForm, PurchaseReceipt, Shop, OrderCall, overloaded, replied, failed, Env,
}
use flash_sale.Seckill.Purchase.Taking.{
  Ticket, validate_purchase_input, load_activity_item, reserve_in_cache, rollback_in_cache, undo,
  reserve_once, reserve_with_retry,
}
use flash_sale.Seckill.Purchase.{
  reserve_db, refused, replayed, replay, after_order, create_order_with_compensation,
  persist_order_link, finalize_purchase, with_order, order_and_finish, purchase_in_db, try_async,
  in_db_unless, after_cache, with_item, with_ticket, purchase,
}

-- The stock and the ledger of the database are what they were.
abbrev pub SameStock : SeckillDb → SeckillDb → Type 0
SameStock db db' = (db'.items ≡ db.items) × (db'.ledger ≡ db.ledger)

pub SameStock-after : (db db₁ db₂ : SeckillDb) → db₁ ≡ db → SameStock db₁ db₂ → SameStock db db₂
SameStock-after db db₁ db₂ e (i, l) = (i ∙ ap (λ d. d.items) e, l ∙ ap (λ d. d.ledger) e)

-- The reservation of a repeated request: it is told so, or its numbers are refused.
data Repeated (db : SeckillDb) (r : Result SeckillErr PurchaseReservation × SeckillDb)
    : Type 0 where
  in_conflict : r ≡ (err idempotency_conflict, db) → Repeated db r
  not_positive : r ≡ (err invalid_params, db) → Repeated db r

run_reserve-Repeated :
    (check : Bool) (l u : ℕ) (key : Text) (now : ℕ) (db : SeckillDb) (p : Option (ℕ × ℕ × ℕ))
    → key_in (reserve_key key) db.ledger ≡ true
    → Repeated db (run_reserve no_faults check l u key now db p)
run_reserve-Repeated check l u key now db none h = not_positive refl
run_reserve-Repeated check l u key now db (some (a, i, q)) h =
    in_conflict (reserve_again check l u key now a i q db h)

module _ (env : Env) (t : Ticket) (clear : env.reserve 0 ≡ no_faults) where
  reserve_once-Repeated :
      (db : SeckillDb)
      → key_in (reserve_key t.key) db.ledger ≡ true
      → Repeated db (reserve_once 0 env t db)
  unfolding reserve_purchase
  reserve_once-Repeated db h =
      rw clear
        (run_reserve-Repeated env.db_limit_check (env.ledger_id 0) t.user t.key env.now db _ h)

  reserve_with_retry-Repeated :
      (db : SeckillDb)
      → key_in (reserve_key t.key) db.ledger ≡ true
      → Repeated db (reserve_with_retry 2 0 env t db)
  unfolding reserve_with_retry is_txn_contention
  reserve_with_retry-Repeated db h = elim (reserve_once-Repeated db h) [
    | in_conflict e ↦ in_conflict (rw e refl)
    | not_positive e ↦ not_positive (rw e refl)
  ]

module _ (env : Env) (t : Ticket) where
  replayed-db : (c : OrderCall) (shop : Shop) → (replayed c shop).1.db ≡ shop.db
  replayed-db overloaded shop = refl
  replayed-db (replied none) shop = refl
  replayed-db (replied (some o)) shop = refl
  replayed-db (failed code uncertain) shop = refl

  pub replay-db : (uncertain : Bool) (shop : Shop) → (replay env uncertain shop).1.db ≡ shop.db
  replay-db false shop = refl
  replay-db true shop = replayed-db (env.order_call 1) shop

  pub refused-db :
      (i : ActivityItem) (in_cache : Bool) (code : Code) (uncertain compensated : Bool)
      (shop : Shop)
      → (refused env t i in_cache true code uncertain compensated shop).1.db ≡ shop.db
  unfolding undo
  refused-db i in_cache code uncertain true shop = replay-db uncertain _
  refused-db i in_cache code uncertain false shop = replay-db uncertain _

  after_order-db :
      (i : ActivityItem) (in_cache : Bool) (c : OrderCall) (shop : Shop)
      → (after_order env t i in_cache true c shop).1.db ≡ shop.db
  unfolding undo
  after_order-db i in_cache overloaded shop = refl
  after_order-db i in_cache (replied none) shop = refl
  after_order-db i in_cache (replied (some o)) shop = refl
  after_order-db i in_cache (failed code uncertain) shop =
      refused-db i in_cache code uncertain _ shop

  -- On the way of a repeated request the order service's answers leave the database alone.
  create_order-db :
      (i : ActivityItem) (in_cache : Bool) (shop : Shop)
      → (create_order_with_compensation env t i in_cache true shop).1.db ≡ shop.db
  unfolding create_order_with_compensation undo
  create_order-db i in_cache shop = elim (Bool-cases env.has_token) [
    | inl e ↦ rw e (after_order-db i in_cache (env.order_call 0) shop)
    | inr e ↦ rw e refl
  ]

  pub finalize-SameStock :
      (o : OrderView) (shop : Shop) → SameStock shop.db (finalize_purchase env t o shop).1.db
  unfolding finalize_purchase persist_order_link
  finalize-SameStock o shop = (ground (arith), ground (arith))

  with_order-SameStock :
      (r : Result Code OrderView) (shop : Shop) → SameStock shop.db (with_order env t r shop).1.db
  with_order-SameStock (ok o) shop = finalize-SameStock o shop
  with_order-SameStock (err e) shop = (refl, refl)

  repeated-SameStock :
      (i : ActivityItem) (in_cache : Bool) (shop : Shop)
      → SameStock shop.db (order_and_finish env t i in_cache (ok true) shop).1.db
  repeated-SameStock i in_cache shop =
      let r = create_order_with_compensation env t i in_cache true shop in
      SameStock-after shop.db r.1.db (with_order env t r.0 r.1).1.db
        (create_order-db i in_cache shop) (with_order-SameStock r.0 r.1)

  rollback-db : (i : ActivityItem) (shop : Shop) → (rollback_in_cache env t i shop).db ≡ shop.db
  unfolding rollback_in_cache
  rollback-db i shop = ground (arith)

  pub try_async-db :
      (sha1_hex : Text → Text) (i : ActivityItem) (in_cache : Bool) (shop : Shop)
      → (try_async sha1_hex env t i in_cache shop).1.db ≡ shop.db
  unfolding try_async
  try_async-db sha1_hex i false shop = refl
  try_async-db sha1_hex i true shop = ground (arith)

  -- From the reservation on, a repeated request leaves stock and ledger alone.
  in_db-SameStock :
      (i : ActivityItem) (in_cache : Bool) (shop : Shop)
      → env.reserve 0 ≡ no_faults
      → key_in (reserve_key t.key) shop.db.ledger ≡ true
      → SameStock shop.db (purchase_in_db env t i in_cache shop).1.db
  unfolding purchase_in_db reserve_db
  in_db-SameStock i true shop c h = elim (reserve_with_retry-Repeated env t c shop.db h) [
    | in_conflict e ↦ rw e (repeated-SameStock i true shop)
    | not_positive e ↦ rw e (ground (arith, rollback-db i shop))
  ]
  in_db-SameStock i false shop c h = elim (reserve_with_retry-Repeated env t c shop.db h) [
    | in_conflict e ↦ rw e (repeated-SameStock i false shop)
    | not_positive e ↦ rw e (refl, refl)
  ]

  module _ (sha1_hex : Text → Text) (clear : env.reserve 0 ≡ no_faults) where
    in_db_unless-SameStock :
        (i : ActivityItem) (in_cache : Bool) (r : Option PurchaseReceipt) (shop : Shop)
        → key_in (reserve_key t.key) shop.db.ledger ≡ true
        → SameStock shop.db (in_db_unless sha1_hex env t i in_cache r shop).1.db
    in_db_unless-SameStock i in_cache none shop h = in_db-SameStock i in_cache shop clear h
    in_db_unless-SameStock i in_cache (some r) shop h = (refl, refl)

    after_cache-SameStock :
        (i : ActivityItem) (d : Bool × Option Code) (shop : Shop)
        → key_in (reserve_key t.key) shop.db.ledger ≡ true
        → SameStock shop.db (after_cache sha1_hex env t i d shop).1.db
    after_cache-SameStock i (decided, some e) shop h = (refl, refl)
    after_cache-SameStock i (decided, none) shop h =
        let r = try_async sha1_hex env t i decided shop in
        let same = try_async-db sha1_hex i decided shop in
        SameStock-after shop.db r.1.db (in_db_unless sha1_hex env t i decided r.0 r.1).1.db same (
          in_db_unless-SameStock i decided r.0 r.1
            (ap (λ d. key_in (reserve_key t.key) d.ledger) same ∙ h))

    with_item-SameStock :
        (r : Result SeckillErr ActivityItem) (shop : Shop)
        → key_in (reserve_key t.key) shop.db.ledger ≡ true
        → SameStock shop.db (with_item sha1_hex env t r shop).1.db
    with_item-SameStock (err e) shop h = (refl, refl)
    with_item-SameStock (ok i) shop h =
        let r = reserve_in_cache env t i shop.slot in
        after_cache-SameStock i r.0 (record shop { slot = r.1 }) h

pub validated_key :
    (form : PurchaseForm) {t : Ticket}
    → validate_purchase_input form ≡ ok t
    → t.key ≡ trim_space form.idempotency_key
unfolding validate_purchase_input
validated_key form h = ground (arith, h)

with_ticket-SameStock :
    (sha1_hex : Text → Text) (env : Env) (form : PurchaseForm) (shop : Shop)
    (r : Result Code Ticket)
    → validate_purchase_input form ≡ r
    → env.reserve 0 ≡ no_faults
    → key_in (reserve_key (trim_space form.idempotency_key)) shop.db.ledger ≡ true
    → SameStock shop.db (with_ticket sha1_hex env r shop).1.db
with_ticket-SameStock sha1_hex env form shop (err e) v c h = (refl, refl)
with_ticket-SameStock sha1_hex env form shop (ok t) v c h =
    with_item-SameStock env t sha1_hex c (load_activity_item env t shop.db) _
      (ap (λ k. key_in (reserve_key k) shop.db.ledger) (validated_key form v) ∙ h)

-- Where the ledger has the reservation of a purchase's key, and the driver reports no error in the
-- first attempt at reserving, one more purchase under the key leaves the stock and the ledger of the
-- database as they were, whoever asks for whatever item and quantity, and whatever the cache, the
-- broker and the order service answer: nothing is taken again, and nothing is given back.
pub repeated_purchase_takes_nothing :
    (sha1_hex : Text → Text) (env : Env) (form : PurchaseForm) (shop : Shop)
    → env.reserve 0 ≡ no_faults
    → key_in (reserve_key (trim_space form.idempotency_key)) shop.db.ledger ≡ true
    → SameStock shop.db (purchase sha1_hex env form shop).1.db
unfolding purchase
repeated_purchase_takes_nothing sha1_hex env form shop c h =
    with_ticket-SameStock sha1_hex env form shop _ refl c h
