-- ===== src/Seckill/Purchase/Backed.antt =====
-- An order that a purchase answers with has its reservation in the ledger.
use flash_sale.Prelude.{
  ℕ, Bool, true, false, Option, none, some, ◌≡◌, refl, sym, ap, ◌∙◌, arith, Bool-cases, inl, inr,
  ◌≢◌, ◌&&◌,
}
use flash_sale.Text.{Text, text, trim_space}
use flash_sale.Result.{Result, ok, err}
use flash_sale.Errorx.{Code}
use flash_sale.Seckill.Model.{ActivityItem, SeckillErr, PurchaseReservation}
use flash_sale.Seckill.Repository.Effects.{reserve_key}
use flash_sale.Seckill.Repository.Retry.{key_in, id_in}
use flash_sale.Seckill.Purchase.World.{
  PurchaseForm, PurchaseReceipt, Shop, OrderCall, overloaded, replied, failed, Env, Step,
  record_traffic, purchase_attempt,
}
use flash_sale.Seckill.Purchase.Taking.{
  Ticket, validate_purchase_input, load_activity_item, reserve_in_cache, reserve_with_retry,
}
use flash_sale.Seckill.Purchase.{
  is_conflict, after_reserve, reserve_db, refused, after_order, create_order_with_compensation,
  order_and_finish, purchase_in_db, try_async, after_cache, with_item, with_ticket, purchase,
}
use flash_sale.Order.Service.Views.{OrderView}
use flash_sale.Seckill.Purchase.Repeat.{
  replay-db, refused-db, finalize-SameStock, try_async-db, validated_key,
}
use flash_sale.Seckill.Purchase.Reservation.{held, gave_up, Fresh, retry-Ended}

module _ (env : Env) (t : Ticket) where
  refused-ok :
      (i : ActivityItem) (in_cache repeated : Bool) (code : Code) (uncertain compensated : Bool)
      (shop : Shop) {o : OrderView}
      → (refused env t i in_cache repeated code uncertain compensated shop).0 ≡ ok o
      → (refused env t i in_cache repeated code uncertain compensated shop).1.db ≡ shop.db
  refused-ok i in_cache repeated code uncertain false shop h = replay-db env t _ shop
  refused-ok i in_cache true code uncertain true shop h =
      refused-db env t i in_cache code _ true shop
  refused-ok i in_cache false code uncertain true shop h = absurd (ground (arith, h))

  after_order-ok :
      (i : ActivityItem) (in_cache repeated : Bool) (c : OrderCall) (shop : Shop) {o : OrderView}
      → (after_order env t i in_cache repeated c shop).0 ≡ ok o
      → (after_order env t i in_cache repeated c shop).1.db ≡ shop.db
  after_order-ok i in_cache repeated overloaded shop h = absurd (ground (arith, h))
  after_order-ok i in_cache repeated (replied none) shop h = absurd (ground (arith, h))
  after_order-ok i in_cache repeated (replied (some o)) shop h = refl
  after_order-ok i in_cache repeated (failed code uncertain) shop h =
      refused-ok i in_cache repeated code uncertain _ shop h

  -- An order that the order service made is not undone.
  create_order-ok :
      (i : ActivityItem) (in_cache repeated : Bool) (shop : Shop) {o : OrderView}
      → (create_order_with_compensation env t i in_cache repeated shop).0 ≡ ok o
      → (create_order_with_compensation env t i in_cache repeated shop).1.db ≡ shop.db
  unfolding create_order_with_compensation
  create_order-ok i in_cache repeated shop h = elim (Bool-cases env.has_token) [
    | inl e ↦ rw e (after_order-ok i in_cache repeated (env.order_call 0) shop (rw e at h))
    | inr e ↦ absurd (ground (arith, h, e))
  ]

  finished-ok :
      (i : ActivityItem) (in_cache repeated : Bool) (shop : Shop) (r : Result Code OrderView)
      {receipt : PurchaseReceipt}
      → (create_order_with_compensation env t i in_cache repeated shop).0 ≡ r
      → (order_and_finish env t i in_cache (ok repeated) shop).0 ≡ ok receipt
      → (order_and_finish env t i in_cache (ok repeated) shop).1.db.ledger ≡ shop.db.ledger
  finished-ok i in_cache repeated shop (err e) q h = absurd (ground (arith, q, h))
  finished-ok i in_cache repeated shop (ok o) q h = rw q (
      (finalize-SameStock env t o _).1
      ∙ ap (λ d. d.ledger) (create_order-ok i in_cache repeated shop q))

  abbrev rest : ActivityItem → Bool → Result SeckillErr PurchaseReservation → Step PurchaseReceipt
  rest i in_cache rep shop =
      let r = after_reserve env t i in_cache rep shop in order_and_finish env t i in_cache r.0 r.1

  went_on :
      (i : ActivityItem) (in_cache repeated : Bool) (shop : Shop) {receipt : PurchaseReceipt}
      → key_in (reserve_key t.key) shop.db.ledger ≡ true
      → (order_and_finish env t i in_cache (ok repeated) shop).0 ≡ ok receipt
      → key_in
          (reserve_key t.key)
          (order_and_finish env t i in_cache (ok repeated) shop).1.db.ledger
        ≡ true
  went_on i in_cache repeated shop k h =
      ap (key_in (reserve_key t.key)) (finished-ok i in_cache repeated shop _ refl h) ∙ k

  -- A purchase that does not get its reservation, and is not a repeated one, answers with an error.
  refused_reservation :
      (i : ActivityItem) (in_cache : Bool) (e : SeckillErr) (shop : Shop)
      {receipt : PurchaseReceipt}
      → is_conflict e ≡ false
      → (rest i in_cache (err e) shop).0 ≢ ok receipt
  refused_reservation i in_cache e shop c h = ground (arith, c, h)

  rest-Backed :
      (i : ActivityItem) (in_cache : Bool) (rep : Result SeckillErr PurchaseReservation)
      (shop : Shop) {receipt : PurchaseReceipt}
      → key_in (reserve_key t.key) shop.db.ledger ≡ true
      → (rest i in_cache rep shop).0 ≡ ok receipt
      → key_in (reserve_key t.key) (rest i in_cache rep shop).1.db.ledger ≡ true
  rest-Backed i in_cache (ok got) shop k h = went_on i in_cache false shop k h
  rest-Backed i in_cache (err e) shop k h = elim (Bool-cases (is_conflict e)) [
    | inl c ↦ rw c (went_on i in_cache true shop k (rw c at h))
    | inr c ↦ absurd (refused_reservation i in_cache e shop c h)
  ]

  in_db-Backed :
      (i : ActivityItem) (in_cache : Bool) (shop : Shop) {receipt : PurchaseReceipt}
      → Fresh env t shop.db
      → (purchase_in_db env t i in_cache shop).0 ≡ ok receipt
      → key_in (reserve_key t.key) (purchase_in_db env t i in_cache shop).1.db.ledger ≡ true
  unfolding purchase_in_db reserve_db
  in_db-Backed i in_cache shop f h = elim (retry-Ended env t 2 0 shop.db f) [
    | held c k ↦ rest-Backed i in_cache (reserve_with_retry 2 0 env t shop.db).0 _ k h
    | gave_up e q c same ↦ absurd (refused_reservation i in_cache e _ c (rw q at h))
  ]

  module _ (sha1_hex : Text → Text) (sync : env.has_producer && env.broker_confirms ≡ false) where
    try_async-none :
        (i : ActivityItem) (in_cache : Bool) (shop : Shop)
        → (try_async sha1_hex env t i in_cache shop).0 ≡ none
    unfolding try_async
    try_async-none i false shop = refl
    try_async-none i true shop = rw sync refl

    after_cache-Backed :
        (i : ActivityItem) (d : Bool × Option Code) (shop : Shop) {receipt : PurchaseReceipt}
        → Fresh env t shop.db
        → (after_cache sha1_hex env t i d shop).0 ≡ ok receipt
        → key_in (reserve_key t.key) (after_cache sha1_hex env t i d shop).1.db.ledger ≡ true
    after_cache-Backed i (decided, some e) shop f h = absurd (ground (arith, h))
    after_cache-Backed i (decided, none) shop f h =
        let r = try_async sha1_hex env t i decided shop in
        let n = try_async-none i decided shop in
        let same = try_async-db env t sha1_hex i decided shop in
        rw n (
          in_db-Backed i decided r.1 (λ m. ap (λ d. id_in (env.ledger_id m) d.ledger) same ∙ f m)
            (rw n at h))

    with_item-Backed :
        (r : Result SeckillErr ActivityItem) (shop : Shop) {receipt : PurchaseReceipt}
        → Fresh env t shop.db
        → (with_item sha1_hex env t r shop).0 ≡ ok receipt
        → key_in (reserve_key t.key) (with_item sha1_hex env t r shop).1.db.ledger ≡ true
    with_item-Backed (err e) shop f h = absurd (ground (arith, h))
    with_item-Backed (ok i) shop f h =
        let r = reserve_in_cache env t i shop.slot in
        after_cache-Backed i r.0 (record shop { slot = r.1 }) f h

with_ticket-Backed :
    (sha1_hex : Text → Text) (env : Env) (form : PurchaseForm) (shop : Shop)
    (r : Result Code Ticket) {receipt : PurchaseReceipt}
    → validate_purchase_input form ≡ r
    → env.has_producer && env.broker_confirms ≡ false
    → ((n : ℕ) → id_in (env.ledger_id n) shop.db.ledger ≡ false)
    → (with_ticket sha1_hex env r shop).0 ≡ ok receipt
    → key_in
        (reserve_key (trim_space form.idempotency_key))
        (with_ticket sha1_hex env r shop).1.db.ledger
      ≡ true
with_ticket-Backed sha1_hex env form shop (err e) v sync f h = absurd (ground (arith, h))
with_ticket-Backed sha1_hex env form shop (ok t) v sync f h =
    let after =
      with_item sha1_hex env t (load_activity_item env t shop.db)
        (record_traffic purchase_attempt (text ":attempt") shop) in
    ap (λ k. key_in (reserve_key k) after.1.db.ledger) (sym (validated_key form v))
    ∙ with_item-Backed env t sha1_hex sync (load_activity_item env t shop.db) _ f h

-- Where the broker confirms no message, and the ids for the ledger's new rows are not in it, a
-- purchase that answers with an order leaves the reservation of its key in the ledger, whatever the
-- driver, the cache and the order service answer, and however often the reservation was tried.
pub ordered_purchase_is_reserved :
    (sha1_hex : Text → Text) (env : Env) (form : PurchaseForm) (shop : Shop)
    {receipt : PurchaseReceipt}
    → env.has_producer && env.broker_confirms ≡ false
    → ((n : ℕ) → id_in (env.ledger_id n) shop.db.ledger ≡ false)
    → (purchase sha1_hex env form shop).0 ≡ ok receipt
    → key_in
        (reserve_key (trim_space form.idempotency_key))
        (purchase sha1_hex env form shop).1.db.ledger
      ≡ true
unfolding purchase
ordered_purchase_is_reserved sha1_hex env form shop sync f h =
    with_ticket-Backed sha1_hex env form shop _ refl sync f h
