-- ===== src/Seckill/Consumers/Redelivery.antt =====
-- An order state event that is delivered again.
use flash_sale.Prelude.{
  ℕ, zero, suc, pos, positive, nat_beq, Bool, true, false, Option, none, some, List, ◌≡◌, refl, ap,
  ◌∙◌, arith, Bool-cases, inl, inr,
}
use flash_sale.Text.{trim_space, is_blank}
use flash_sale.Result.{Result, ok, err}
use flash_sale.Sql.{DriverErr, no_faults}
use flash_sale.Order.Service.World.{StateEvent}
use flash_sale.Seckill.Model.{ActivityItem, SeckillDb, SeckillErr}
use flash_sale.Seckill.Rules.{find_item, of_activity}
use flash_sale.Seckill.Repository.{positives, release_purchase_by_order}
use flash_sale.Seckill.Repository.History.{SeckillOp, run}
use flash_sale.Seckill.Repository.Retry.{
  id_in, key_in, run-key_in, closed_again, release_by_order_again,
}
use flash_sale.Seckill.Purchase.Repeat.{SameStock}
use flash_sale.Seckill.Consumers.{
  Stall, Delivery, should_release, sync_link, record_beats, release_in_cache,
  record_completed_window, record_if, release_id, after_release, release_and_record, with_item,
  synced, has_zero, consume_order_state,
}

module _ (d : Delivery) (e : StateEvent) where
  release_in_cache-db :
      (i : ActivityItem) (stall : Stall) → (release_in_cache d e i stall).db ≡ stall.db
  unfolding release_in_cache
  release_in_cache-db i stall = ground (arith)

  record_if-db :
      (b : Bool) (i : ActivityItem) (stall : Stall) → (record_if b d e i stall).db ≡ stall.db
  unfolding record_completed_window
  record_if-db b i stall = ground (arith)

  record_beats-db : (stall : Stall) → (record_beats e stall).db ≡ stall.db
  record_beats-db stall = ground (arith)

  after_release-db :
      (i : ActivityItem) (r : Result SeckillErr (Unit {0})) (stall : Stall)
      → (after_release d e i r stall).1.db ≡ stall.db
  after_release-db i (err x) stall = refl
  after_release-db i (ok tt) stall = record_if-db _ i _ ∙ release_in_cache-db i stall

  -- The release of the event's order.
  abbrev pub give : SeckillDb → Result SeckillErr (Unit {0}) × SeckillDb
  give =
      release_purchase_by_order d.release d.ledger_id (pos e.activity_id) (pos e.activity_item_id)
        (pos e.order_id) (pos e.quantity) (release_id e)

  abbrev Spent : SeckillDb → Type 0
  Spent db =
      (is_blank (release_id e) ≡ false) × (key_in (trim_space (release_id e)) db.ledger ≡ true)

  abbrev Unused : SeckillDb → Type 0
  Unused db = id_in d.ledger_id db.ledger ≡ false

  after_release-ok :
      (i : ActivityItem) (r : Result SeckillErr (Unit {0})) (stall : Stall)
      → (after_release d e i r stall).0 ≡ ok tt
      → r ≡ ok tt
  after_release-ok i (err x) stall h = absurd (ground (arith, h))
  after_release-ok i (ok tt) stall h = refl

  Spent-ap : (db db' : SeckillDb) → db' ≡ db → Spent db → Spent db'
  Spent-ap db db' q (b, k) = (b, ap (λ x. key_in (trim_space (release_id e)) x.ledger) q ∙ k)

  released-Spent :
      (i : ActivityItem) (stall : Stall)
      → Unused stall.db
      → (release_and_record d e i true stall).0 ≡ ok tt
      → Spent (release_and_record d e i true stall).1.db
  unfolding release_purchase_by_order
  released-Spent i stall fresh h =
      let r = give stall.db in
      let at = record stall { db = r.1 } in
      Spent-ap r.1 (after_release d e i r.0 at).1.db (after_release-db i r.0 at) (
        closed_again d.release d.ledger_id (pos e.activity_id) (pos e.activity_item_id)
          (pos e.quantity) (release_id e) stall.db (positive (pos e.order_id))
          (after_release-ok i r.0 at h) fresh)

  with_item-Spent :
      (i : ActivityItem) (x : Option DriverErr) (stall : Stall)
      → should_release e.close_reason ≡ true
      → Unused stall.db
      → (with_item d e x (some i) stall).0 ≡ ok tt
      → Spent (with_item d e x (some i) stall).1.db
  with_item-Spent i (some x) stall c fresh h = absurd (ground (arith, h))
  with_item-Spent i none stall c fresh h = rw c (released-Spent i stall fresh (rw c at h))

  synced-Spent :
      (x : Option DriverErr) (stall : Stall) {i : ActivityItem}
      → of_activity e.activity_id (find_item e.activity_item_id stall.db) ≡ some i
      → should_release e.close_reason ≡ true
      → Unused stall.db
      → (synced d e x stall).0 ≡ ok tt
      → Spent (synced d e x stall).1.db
  synced-Spent (some x) stall f c fresh h = absurd (ground (arith, h))
  synced-Spent none stall {i} f c fresh h =
      let noted = record_beats e (record stall { db = sync_link d e stall.db }) in
      rw f (
        with_item-Spent i d.item_fault noted c
          (ap (λ x. id_in d.ledger_id x.ledger)
              (record_beats-db (record stall { db = sync_link d e stall.db }))
            ∙ fresh)
          (rw f at h))

  -- A consumption that goes well, of an event that gives units back, spends the release's key.
  consume-Spent :
      (stall : Stall) {i : ActivityItem}
      → has_zero e ≡ false
      → of_activity e.activity_id (find_item e.activity_item_id stall.db) ≡ some i
      → should_release e.close_reason ≡ true
      → Unused stall.db
      → (consume_order_state d (some e) stall).0 ≡ ok tt
      → Spent (consume_order_state d (some e) stall).1.db
  unfolding consume_order_state
  consume-Spent stall z f c fresh h = rw z (synced-Spent d.sync_fault stall f c fresh (rw z at h))

positive_of : (n : ℕ) → nat_beq n 0 ≡ false → positive (pos n) ≡ some n
positive_of zero h = absurd (ground (arith, h))
positive_of (suc n) h = refl

positives_of :
    (a i q : ℕ)
    → nat_beq a 0 ≡ false
    → nat_beq i 0 ≡ false
    → nat_beq q 0 ≡ false
    → positives (pos a) (pos i) (pos q) ≡ some (a, i, q)
positives_of zero i q x y z = absurd (ground (arith, x))
positives_of (suc a) zero q x y z = absurd (ground (arith, y))
positives_of (suc a) (suc i) zero x y z = absurd (ground (arith, z))
positives_of (suc a) (suc i) (suc q) x y z = refl

consume_skips :
    (d : Delivery) (e : StateEvent) (stall : Stall)
    → has_zero e ≡ true
    → SameStock stall.db (consume_order_state d (some e) stall).1.db
unfolding consume_order_state
consume_skips d e stall z = rw z (refl, refl)

module _ (d : Delivery) (e : StateEvent) (clear : d.release ≡ no_faults)
    (z : has_zero e ≡ false) where
  give_again : (db : SeckillDb) → Spent d e db → give d e db ≡ (ok tt, db)
  give_again db (b, k) = rw clear (
      release_by_order_again d.ledger_id (pos e.activity_id) (pos e.activity_item_id)
        (pos e.order_id) (pos e.quantity) (release_id e) db
        (positive_of e.order_id (ground (arith, z)))
        (positives_of e.activity_id e.activity_item_id e.quantity (ground (arith, z))
          (ground (arith, z)) (ground (arith, z)))
        b k)

  release_and_record-db :
      (i : ActivityItem) (b : Bool) (stall : Stall)
      → Spent d e stall.db
      → (release_and_record d e i b stall).1.db ≡ stall.db
  release_and_record-db i false stall s = record_if-db d e _ i stall
  release_and_record-db i true stall s =
      after_release-db d e i (give d e stall.db).0 _ ∙ ap (λ r. r.1) (give_again stall.db s)

  with_item-db :
      (x : Option DriverErr) (i : Option ActivityItem) (stall : Stall)
      → Spent d e stall.db
      → (with_item d e x i stall).1.db ≡ stall.db
  with_item-db (some x) i stall s = refl
  with_item-db none none stall s = refl
  with_item-db none (some i) stall s = release_and_record-db i _ stall s

  synced-SameStock :
      (x : Option DriverErr) (stall : Stall)
      → Spent d e stall.db
      → SameStock stall.db (synced d e x stall).1.db
  synced-SameStock (some x) stall s = (refl, refl)
  synced-SameStock none stall s =
      let at = record stall { db = sync_link d e stall.db } in
      let q = record_beats-db d e at in
      let same =
        with_item-db d.item_fault
          (of_activity e.activity_id (find_item e.activity_item_id stall.db)) (record_beats e at)
          (Spent-ap d e at.db (record_beats e at).db q s)
        ∙ q in
      (ap (λ x. x.items) same, ap (λ x. x.ledger) same)

  consume-SameStock :
      (stall : Stall)
      → Spent d e stall.db
      → SameStock stall.db (consume_order_state d (some e) stall).1.db
  unfolding consume_order_state
  consume-SameStock stall s = rw z (synced-SameStock d.sync_fault stall s)

-- An event of a closed order whose units go back gives them back once: where a consumption of it
-- goes well, its item is there and the id for its ledger row is not, one more consumption of it,
-- after any calls of the repository, leaves the stock and the ledger as they were, whatever else has
-- become of the cache and the links meanwhile, where the driver reports no error in its release.
pub redelivered_event_gives_nothing :
    (d : Delivery) (e : StateEvent) (stall : Stall) {i : ActivityItem}
    → of_activity e.activity_id (find_item e.activity_item_id stall.db) ≡ some i
    → should_release e.close_reason ≡ true
    → id_in d.ledger_id stall.db.ledger ≡ false
    → (consume_order_state d (some e) stall).0 ≡ ok tt
    → (ops : List SeckillOp) (d' : Delivery) (later : Stall)
    → later.db ≡ run ops (consume_order_state d (some e) stall).1.db
    → d'.release ≡ no_faults
    → SameStock later.db (consume_order_state d' (some e) later).1.db
redelivered_event_gives_nothing d e stall f c fresh h ops d' later l clear =
    elim (Bool-cases (has_zero e)) [
      | inl z ↦ consume_skips d' e later z
      | inr z ↦
          let (b, k) = consume-Spent d e stall z f c fresh h in
          consume-SameStock d' e clear z later (
            b,
            ap (λ x. key_in (trim_space (release_id e)) x.ledger) l
                ∙ run-key_in (trim_space (release_id e)) ops _ k,
          )
    ]
