-- ===== src/Seckill/Consumers.antt =====
-- The consumers of the seckill service: apps/seckill/rpc/internal/logic/order_state_consumer.go
-- here, stock_compensate_consumer.go in Compensation; with what they call. The decoding of a message
-- is the JSON library's: `none` is a message that does not decode. A returned error leaves the
-- message to be consumed again. What the state events carry is positive or zero.
pub mod Redelivery
pub mod Compensation
use flash_sale.Prelude.{
  ℕ, zero, suc, ℤ, pos, positive, ◌+◌, ◌*◌, ◌/◌, Bool, true, false, not, ◌&&◌, ◌||◌, Option, none,
  some, List, [], ◌∷◌, ◌++◌, nat_beq, ltb, select, if◌then◌else◌,
}
use flash_sale.Text.{Text, text, trim_space, is_blank}
use flash_sale.Result.{Result, ok, err}
use flash_sale.Sql.{DriverErr, Faults}
use flash_sale.Order.Model.{
  CloseReason, no_reason, user_cancel, pay_timeout, audit_reject, audit_timeout, completed,
  auto_completed,
}
use flash_sale.Order.Service.World.{StateEvent, StockCompensateEvent}
use flash_sale.Order.Service.Jobs.{close_reason_text}
use flash_sale.Seckill.Model.{
  UserLimitMode, ActivityItem, OrderLink, SeckillDb, SeckillErr, activity_not_found,
  activity_item_not_found, driver,
}
use flash_sale.Seckill.Rules.{find_item, of_activity, second, closed_code, is_window}
use flash_sale.Seckill.Repository.{release_purchase_by_order}
use flash_sale.Seckill.Cache.{Slot, rollback_reserve_script, release_by_close_script}
use flash_sale.Seckill.Purchase.World.{Redis, answered, unreached, unanswered}
use flash_sale.Seckill.Purchase.{upsert_order_link}

-- A member of the sorted set of a user's completed units: `orderID:i:nanos`, with its time.
pub record Sample : Type 0 where
  pub order_id : ℕ
  pub index : ℕ
  pub at : ℕ

-- The traffic events of the consumers.
pub data Beat : Type 0 where
  pay_success order_was_closed purchase_failed : Beat

-- The database, the values of the keys of one user's request and order, the sorted set of the user's
-- completed units (`completed` of the slot has their times), and the traffic events. The expiry of
-- the set, three windows later, is not modelled.
pub record Stall : Type 0 where
  pub db : SeckillDb
  pub slot : Slot
  pub samples : List Sample
  pub traffic : List (Beat × Text)

-- What one message meets.
pub record Delivery : Type 0 where
  pub now : ℕ
  pub clock : ℕ
  pub sync_fault : Option DriverErr
  pub item_fault : Option DriverErr
  pub release : Faults
  pub ledger_id : ℕ
  pub has_redis : Bool
  pub redis : Redis

pub data ConsumeErr : Type 0 where
  undecodable invalid_payload redis_error : ConsumeErr
  of_repository : SeckillErr → ConsumeErr

abbrev pub Consume : Type 0
Consume = Stall → Result ConsumeErr (Unit {0}) × Stall

-- `OccurredAtTime`
abbrev occurred_at : Delivery → StateEvent → ℕ
occurred_at d e =
    if nat_beq e.occurred_at_unix_second 0 then d.now else e.occurred_at_unix_second * second

-- `shouldReleaseActivityStock`
unfoldable pub should_release : CloseReason → Bool
should_release user_cancel = true
should_release pay_timeout = true
should_release audit_reject = true
should_release audit_timeout = true
should_release _ = false

-- `shouldRecordWindowCompleted`
unfoldable pub should_record_window : CloseReason → Bool
should_record_window completed = true
should_record_window auto_completed = true
should_record_window _ = false

-- `SyncOrderLinkState`: the link's id is the order's.
abbrev synced_link : Delivery → StateEvent → OrderLink
synced_link d e = record {
  id = e.order_id;
  order_id = e.order_id;
  order_no = e.order_no;
  user_id = e.user_id;
  activity_id = e.activity_id;
  activity_item_id = e.activity_item_id;
  quantity = e.quantity;
  order_status = e.order_status;
  payment_status = e.payment_status;
  close_reason = close_reason_text e.close_reason;
  last_synced_at = occurred_at d e;
  created_at = d.now;
  updated_at = d.now;
}

abbrev sync_link : Delivery → StateEvent → SeckillDb → SeckillDb
sync_link d e db = record db { links = upsert_order_link (synced_link d e) db.links }

abbrev note_if : Bool → Beat → Text → Stall → Stall
note_if b beat key stall =
    if b then record stall { traffic = (beat, key) ∷ stall.traffic } else stall

abbrev record_beats : StateEvent → Stall → Stall
record_beats e stall =
    note_if (nat_beq e.order_status closed_code) order_was_closed
      (e.order_no ++ text ":order_closed")
      (note_if (not (nat_beq e.payment_status 0)) pay_success (e.order_no ++ text ":pay_success")
        stall)

-- A command of Redis that changes the stall; its errors are left out of account.
abbrev in_redis : Delivery → (Stall → Stall) → Stall → Stall
in_redis d f stall =
    if not d.has_redis
    then stall
    else elim d.redis [ answered ↦ f stall | unreached ↦ stall | unanswered ↦ f stall ]

-- `releaseByCloseInCache`
unfoldable pub release_in_cache : Delivery → StateEvent → ActivityItem → Stall → Stall
unfolding release_by_close_script
release_in_cache d e i stall =
    in_redis d
      (λ st. record st {
        slot =
            (release_by_close_script d.clock (pos e.quantity) i.user_limit_mode 604800 st.slot).1;
      })
      stall

abbrev is_sample : ℕ → ℕ → ℕ → Sample → Bool
is_sample order_id index at s =
    nat_beq s.order_id order_id && nat_beq s.index index && nat_beq s.at at

abbrev is_there : List Sample → Bool
is_there [] = false
is_there (s ∷ ss) = true

-- `ZADD` of the members with the indices below `quantity`: a member that is there stays.
unfoldable pub add_samples : ℕ → ℕ → ℕ → List Sample → List Sample
add_samples order_id at zero samples = samples
add_samples order_id at (suc n) samples =
    let before = add_samples order_id at n samples in
    if is_there (select (is_sample order_id n at) before)
    then before
    else record { order_id = order_id; index = n; at = at } ∷ before

-- `recordCompletedWindow`
unfoldable pub record_completed_window : Delivery → StateEvent → ActivityItem → Stall → Stall
unfolding add_samples
record_completed_window d e i stall =
    let at = occurred_at d e in
    let kept =
      select (λ s. ltb (at / second) (s.at / second + i.user_limit_window_sec))
        (add_samples e.order_id at e.quantity stall.samples) in
    if not (is_window i.user_limit_mode)
      || nat_beq i.user_limit_window_sec 0
      || nat_beq i.user_limit_qty 0
      || nat_beq e.user_id 0
    then stall
    else in_redis d (λ st. record st { samples = kept }) stall

abbrev record_if : Bool → Delivery → StateEvent → ActivityItem → Stall → Stall
record_if b d e i stall = if b then record_completed_window d e i stall else stall

-- The key under which a closed order gives its units back.
abbrev pub release_id : StateEvent → Text
release_id e = e.order_no ++ text ":close_release"

abbrev after_release : Delivery → StateEvent → ActivityItem → Result SeckillErr (Unit {0}) → Consume
after_release d e i (err x) stall = (err (of_repository x), stall)
after_release d e i (ok u) stall =
    (ok tt, record_if (should_record_window e.close_reason) d e i (release_in_cache d e i stall))

abbrev release_and_record : Delivery → StateEvent → ActivityItem → Bool → Consume
release_and_record d e i false stall =
    (ok tt, record_if (should_record_window e.close_reason) d e i stall)
release_and_record d e i true stall =
    let r =
      release_purchase_by_order d.release d.ledger_id (pos e.activity_id) (pos e.activity_item_id)
        (pos e.order_id) (pos e.quantity) (release_id e) stall.db in
    after_release d e i r.0 (record stall { db = r.1 })

-- The item of the event; one that is not there is passed over (`isOrderStateSkipErr`).
abbrev with_item : Delivery → StateEvent → Option DriverErr → Option ActivityItem → Consume
with_item d e (some x) i stall = (err (of_repository (driver x)), stall)
with_item d e none none stall = (ok tt, stall)
with_item d e none (some i) stall = release_and_record d e i (should_release e.close_reason) stall

abbrev synced : Delivery → StateEvent → Option DriverErr → Consume
synced d e (some x) stall = (err (of_repository (driver x)), stall)
synced d e none stall =
    let noted = record_beats e (record stall { db = sync_link d e stall.db }) in
    with_item d e d.item_fault (of_activity e.activity_id (find_item e.activity_item_id stall.db))
      noted

abbrev has_zero : StateEvent → Bool
has_zero e =
    nat_beq e.activity_id 0
    || nat_beq e.activity_item_id 0
    || nat_beq e.order_id 0
    || nat_beq e.quantity 0

-- `consumeOrderStateMessage`
unfoldable pub consume_order_state : Delivery → Option StateEvent → Consume
unfolding upsert_order_link release_in_cache record_completed_window should_release
    should_record_window
consume_order_state d none stall = (ok tt, stall)
consume_order_state d (some e) stall =
    if has_zero e then (ok tt, stall) else synced d e d.sync_fault stall
