-- ===== src/Witness/Redelivery.antt =====
-- The event of an order that its buyer cancelled, delivered twice.
use flash_sale.Prelude.{◌∷◌, [], ◌≡◌, refl, some, none, true, pos, List}
use flash_sale.Text.{trim_space, is_blank}
use flash_sale.Result.{ok}
use flash_sale.Sql.{no_faults, find, update}
use flash_sale.Order.Model.{user_cancel}
use flash_sale.Order.Service.World.{StateEvent, order_closed}
use flash_sale.Seckill.Repository.{
  ledger_has, insert_stock_ledger, release_tx, release_purchase_by_order,
}
use flash_sale.Seckill.Repository.History.{SeckillOp, purchase, run}
use flash_sale.Seckill.Repository.Retry.{id_in}
use flash_sale.Seckill.Cache.{release_by_close_script}
use flash_sale.Seckill.Purchase.{upsert_order_link}
use flash_sale.Seckill.Purchase.World.{answered}
use flash_sale.Seckill.Purchase.Repeat.{SameStock}
use flash_sale.Seckill.Consumers.{
  Stall, Delivery, should_release, should_record_window, release_in_cache, consume_order_state,
}
use flash_sale.Seckill.Consumers.Redelivery.{redelivered_event_gives_nothing}
use flash_sale.Witness.Seckill.{market, key_a}

abbrev cancelled : StateEvent
cancelled = record {
  event_type = order_closed;
  order_id = 8;
  order_no = key_a;
  user_id = 9;
  product_id = 7;
  activity_id = 3;
  activity_item_id = 5;
  quantity = 2;
  order_status = 90;
  payment_status = 0;
  review_status = 0;
  shipping_status = 0;
  refund_status = 0;
  close_reason = user_cancel;
  occurred_at_unix_second = 1;
}

abbrev counter : Stall
counter = record {
  db = market;
  slot = record {
    stock = some 4;
    bought = some 3;
    completed = [];
    request = none;
    release_token = none;
    close_mark = none;
  };
  samples = [];
  traffic = [];
}

abbrev delivery : Delivery
delivery = record {
  now = 200;
  clock = 1000;
  sync_fault = none;
  item_fault = none;
  release = no_faults;
  ledger_id = 1000;
  has_redis = true;
  redis = answered;
}

consumed : (consume_order_state delivery (some cancelled) counter).0 ≡ ok tt
unfolding consume_order_state should_release should_record_window release_in_cache
    release_by_close_script upsert_order_link release_purchase_by_order release_tx
    insert_stock_ledger ledger_has find update trim_space is_blank
consumed = refl

-- One more purchase comes between the two deliveries.
abbrev between : List SeckillOp
between = purchase no_faults true 1001 (pos 3) (pos 5) 4 (pos 1) key_a 150 ∷ []

abbrev later : Stall
later = record counter {
  db = run between (consume_order_state delivery (some cancelled) counter).1.db;
}

redelivered_event_gives_nothing_example :
    SameStock later.db (consume_order_state delivery (some cancelled) later).1.db
unfolding id_in should_release find
redelivered_event_gives_nothing_example =
    redelivered_event_gives_nothing delivery cancelled counter refl refl refl consumed between
      delivery later refl refl
