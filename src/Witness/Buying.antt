-- ===== src/Witness/Buying.antt =====
-- A purchase of two lamps, with a cache, a broker that is away and an order service that answers.
use flash_sale.Prelude.{◌+◌, ◌∷◌, [], ◌≡◌, refl, some, none, true, false, pos}
use flash_sale.Text.{trim_space, is_blank}
use flash_sale.Result.{ok}
use flash_sale.Sql.{no_faults, find, update}
use flash_sale.Seckill.Model.{SeckillDb}
use flash_sale.Seckill.Rules.{sum_quantity}
use flash_sale.Seckill.Repository.{
  ledger_has, insert_stock_ledger, reserve_row, check_limit, check_user_limit,
  classify_reserve_miss, reserve_purchase_tx, reserve_purchase,
}
use flash_sale.Seckill.Repository.Effects.{reserve_key}
use flash_sale.Seckill.Repository.Retry.{id_in, key_in}
use flash_sale.Seckill.Cache.{reserve_purchase_script, cache_decision}
use flash_sale.Seckill.Purchase.World.{PurchaseForm, PurchaseReceipt, Shop, Env, answered, replied}
use flash_sale.Seckill.Purchase.Taking.{
  validate_purchase_input, load_activity_item, reserve_in_cache, reserve_with_retry,
}
use flash_sale.Seckill.Purchase.{
  try_async, reserve_db, create_order_with_compensation, finalize_purchase, purchase_in_db,
  purchase,
}
use flash_sale.Seckill.Purchase.Repeat.{SameStock, repeated_purchase_takes_nothing}
use flash_sale.Seckill.Purchase.Backed.{ordered_purchase_is_reserved}
use flash_sale.Order.Service.Views.{to_order_view}
use flash_sale.Witness.Orders.{draft}
use flash_sale.Witness.Seckill.{market, key_a}
use flash_sale.Witness.Service.{plain_sha1}

abbrev env : Env
env = record {
  now = 150;
  clock = 1000;
  cached_item = none;
  item_fault = none;
  has_redis = true;
  warm = answered;
  script = answered;
  rollback = answered;
  has_producer = true;
  broker_confirms = false;
  broker_keeps = false;
  db_limit_check = true;
  reserve = λ n. no_faults;
  ledger_id = λ n. 2000 + n;
  waits = λ n. none;
  has_token = true;
  order_call = λ n. replied (some (to_order_view draft));
  compensate = no_faults;
  compensate_id = 3000;
  writes_links = true;
  link_id = 77;
  queue_takes = true;
  link_fallback = true;
  link_fault = none;
}

abbrev two_lamps : PurchaseForm
two_lamps = record {
  user_id = pos 9;
  activity_id = pos 3;
  activity_item_id = pos 5;
  quantity = pos 2;
  idempotency_key = 32 ∷ key_a;
}

abbrev shop_of : SeckillDb → Shop
shop_of db = record {
  slot = record {
    stock = none;
    bought = none;
    completed = [];
    request = none;
    release_token = none;
    close_mark = none;
  };
  db = db;
  messages = [];
  link_queue = [];
  traffic = [];
}

abbrev receipt : PurchaseReceipt
receipt = record { order_id = draft.id; order_no = draft.order_no }

bought_two : (purchase plain_sha1 env two_lamps (shop_of market)).0 ≡ ok receipt
unfolding purchase purchase_in_db validate_purchase_input load_activity_item reserve_in_cache
    try_async reserve_with_retry reserve_db create_order_with_compensation finalize_purchase
    reserve_purchase reserve_purchase_tx insert_stock_ledger ledger_has reserve_row check_limit
    check_user_limit classify_reserve_miss sum_quantity find update trim_space is_blank
    reserve_purchase_script cache_decision to_order_view
bought_two = refl

ordered_purchase_is_reserved_example :
    key_in
      (reserve_key (trim_space (32 ∷ key_a)))
      (purchase plain_sha1 env two_lamps (shop_of market)).1.db.ledger
    ≡ true
unfolding id_in
ordered_purchase_is_reserved_example =
    ordered_purchase_is_reserved plain_sha1 env two_lamps (shop_of market) refl (λ n. refl)
      bought_two

-- The database after a purchase of three lamps under the key.
abbrev after_three : SeckillDb
after_three = (reserve_purchase no_faults true 1000 (pos 3) (pos 5) 9 (pos 3) key_a 150 market).1

repeated_purchase_takes_nothing_example :
    SameStock after_three (purchase plain_sha1 env two_lamps (shop_of after_three)).1.db
unfolding key_in reserve_purchase reserve_purchase_tx insert_stock_ledger ledger_has reserve_row
    check_limit check_user_limit classify_reserve_miss sum_quantity find update trim_space
repeated_purchase_takes_nothing_example =
    repeated_purchase_takes_nothing plain_sha1 env two_lamps (shop_of after_three) refl refl
