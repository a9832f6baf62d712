-- ===== src/Witness/Purchases.antt =====
-- A purchase that becomes an order, and one that cannot.
use flash_sale.Prelude.{pos, [], ◌∷◌, ◌≡◌, ◌⊎◌, refl, some, true, false}
use flash_sale.Text.{text, trim_space, is_blank, decimal, decimal_from}
use flash_sale.Result.{ok}
use flash_sale.Sql.{insert, find}
use flash_sale.Order.Repository.{create, append_event_tx, lookup_order_no}
use flash_sale.Order.Repository.Operations.{apply_op}
use flash_sale.Order.Service.Views.{to_order_view}
use flash_sale.Order.Service.World.{
  World, continue, ◌>>=◌, decide, attempt, catch, emit, publish, sent,
}
use flash_sale.Order.Service.Steps.{emit_state}
use flash_sale.Order.Service.Seckill.{
  check_seckill, seckill_total, insert_purchase, after_insert, build_seckill_order_no,
  create_order_from_seckill, Purchase, order_of,
}
use flash_sale.Order.Service.Consumer.{
  PurchaseEvent, Attempt, Broker, is_valid_event, is_non_retryable, form_of, judge, try_create,
  finish, give_up, publish_dlq, publish_stock_compensate, consume_event, consume_message,
}
use flash_sale.Order.Service.Delivery.{Ordered, create_order_from_seckill-Ordered}
use flash_sale.Order.Service.Delivery.Consumer.{Asked, consume_message_drops_nothing}
use flash_sale.Witness.Service.{env, plain_sha1}

abbrev opened : World
opened = record {
  orders = record { orders = []; events = [] };
  products = record { products = []; records = [] };
  emitted = [];
  posted = [];
}

abbrev wanted : PurchaseEvent
wanted = record {
  order_no = 79 ∷ [];
  user_id = pos 5;
  activity_id = pos 1;
  activity_item_id = pos 2;
  product_id = pos 7;
  quantity = pos 2;
  seckill_price_cent = pos 999;
  snapshot_name = 76 ∷ [];
  snapshot_main_image = 77 ∷ [];
  sku_code = 78 ∷ [];
  idempotency_key = 75 ∷ [];
}

abbrev basket : Purchase
basket = record {
  user_id = 5;
  activity_id = 1;
  activity_item_id = 2;
  product_id = 7;
  quantity = 2;
  price_cent = 999;
  name = 76 ∷ [];
  main_image = 77 ∷ [];
  sku_code = 78 ∷ [];
  idempotency_key = 75 ∷ [];
}

created_order :
    (create_order_from_seckill plain_sha1 false (λ n. false) env 41 (form_of wanted) opened).0
    ≡ ok (to_order_view (order_of 41 (text "SCK5:1:2:K") basket 1998 1000))
unfolding create_order_from_seckill check_seckill continue ◌>>=◌ decide insert_purchase
    seckill_total attempt apply_op create append_event_tx lookup_order_no find insert after_insert
    build_seckill_order_no decimal decimal_from trim_space is_blank emit_state emit to_order_view
created_order = refl

create_order_from_seckill-Ordered_example :
    Ordered plain_sha1
      (form_of wanted)
      (create_order_from_seckill plain_sha1 false
        (λ n. false)
        env
        41
        (form_of wanted)
        opened).1.orders
create_order_from_seckill-Ordered_example =
    create_order_from_seckill-Ordered plain_sha1 false (λ n. false) env 41 (form_of wanted) opened
      created_order

-- Every attempt finds no slot; the last resort is reached, and its message goes out.
abbrev crowded : Attempt
crowded = record { busy = true; canceled = λ n. false; env = env; id = 41; interrupted = false }

abbrev broker : Broker
broker = record { has_dlq_topic = true; dlq = sent; compensate = sent; now = 3000 }

given_up : (consume_message plain_sha1 (λ n. crowded) broker (some wanted) opened).0 ≡ ok tt
unfolding consume_message consume_event is_valid_event try_create judge finish give_up publish_dlq
    publish_stock_compensate publish catch create_order_from_seckill check_seckill continue ◌>>=◌
    decide trim_space is_blank is_non_retryable
given_up = refl

consume_message_drops_nothing_example :
    Ordered plain_sha1
      (form_of wanted)
      (consume_message plain_sha1 (λ n. crowded) broker (some wanted) opened).1.orders
    ⊎ Asked broker wanted (consume_message plain_sha1 (λ n. crowded) broker (some wanted) opened).1
consume_message_drops_nothing_example =
    consume_message_drops_nothing plain_sha1 (λ n. crowded) broker wanted opened given_up
