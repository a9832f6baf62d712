-- ===== src/Witness/Seckill.antt =====
-- An activity with one item of ten units, sold and released.
use flash_sale.Prelude.{◌+◌, ◌≤◌, List, [], ◌∷◌, ◌≡◌, refl, none, pos, true}
use flash_sale.Text.{Text, trim_space, is_blank}
use flash_sale.Result.{ok, err}
use flash_sale.Sql.{no_faults, find, update}
use flash_sale.Seckill.Model.{
  Activity, ActivityItem, SeckillDb, PurchaseReservation, published, enabled, no_limit,
  idempotency_conflict,
}
use flash_sale.Seckill.Rules.{sum_quantity}
use flash_sale.Seckill.Repository.{
  ledger_has, insert_stock_ledger, reserve_row, check_limit, check_user_limit,
  classify_reserve_miss, reserve_purchase_tx, release_tx, reserve_purchase,
  compensate_release_purchase, release_purchase_by_order,
}
use flash_sale.Seckill.Repository.History.{SeckillOp, purchase, compensate, apply_op, run}
use flash_sale.Seckill.Repository.Reconcile.{
  available_of, reserved_units, returned_units, run-available_of, run_never_oversells,
}
use flash_sale.Seckill.Repository.Admission.{
  Admitted, remaining, verdict, reserve_purchase-eq_verdict, reserve_purchase-Admitted,
}
use flash_sale.Seckill.Repository.Retry.{
  id_in, reserved_key_conflicts, compensated_key_is_spent, closed_key_is_spent,
}

abbrev sale : Activity
sale = record {
  id = 3;
  title = [];
  description = [];
  style_config_json = [];
  start_at = 100;
  end_at = 200;
  status = published;
  created_by = 1;
  updated_by = 1;
  created_at = 0;
  updated_at = 0;
  deleted_at = none;
}

abbrev lamps : ActivityItem
lamps = record {
  id = 5;
  activity_id = 3;
  product_id = 7;
  sku_code = [];
  snapshot_name = [];
  snapshot_main_image = [];
  origin_price_cent = 1999;
  seckill_price_cent = 999;
  reserved_stock_total = 10;
  available_stock = 10;
  sold_stock = 0;
  user_limit_mode = no_limit;
  user_limit_window_sec = 0;
  user_limit_qty = 4;
  max_qty_per_order = 4;
  status = enabled;
  created_at = 0;
  updated_at = 0;
}

abbrev pub market : SeckillDb
market = record { activities = sale ∷ []; items = lamps ∷ []; links = []; ledger = [] }

abbrev pub key_a : Text
key_a = 65 ∷ []

-- The reservation of three lamps by user 9.
abbrev three_lamps : PurchaseReservation
three_lamps = record { activity_id = 3; activity_item_id = 5; quantity = 3; remain_stock = 7 }

first_purchase :
    (reserve_purchase no_faults true 1000 (pos 3) (pos 5) 9 (pos 3) key_a 150 market).0
    ≡ ok three_lamps
unfolding reserve_purchase reserve_purchase_tx insert_stock_ledger ledger_has reserve_row
    check_limit check_user_limit classify_reserve_miss sum_quantity find update trim_space
first_purchase = refl

reserve_purchase-Admitted_example : Admitted true 3 5 9 3 150 market
reserve_purchase-Admitted_example =
    reserve_purchase-Admitted no_faults true 1000 (pos 3) (pos 5) 9 (pos 3) key_a 150 market refl
      first_purchase

reserve_purchase-eq_verdict_example :
    remaining (reserve_purchase no_faults true 1000 (pos 3) (pos 5) 9 (pos 3) key_a 150 market).0
    ≡ verdict true 3 5 9 3 150 market
unfolding ledger_has trim_space
reserve_purchase-eq_verdict_example =
    reserve_purchase-eq_verdict true 1000 (pos 3) (pos 5) 9 (pos 3) key_a 150 market refl refl

abbrev give_up : List SeckillOp
give_up = compensate no_faults 1001 (pos 3) (pos 5) (pos 3) key_a ∷ []

reserved_key_conflicts_example :
    let later =
      run give_up
        (reserve_purchase no_faults true 1000 (pos 3) (pos 5) 9 (pos 3) key_a 150 market).1 in
    reserve_purchase no_faults true 1002 (pos 3) (pos 5) 10 (pos 1) key_a 160 later
    ≡ (err idempotency_conflict, later)
reserved_key_conflicts_example =
    reserved_key_conflicts no_faults true 1000 (pos 3) (pos 5) 9 (pos 3) key_a 150 market
      first_purchase give_up true 1002 (pos 3) (pos 5) 10 (pos 1) key_a 160 refl refl

compensation :
    (compensate_release_purchase no_faults 1001 (pos 3) (pos 5) (pos 3) key_a market).0 ≡ ok tt
unfolding compensate_release_purchase release_tx insert_stock_ledger ledger_has find update
    trim_space is_blank
compensation = refl

compensated_key_is_spent_example :
    let later =
      run [] (compensate_release_purchase no_faults 1001 (pos 3) (pos 5) (pos 3) key_a market).1 in
    compensate_release_purchase no_faults 1002 (pos 3) (pos 5) (pos 3) key_a later ≡ (ok tt, later)
unfolding id_in
compensated_key_is_spent_example =
    compensated_key_is_spent no_faults 1001 (pos 3) (pos 5) (pos 3) key_a market compensation refl
      [] 1002 (pos 3) (pos 5) (pos 3) refl

closing :
    (release_purchase_by_order no_faults 1001 (pos 3) (pos 5) (pos 8) (pos 3) key_a market).0
    ≡ ok tt
unfolding release_purchase_by_order release_tx insert_stock_ledger ledger_has find update trim_space
    is_blank
closing = refl

closed_key_is_spent_example :
    let later =
      run give_up
        (release_purchase_by_order no_faults 1001 (pos 3) (pos 5) (pos 8) (pos 3) key_a market).1 in
    release_purchase_by_order no_faults 1002 (pos 3) (pos 5) (pos 8) (pos 3) key_a later
    ≡ (ok tt, later)
unfolding id_in
closed_key_is_spent_example =
    closed_key_is_spent no_faults 1001 (pos 3) (pos 5) (pos 8) (pos 3) key_a market closing refl
      give_up 1002 (pos 3) (pos 5) (pos 8) (pos 3) refl refl

abbrev trade : List SeckillOp
trade =
    purchase no_faults true 1000 (pos 3) (pos 5) 9 (pos 3) key_a 150
    ∷ purchase no_faults true 1001 (pos 3) (pos 5) 9 (pos 5) key_a 151
    ∷ give_up

trade_units : available_of 5 (run trade market) ≡ 10
unfolding run apply_op reserve_purchase reserve_purchase_tx insert_stock_ledger ledger_has
    reserve_row check_limit check_user_limit classify_reserve_miss sum_quantity find update
    trim_space compensate_release_purchase release_tx is_blank
trade_units = refl

run-available_of_example :
    available_of 5 (run trade market)
      + reserved_units 5 (run trade market).ledger
      + returned_units 5 market.ledger
    ≡ available_of 5 market
      + reserved_units 5 market.ledger
      + returned_units 5 (run trade market).ledger
run-available_of_example = run-available_of 5 trade market

run_never_oversells_example :
    reserved_units 5 (run trade market).ledger
    ≤ available_of 5 market + returned_units 5 (run trade market).ledger
run_never_oversells_example = run_never_oversells 5 trade market refl
