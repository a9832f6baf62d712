-- ===== src/Witness/Stock.antt =====
-- A product with ten units, reserved, released and reserved again.
use flash_sale.Prelude.{◌+◌, List, [], ◌∷◌, ◌≡◌, ◌≢◌, refl, none, pos, arith}
use flash_sale.Text.{Text, trim_space, is_blank}
use flash_sale.Result.{ok, err}
use flash_sale.Sql.{no_faults, find, update}
use flash_sale.Product.Model.{Product, on_shelf, ProductDb, idempotency_in_progress}
use flash_sale.Product.Repository.{
  reserve_stock, release_stock, stock_tx, lock_idempotency_record_tx, mark_idempotency_done_tx,
  reserve_stock_tx, release_stock_tx, find_record, mark_done,
}
use flash_sale.Product.Repository.History.{StockOp, reserve, release, apply_op, run}
use flash_sale.Product.Repository.Verdict.{
  reserve_verdict, release_verdict, reserve_stock-eq_verdict, release_stock-eq_verdict,
}
use flash_sale.Product.Repository.Retry.{reserved_key_is_spent, released_key_is_spent}
use flash_sale.Product.Repository.Conservation.{
  run-stock_of, taken, given, total_taken, total_given,
}
use flash_sale.Product.Repository.Bounds.{stock_of}
use flash_sale.Product.Repository.WellFormed.{
  WellFormed, apply_op-WellFormed, apply_op_never_in_progress,
}

abbrev pub lamp : Product
lamp = record {
  id = 7;
  sku_code = [];
  name = [];
  main_image = [];
  description = [];
  price_cent = 1999;
  stock = 10;
  status = on_shelf;
  deleted_at = none;
  created_at = 0;
  updated_at = 0;
}

abbrev pub shop : ProductDb
shop = record { products = lamp ∷ []; records = [] }

abbrev key_a : Text
key_a = 65 ∷ []

abbrev key_b : Text
key_b = 66 ∷ []

first_reserve : (reserve_stock no_faults 0 7 (pos 4) key_a shop).0 ≡ ok 6
unfolding reserve_stock is_blank trim_space stock_tx lock_idempotency_record_tx
    mark_idempotency_done_tx reserve_stock_tx find_record find update mark_done
first_reserve = refl

-- Of ten lamps, eleven are not to be had.
reserve_stock-eq_verdict_example :
    (reserve_stock no_faults 0 7 (pos 11) key_a shop).0 ≡ reserve_verdict 7 (pos 11) key_a shop
reserve_stock-eq_verdict_example = reserve_stock-eq_verdict 0 7 (pos 11) key_a shop

release_stock-eq_verdict_example :
    (release_stock no_faults 0 8 (pos 2) key_a shop).0 ≡ release_verdict 8 (pos 2) key_a shop
release_stock-eq_verdict_example = release_stock-eq_verdict 0 8 (pos 2) key_a shop

abbrev put_back : List StockOp
put_back = release no_faults 5 7 (pos 4) key_b ∷ []

reserved_key_is_spent_example :
    let later = run put_back (reserve_stock no_faults 0 7 (pos 4) key_a shop).1 in
    reserve_stock no_faults 9 7 (pos 4) key_a later ≡ (ok 6, later)
reserved_key_is_spent_example =
    reserved_key_is_spent no_faults 0 7 (pos 4) key_a shop first_reserve put_back 9 7 (pos 4) refl

abbrev trade : List StockOp
trade =
    reserve no_faults 0 7 (pos 4) key_a
    ∷ reserve no_faults 1 7 (pos 4) key_a
    ∷ reserve no_faults 2 7 (pos 9) key_b
    ∷ release no_faults 3 7 (pos 1) key_b
    ∷ []

trade_totals : (total_taken 7 trade shop ≡ 4) × (total_given 7 trade shop ≡ 1)
unfolding total_taken total_given taken given apply_op reserve_stock release_stock is_blank
    trim_space stock_tx lock_idempotency_record_tx mark_idempotency_done_tx reserve_stock_tx
    release_stock_tx find_record find update mark_done
trade_totals = (refl, refl)

run-stock_of_example :
    stock_of 7 (run trade shop) + total_taken 7 trade shop
    ≡ stock_of 7 shop + total_given 7 trade shop
run-stock_of_example = run-stock_of 7 trade shop

shop-WellFormed : WellFormed shop
shop-WellFormed = omega arith

apply_op-WellFormed_example : WellFormed (apply_op (reserve no_faults 0 7 (pos 4) key_a) shop).1
apply_op-WellFormed_example =
    apply_op-WellFormed (reserve no_faults 0 7 (pos 4) key_a) shop shop-WellFormed

apply_op_never_in_progress_example :
    (apply_op (reserve no_faults 0 7 (pos 4) key_a) shop).0 ≢ err idempotency_in_progress
apply_op_never_in_progress_example =
    apply_op_never_in_progress (reserve no_faults 0 7 (pos 4) key_a) shop shop-WellFormed

first_release : (release_stock no_faults 0 7 (pos 4) key_a shop).0 ≡ ok 14
unfolding release_stock is_blank trim_space stock_tx lock_idempotency_record_tx
    mark_idempotency_done_tx release_stock_tx find_record find update mark_done
first_release = refl

released_key_is_spent_example :
    let later = run put_back (release_stock no_faults 0 7 (pos 4) key_a shop).1 in
    release_stock no_faults 9 7 (pos 4) key_a later ≡ (ok 14, later)
released_key_is_spent_example =
    released_key_is_spent no_faults 0 7 (pos 4) key_a shop first_release put_back 9 7 (pos 4) refl
