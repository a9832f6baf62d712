-- ===== src/Product/Service/Stock.antt =====
-- apps/product/rpc/internal/logic/stock_order_logic.go: the stock calls of the order service and of
-- the seckill service.
use flash_sale.Prelude.{
  ℕ, ℤ, positive, Bool, false, not, ◌||◌, Option, none, some, List, [], ◌∷◌, is_some, if◌then◌else◌,
}
use flash_sale.Text.{Text, is_blank}
use flash_sale.Result.{Result, ok, err}
use flash_sale.Sql.{Faults}
use flash_sale.Errorx.{
  Code, sys_bad_request, sys_internal, db_error, order_out_of_stock, seckill_out_of_stock,
}
use flash_sale.Product.Model.{ProductDb, ProductErr, stock_not_enough, idempotency_in_progress}
use flash_sale.Product.Repository.{reserve_stock, release_stock}

-- The error of a stock call; `sold_out` is the code that its caller wants for missing stock.
unfoldable pub stock_error : Code → ProductErr → Code
stock_error sold_out ProductErr.product_not_found = Code.product_not_found
stock_error sold_out stock_not_enough = sold_out
stock_error sold_out idempotency_in_progress = sys_internal
stock_error sold_out _ = db_error

-- The error of a release: `ErrStockNotEnough` falls to its default.
abbrev pub release_error : ProductErr → Code
release_error = stock_error db_error

abbrev pub coded : (ProductErr → Code) → Result ProductErr ℕ × ProductDb → Result Code ℕ × ProductDb
coded code (ok remain, db) = (ok remain, db)
coded code (err e, db) = (err (code e), db)

-- A test of the guard fires.
abbrev pub any_of : List Bool → Bool
any_of [] = false
any_of (b ∷ bs) = b || any_of bs

-- The guards of the four stock calls, and the call behind them.
abbrev pub guarded_call :
    Option ℕ
    → ℤ
    → List Bool
    → (ProductErr → Code)
    → ProductDb
    → (ℕ → Result ProductErr ℕ × ProductDb)
    → Result Code ℕ × ProductDb
guarded_call none quantity blanks code db call = (err sys_bad_request, db)
guarded_call (some id) quantity blanks code db call =
    if not (is_some (positive quantity)) || any_of blanks
    then (err sys_bad_request, db)
    else coded code (call id)

-- `ReserveStockForOrder`, `ReleaseStockForOrder`
unfoldable pub reserve_stock_for_order :
    Faults → ℕ → ℤ → ℤ → Text → Text → ProductDb → Result Code ℕ × ProductDb
unfolding stock_error
reserve_stock_for_order faults now product_id quantity order_no key db =
    guarded_call (positive product_id) quantity (is_blank order_no ∷ is_blank key ∷ [])
      (stock_error order_out_of_stock) db (λ id. reserve_stock faults now id quantity key db)

unfoldable pub release_stock_for_order :
    Faults → ℕ → ℤ → ℤ → Text → Text → ProductDb → Result Code ℕ × ProductDb
unfolding stock_error
release_stock_for_order faults now product_id quantity order_no key db =
    guarded_call (positive product_id) quantity (is_blank order_no ∷ is_blank key ∷ [])
      release_error db (λ id. release_stock faults now id quantity key db)

-- `ReserveStockForActivity`, `ReleaseStockForActivity`
unfoldable pub reserve_stock_for_activity :
    Faults → ℕ → ℤ → ℤ → ℤ → ℤ → Text → ProductDb → Result Code ℕ × ProductDb
unfolding stock_error
reserve_stock_for_activity faults now product_id quantity activity_id item_id key db =
    guarded_call (positive product_id) quantity
      (not (is_some (positive activity_id)) ∷ not (is_some (positive item_id)) ∷ is_blank key ∷ [])
      (stock_error seckill_out_of_stock) db (λ id. reserve_stock faults now id quantity key db)

unfoldable pub release_stock_for_activity :
    Faults → ℕ → ℤ → ℤ → ℤ → ℤ → Text → ProductDb → Result Code ℕ × ProductDb
unfolding stock_error
release_stock_for_activity faults now product_id quantity activity_id item_id key db =
    guarded_call (positive product_id) quantity
      (not (is_some (positive activity_id)) ∷ not (is_some (positive item_id)) ∷ is_blank key ∷ [])
      release_error db (λ id. release_stock faults now id quantity key db)
