-- ===== src/Product/Service/Trades.antt =====
-- The stock calls of the product service, whatever they answer, make stock operations of the
-- repository only.
use flash_sale.Prelude.{
  ℕ, ℤ, Bool, true, false, Option, none, some, List, [], ◌∷◌, ◌≡◌, refl, if◌then◌else◌,
}
use flash_sale.Text.{Text}
use flash_sale.Result.{Result, ok, err}
use flash_sale.Sql.{Faults}
use flash_sale.Errorx.{Code, sys_bad_request}
use flash_sale.Product.Model.{ProductDb, ProductErr}
use flash_sale.Product.Repository.History
use flash_sale.Product.Repository.History.{StockOp, reserve, release}
use flash_sale.Product.Service.Stock.{
  coded, guarded_call, reserve_stock_for_order, release_stock_for_order, reserve_stock_for_activity,
  release_stock_for_activity,
}

-- A history of stock operations.
pub record Trades (db db' : ProductDb) : Type 0 where
  pub ops : List StockOp
  pub done : db' ≡ History.run ops db

coded_db : (code : ProductErr → Code) (r : Result ProductErr ℕ × ProductDb) → (coded code r).1 ≡ r.1
coded_db code (ok n, db) = refl
coded_db code (err e, db) = refl

pub unmoved : (db : ProductDb) → Trades db db
unfolding History.run
unmoved db = record { ops = []; done = refl }

traded_once : (op : StockOp) (db : ProductDb) → Trades db (History.apply_op op db).1
unfolding History.run
traded_once op db = record { ops = op ∷ []; done = refl }

guarded-Trades :
    (id : Option ℕ) (quantity : ℤ) (blanks : List Bool) (code : ProductErr → Code) (db : ProductDb)
    (op : ℕ → StockOp)
    → Trades db (guarded_call id quantity blanks code db (λ n. History.apply_op (op n) db)).1
guarded-Trades none quantity blanks code db op = unmoved db
guarded-Trades (some n) quantity blanks code db op = blocked _
  where
    blocked :
        (b : Bool)
        → Trades db
            (if b then (err sys_bad_request, db) else coded code (History.apply_op (op n) db)).1
    blocked true = unmoved db
    blocked false = rw (coded_db code (History.apply_op (op n) db)) (traded_once (op n) db)

pub reserve_stock_for_order-Trades :
    (faults : Faults) (now : ℕ) (product_id quantity : ℤ) (order_no key : Text) (db : ProductDb)
    → Trades db (reserve_stock_for_order faults now product_id quantity order_no key db).1
unfolding reserve_stock_for_order History.apply_op
reserve_stock_for_order-Trades faults now product_id quantity order_no key db =
    guarded-Trades _ quantity _ _ db (λ n. reserve faults now n quantity key)

pub release_stock_for_order-Trades :
    (faults : Faults) (now : ℕ) (product_id quantity : ℤ) (order_no key : Text) (db : ProductDb)
    → Trades db (release_stock_for_order faults now product_id quantity order_no key db).1
unfolding release_stock_for_order History.apply_op
release_stock_for_order-Trades faults now product_id quantity order_no key db =
    guarded-Trades _ quantity _ _ db (λ n. release faults now n quantity key)

pub reserve_stock_for_activity-Trades :
    (faults : Faults) (now : ℕ) (product_id quantity activity_id item_id : ℤ) (key : Text)
    (db : ProductDb)
    → Trades db
        (reserve_stock_for_activity faults now product_id quantity activity_id item_id key db).1
unfolding reserve_stock_for_activity History.apply_op
reserve_stock_for_activity-Trades faults now product_id quantity activity_id item_id key db =
    guarded-Trades _ quantity _ _ db (λ n. reserve faults now n quantity key)

pub release_stock_for_activity-Trades :
    (faults : Faults) (now : ℕ) (product_id quantity activity_id item_id : ℤ) (key : Text)
    (db : ProductDb)
    → Trades db
        (release_stock_for_activity faults now product_id quantity activity_id item_id key db).1
unfolding release_stock_for_activity History.apply_op
release_stock_for_activity-Trades faults now product_id quantity activity_id item_id key db =
    guarded-Trades _ quantity _ _ db (λ n. release faults now n quantity key)
