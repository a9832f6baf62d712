-- ===== src/Product/Service/Calls.antt =====
-- apps/product/rpc/internal/logic: any sequence of calls of the product service.
use flash_sale.Prelude.{ℕ, ℤ, Option, none, some, List, [], ◌∷◌, ◌≡◌, refl, positive}
use flash_sale.Text.{Text}
use flash_sale.Result.{Result, ok, err}
use flash_sale.Sql.{DriverErr, Faults, All, All-update}
use flash_sale.Errorx.{Code}
use flash_sale.Product.Model.{Product, ProductDb, ProductErr, stock_reserve, stock_release}
use flash_sale.Product.Repository.{take_stock, add_stock, reserve_stock_tx, release_stock_tx}
use flash_sale.Product.Repository.History
use flash_sale.Product.Repository.History.{
  StockOp, reserve, release, GuardedRun, refused, succeeded, reserve_run, release_run,
}
use flash_sale.Product.Repository.Idempotency.{replayed, performed, claimed}
use flash_sale.Product.Repository.Bounds.{reserve_stock_tx-Took, release_stock_tx-Gave}
use flash_sale.Product.Catalog.{update_product}
use flash_sale.Product.Service.Forms.{ProductForm, ProductFields}
use flash_sale.Product.Service.Stock.{
  reserve_stock_for_order, release_stock_for_order, reserve_stock_for_activity,
  release_stock_for_activity,
}
use flash_sale.Product.Service.{
  product_of, create_product, create_checked, created_reply, update_product_form, update_checked,
  updated_reply, delete_product, with_id,
}
use flash_sale.Product.Service.Trades.{
  Trades, reserve_stock_for_order-Trades, release_stock_for_order-Trades,
  reserve_stock_for_activity-Trades, release_stock_for_activity-Trades,
}
use flash_sale.Product.Service.Valid.{
  IsValid, FieldsValid, check_form-FieldsValid, create-All, update_product-All, soft_delete-All,
}

-- A call of the product service that writes, with all it meets.
pub data Call : Type 0 where
  creates : Option DriverErr → Option DriverErr → ℕ → ℕ → ProductForm → Call
  updates : Option DriverErr → Option DriverErr → Option DriverErr → ℕ → ℤ → ProductForm → Call
  deletes : Option DriverErr → Option DriverErr → ℕ → ℤ → ℕ → Call
  reserves_for_order : Faults → ℕ → ℤ → ℤ → Text → Text → Call
  releases_for_order : Faults → ℕ → ℤ → ℤ → Text → Text → Call
  reserves_for_activity : Faults → ℕ → ℤ → ℤ → ℤ → ℤ → Text → Call
  releases_for_activity : Faults → ℕ → ℤ → ℤ → ℤ → ℤ → Text → Call

unfoldable pub serve : Call → ProductDb → ProductDb
serve (creates fault find clock id form) db = (create_product fault find clock id form db).1
serve (updates fault rows find clock product_id form) db =
    (update_product_form fault rows find clock product_id form db).1
serve (deletes fault rows clock product_id now) db =
    (delete_product fault rows clock product_id now db).1
serve (reserves_for_order faults now id quantity order_no key) db =
    (reserve_stock_for_order faults now id quantity order_no key db).1
serve (releases_for_order faults now id quantity order_no key) db =
    (release_stock_for_order faults now id quantity order_no key db).1
serve (reserves_for_activity faults now id quantity activity item key) db =
    (reserve_stock_for_activity faults now id quantity activity item key db).1
serve (releases_for_activity faults now id quantity activity item key) db =
    (release_stock_for_activity faults now id quantity activity item key db).1

unfoldable pub serve_all : List Call → ProductDb → ProductDb
unfolding serve
serve_all [] db = db
serve_all (c ∷ cs) db = serve_all cs (serve c db)

module _ (P : Product → Type 0) (takes : (q : ℕ) (r : Product) → P r → P (take_stock q r))
    (gives : (q : ℕ) (r : Product) → P r → P (add_stock q r)) where
  reserved-All :
      (faults : Faults) (now pid : ℕ) (quantity : ℤ) (key : Text) (db : ProductDb)
      (r : Result ProductErr ℕ × ProductDb)
      → GuardedRun faults now stock_reserve key (reserve_stock_tx faults pid) quantity db r
      → All P db.products
      → All P r.1.products
  reserved-All faults now pid quantity key db r (refused e p) a = rw p a
  reserved-All faults now pid quantity key db r (succeeded q n p b o (replayed rec f x e)) a =
      rw e a
  reserved-All faults now pid quantity key db r (succeeded q n p b o (performed mid f x e)) a =
      let t = reserve_stock_tx-Took faults pid q (claimed now stock_reserve key db) n mid x in
      rw (e, t.written)
        (All-update (λ z. z.id) P pid (take_stock q) db.products (λ z _. takes q z) a)

  released-All :
      (faults : Faults) (now pid : ℕ) (quantity : ℤ) (key : Text) (db : ProductDb)
      (r : Result ProductErr ℕ × ProductDb)
      → GuardedRun faults now stock_release key (release_stock_tx faults pid) quantity db r
      → All P db.products
      → All P r.1.products
  released-All faults now pid quantity key db r (refused e p) a = rw p a
  released-All faults now pid quantity key db r (succeeded q n p b o (replayed rec f x e)) a =
      rw e a
  released-All faults now pid quantity key db r (succeeded q n p b o (performed mid f x e)) a =
      let t = release_stock_tx-Gave faults pid q (claimed now stock_release key db) n mid x in
      rw (e, t.written)
        (All-update (λ z. z.id) P pid (add_stock q) db.products (λ z _. gives q z) a)

  run-All :
      (ops : List StockOp) (db : ProductDb)
      → All P db.products
      → All P (History.run ops db).products
  unfolding History.run History.apply_op
  run-All [] db a = a
  run-All (reserve faults now pid quantity key ∷ ops) db a =
      run-All ops _ (
        reserved-All faults now pid quantity key db _ (reserve_run faults now pid quantity key db)
          a)
  run-All (release faults now pid quantity key ∷ ops) db a =
      run-All ops _ (
        released-All faults now pid quantity key db _ (release_run faults now pid quantity key db)
          a)

-- A row whose texts and price are another's is as valid.
IsValid-same :
    (r s : Product)
    → s.name ≡ r.name
    → s.main_image ≡ r.main_image
    → s.description ≡ r.description
    → s.price_cent ≡ r.price_cent
    → IsValid r
    → IsValid s
IsValid-same r s n m d p v = record {
  name = rw n v.name;
  main_image = rw m v.main_image;
  description = rw d v.description;
  price = rw p v.price;
}

traded-IsValid :
    (db db' : ProductDb) → Trades db db' → All IsValid db.products → All IsValid db'.products
traded-IsValid db db' t a = rw t.done (
    run-All IsValid (λ q r. IsValid-same r (take_stock q r) refl refl refl refl)
      (λ q r. IsValid-same r (add_stock q r) refl refl refl refl) t.ops db a)

created-IsValid :
    (find : Option DriverErr) (id : ℕ) (r : Result ProductErr (Unit {0}) × ProductDb)
    → All IsValid r.1.products
    → All IsValid (created_reply find id r).1.products
created-IsValid find id (ok _, db) a = a
created-IsValid find id (err e, db) a = a

updated-IsValid :
    (find : Option DriverErr) (id : ℕ) (r : Result ProductErr (Unit {0}) × ProductDb)
    → All IsValid r.1.products
    → All IsValid (updated_reply find id r).1.products
updated-IsValid find id (ok _, db) a = a
updated-IsValid find id (err e, db) a = a

create_checked-IsValid :
    (fault find : Option DriverErr) (clock id : ℕ) (db : ProductDb) (r : Result Code ProductFields)
    → ((f : ProductFields) → r ≡ ok f → FieldsValid f)
    → All IsValid db.products
    → All IsValid (create_checked fault find clock id db r).1.products
create_checked-IsValid fault find clock id db (err c) v a = a
create_checked-IsValid fault find clock id db (ok f) v a =
    let w = v f refl in
    created-IsValid find id _ (
      create-All IsValid fault clock _ db
        (record {
          name = w.name;
          main_image = w.main_image;
          description = w.description;
          price = w.price;
        })
        a)

update_checked-IsValid :
    (fault rows find : Option DriverErr) (clock id : ℕ) (db : ProductDb)
    (r : Result Code ProductFields)
    → ((f : ProductFields) → r ≡ ok f → FieldsValid f)
    → All IsValid db.products
    → All IsValid (update_checked fault rows find clock id db r).1.products
update_checked-IsValid fault rows find clock id db (err c) v a = a
update_checked-IsValid fault rows find clock id db (ok f) v a =
    let w = v f refl in
    updated-IsValid find id (update_product fault rows clock (product_of id [] f) db) (
      update_product-All IsValid fault rows clock (product_of id [] f) db
        (λ r _. record {
          name = w.name;
          main_image = w.main_image;
          description = w.description;
          price = w.price;
        })
        a)

with_id-IsValid :
    {A : Type 0} (o : Option ℕ) (db : ProductDb) (k : ℕ → Result Code A × ProductDb)
    → All IsValid db.products
    → ((id : ℕ) → All IsValid (k id).1.products)
    → All IsValid (with_id o db k).1.products
with_id-IsValid none db k a h = a
with_id-IsValid (some id) db k a h = h id

serve-IsValid :
    (c : Call) (db : ProductDb) → All IsValid db.products → All IsValid (serve c db).products
unfolding serve create_product update_product_form delete_product
serve-IsValid (creates fault find clock id form) db a =
    create_checked-IsValid fault find clock id db _ (λ f e. check_form-FieldsValid form f e) a
serve-IsValid (updates fault rows find clock product_id form) db a =
    with_id-IsValid (positive product_id) db _ a (λ id.
      update_checked-IsValid fault rows find clock id db _ (λ f e. check_form-FieldsValid form f e)
        a)
serve-IsValid (deletes fault rows clock product_id now) db a =
    with_id-IsValid (positive product_id) db _ a (λ id.
      soft_delete-All IsValid fault rows clock id now db
        (λ r v. IsValid-same r _ refl refl refl refl v) a)
serve-IsValid (reserves_for_order faults now id quantity order_no key) db a =
    traded-IsValid db _ (reserve_stock_for_order-Trades faults now id quantity order_no key db) a
serve-IsValid (releases_for_order faults now id quantity order_no key) db a =
    traded-IsValid db _ (release_stock_for_order-Trades faults now id quantity order_no key db) a
serve-IsValid (reserves_for_activity faults now id quantity activity item key) db a =
    traded-IsValid db _
      (reserve_stock_for_activity-Trades faults now id quantity activity item key db) a
serve-IsValid (releases_for_activity faults now id quantity activity item key) db a =
    traded-IsValid db _
      (release_stock_for_activity-Trades faults now id quantity activity item key db) a

-- Whatever the forms hold and whatever fails, any sequence of calls of the product service keeps
-- every stored product valid: a name of 1 to 100 characters, an image address of 1 to 512, a
-- description of at most 2000 and a positive price.
pub serve_all-IsValid :
    (cs : List Call) (db : ProductDb)
    → All IsValid db.products
    → All IsValid (serve_all cs db).products
unfolding serve_all
serve_all-IsValid [] db a = a
serve_all-IsValid (c ∷ cs) db a = serve_all-IsValid cs (serve c db) (serve-IsValid c db a)
