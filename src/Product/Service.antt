-- ===== src/Product/Service.antt =====
-- apps/product/rpc/internal/logic: the handlers of the product service. An error is its code; a
-- request that is there and a service that is initialised are taken for granted.
mod Forms
mod Stock
pub mod Trades
pub mod Valid
pub mod Calls
unfoldable pub use Forms.{
  normalize_name, normalize_main_image, normalize_description, normalize_price_cent,
  normalize_stock, normalize_status, check_form, normalize_pagination,
}
pub use Forms.{ProductForm, ProductFields}
unfoldable pub use Stock.{
  stock_error, reserve_stock_for_order, release_stock_for_order, reserve_stock_for_activity,
  release_stock_for_activity,
}
pub use Stock.{release_error}
use flash_sale.Prelude.{
  ℕ, ℤ, pos, positive, Bool, false, Option, none, some, List, [], ◌∷◌, ◌++◌, ◌/◌, ltb,
  if◌then◌else◌, map,
}
use flash_sale.Text.{Text, text, decimal, trim_space}
use flash_sale.Result.{Result, ok, err}
use flash_sale.Sql.{DriverErr}
use flash_sale.Errorx.{Code, sys_bad_request, db_error, product_sku_already_exists}
use flash_sale.Product.Model.{Product, ShelfStatus, ProductDb, ProductErr, driver}
use flash_sale.Product.Catalog.{
  is_duplicate_entry, create, update_product, soft_delete, find_by_id_admin, find_by_id_public,
  ListQuery, list_admin, list_public,
}

-- `generateSKU`
unfoldable pub generate_sku : ℕ → Text
generate_sku id = text "SPU" ++ decimal id

-- `AdminProduct`
pub record AdminProduct : Type 0 where
  pub product_id : ℕ
  pub sku_code : Text
  pub name : Text
  pub main_image : Text
  pub description : Text
  pub price_cent : ℕ
  pub stock : ℕ
  pub status : ShelfStatus
  pub created_at_unix : ℕ
  pub updated_at_unix : ℕ

-- `PublicProduct`: the stock itself is not shown.
pub record PublicProduct : Type 0 where
  pub product_id : ℕ
  pub sku_code : Text
  pub name : Text
  pub main_image : Text
  pub description : Text
  pub price_cent : ℕ
  pub in_stock : Bool

abbrev pub unix : ℕ → ℕ
unix nanos = nanos / 1000000000

abbrev pub to_admin_product : Product → AdminProduct
to_admin_product m = record {
  product_id = m.id;
  sku_code = m.sku_code;
  name = m.name;
  main_image = m.main_image;
  description = m.description;
  price_cent = m.price_cent;
  stock = m.stock;
  status = m.status;
  created_at_unix = unix m.created_at;
  updated_at_unix = unix m.updated_at;
}

abbrev pub to_public_product : Product → PublicProduct
to_public_product m = record {
  product_id = m.id;
  sku_code = m.sku_code;
  name = m.name;
  main_image = m.main_image;
  description = m.description;
  price_cent = m.price_cent;
  in_stock = ltb 0 m.stock;
}

-- The row of a checked form; `Create` and `Update` set the times.
abbrev pub product_of : ℕ → Text → ProductFields → Product
product_of id sku f = record {
  id = id;
  sku_code = sku;
  name = f.name;
  main_image = f.main_image;
  description = f.description;
  price_cent = f.price_cent;
  stock = f.stock;
  status = f.status;
  deleted_at = none;
  created_at = 0;
  updated_at = 0;
}

-- A missing product has its own code, every other error is the database's.
abbrev missing_or_db : ProductErr → Code
missing_or_db ProductErr.product_not_found = Code.product_not_found
missing_or_db _ = db_error

abbrev create_error : ProductErr → Code
create_error (driver e) =
    if is_duplicate_entry (some e) then product_sku_already_exists else db_error
create_error _ = db_error

abbrev view_or :
    {A B : Type 0} → (ProductErr → Code) → (A → B) → Result ProductErr A → Result Code B
view_or code view (ok a) = ok (view a)
view_or code view (err e) = err (code e)

abbrev Reply : Type 0 → Type 0
Reply A = Result Code A × ProductDb

abbrev pub created_reply :
    Option DriverErr → ℕ → Result ProductErr (Unit {0}) × ProductDb → Reply AdminProduct
created_reply find id (err e, db) = (err (create_error e), db)
created_reply find id (ok _, db) =
    (view_or (λ _. db_error) to_admin_product (find_by_id_admin find id db), db)

abbrev pub create_checked :
    Option DriverErr
    → Option DriverErr
    → ℕ
    → ℕ
    → ProductDb
    → Result Code ProductFields
    → Reply AdminProduct
create_checked fault find clock id db (err c) = (err c, db)
create_checked fault find clock id db (ok f) =
    created_reply find id (create fault clock (product_of id (generate_sku id) f) db)

-- `CreateProduct`; `id` is the snowflake node's.
unfoldable pub create_product :
    Option DriverErr → Option DriverErr → ℕ → ℕ → ProductForm → ProductDb → Reply AdminProduct
unfolding check_form
create_product fault find clock id form db = create_checked fault find clock id db (check_form form)

abbrev pub updated_reply :
    Option DriverErr → ℕ → Result ProductErr (Unit {0}) × ProductDb → Reply AdminProduct
updated_reply find id (err e, db) = (err (missing_or_db e), db)
updated_reply find id (ok _, db) =
    (view_or missing_or_db to_admin_product (find_by_id_admin find id db), db)

abbrev pub update_checked :
    Option DriverErr
    → Option DriverErr
    → Option DriverErr
    → ℕ
    → ℕ
    → ProductDb
    → Result Code ProductFields
    → Reply AdminProduct
update_checked fault rows find clock id db (err c) = (err c, db)
update_checked fault rows find clock id db (ok f) =
    updated_reply find id (update_product fault rows clock (product_of id [] f) db)

abbrev pub with_id : {A : Type 0} → Option ℕ → ProductDb → (ℕ → Reply A) → Reply A
with_id none db k = (err sys_bad_request, db)
with_id (some id) db k = k id

-- `UpdateProduct`
unfoldable pub update_product_form :
    Option DriverErr
    → Option DriverErr
    → Option DriverErr
    → ℕ
    → ℤ
    → ProductForm
    → ProductDb
    → Reply AdminProduct
unfolding check_form
update_product_form fault rows find clock product_id form db =
    with_id (positive product_id) db
      λ id. update_checked fault rows find clock id db (check_form form)

abbrev pub deleted_reply : ℕ → Result ProductErr (Unit {0}) × ProductDb → Reply ℕ
deleted_reply id (r, db) = (view_or missing_or_db (λ _. id) r, db)

-- `DeleteProduct`
unfoldable pub delete_product :
    Option DriverErr → Option DriverErr → ℕ → ℤ → ℕ → ProductDb → Reply ℕ
delete_product fault rows clock product_id now db =
    with_id (positive product_id) db λ id. deleted_reply id (soft_delete fault rows clock id now db)

-- `GetProductAdmin`, `GetProductPublic`
unfoldable pub get_product_admin : Option DriverErr → ℤ → ProductDb → Result Code AdminProduct
get_product_admin fault product_id db = elim (positive product_id) [
  | none ↦ err sys_bad_request
  | some id ↦ view_or missing_or_db to_admin_product (find_by_id_admin fault id db)
]

unfoldable pub get_product_public : Option DriverErr → ℤ → ProductDb → Result Code PublicProduct
get_product_public fault product_id db = elim (positive product_id) [
  | none ↦ err sys_bad_request
  | some id ↦ view_or missing_or_db to_public_product (find_by_id_public fault id db)
]

-- One page of a list, and the number of products in all.
pub record ListResult (A : Type 0) : Type 0 where
  pub list : List A
  pub total : ℕ
  pub page : ℕ
  pub page_size : ℕ

abbrev listed :
    {A : Type 0}
    → (Product → A)
    → ℕ × ℕ
    → Result ProductErr (List Product × ℕ)
    → Result Code (ListResult A)
listed view bounds (err e) = err db_error
listed view bounds (ok (rows, total)) =
    ok (record { list = map view rows; total = total; page = bounds.0; page_size = bounds.1 })

abbrev query_of : ℤ → ℤ → Text → Bool → ListQuery
query_of page page_size keyword include_deleted =
    let bounds = normalize_pagination page page_size in
    record {
      page = pos bounds.0;
      page_size = pos bounds.1;
      keyword = trim_space keyword;
      include_deleted = include_deleted;
    }

module _ (like : Text → Text → Bool) (newest_first : ℕ → ℕ → List Product → List Product) where
  -- `ListProductsAdmin`, `ListProductsPublic`
  unfoldable pub list_products_admin :
      Option DriverErr
      → Option DriverErr
      → ℤ
      → ℤ
      → Text
      → Bool
      → ProductDb
      → Result Code (ListResult AdminProduct)
  unfolding normalize_pagination
  list_products_admin count fault page page_size keyword include_deleted db =
      listed to_admin_product (normalize_pagination page page_size) (
        list_admin like newest_first count fault (query_of page page_size keyword include_deleted)
          db)

  unfoldable pub list_products_public :
      Option DriverErr
      → Option DriverErr
      → ℤ
      → ℤ
      → Text
      → ProductDb
      → Result Code (ListResult PublicProduct)
  unfolding normalize_pagination
  list_products_public count fault page page_size keyword db =
      listed to_public_product (normalize_pagination page page_size)
        (list_public like newest_first count fault (query_of page page_size keyword false) db)
