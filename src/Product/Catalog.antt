-- ===== src/Product/Catalog.antt =====
-- apps/product/rpc/internal/repository/mysql_product_repository.go: the products themselves, without
-- their stock operations. Each statement commits by itself. The server's LIKE, whose collation and
-- wildcards are MySQL's, and its order by creation time, whose ties are open, are parameters.
pub mod Deleted
pub mod Pages
use flash_sale.Prelude.{
  ℕ, zero, suc, ℤ, pos, negsuc, positive, ◌+◌, ◌-◌, ◌*◌, Bool, true, false, not, ◌&&◌, ◌||◌, Option,
  none, some, List, [], ◌∷◌, ◌++◌, nat_beq, ltb, is_some, if◌then◌else◌, length, take, drop, select,
}
use flash_sale.Text.{Text, text, text_beq, trim_space, is_blank}
use flash_sale.Result.{Result, ok, err}
use flash_sale.Sql.{DriverErr, mysql_error, find, update, insert}
use flash_sale.Product.Model.{
  Product, ShelfStatus, off_shelf, on_shelf, is_on_shelf, ProductDb, ProductErr, product_not_found,
  driver, u32_max,
}

abbrev pub Answer : Type 0 → Type 0
Answer A = Result ProductErr A × ProductDb

-- Whether a row breaks the primary key or `uk_products_sku_code`.
unfoldable pub product_taken : ℕ → Text → List Product → Bool
product_taken id sku [] = false
product_taken id sku (r ∷ rs) =
    nat_beq r.id id || text_beq r.sku_code sku || product_taken id sku rs

-- `IsDuplicateEntry`
unfoldable pub is_duplicate_entry : Option DriverErr → Bool
is_duplicate_entry (some (mysql_error number message)) = nat_beq number 1062
is_duplicate_entry _ = false

abbrev duplicate_entry : DriverErr
duplicate_entry = mysql_error 1062 (text "Duplicate entry")

abbrev stock_out_of_range : DriverErr
stock_out_of_range = mysql_error 1264 (text "Out of range value for column 'stock'")

-- The row that `insertProductSQL` makes: the columns that it leaves out have their defaults.
abbrev pub fresh_row : ℕ → Product → Product
fresh_row clock p = record p { deleted_at = none; created_at = clock; updated_at = clock }

-- `Create`
unfoldable pub create : Option DriverErr → ℕ → Product → ProductDb → Answer (Unit {0})
create (some e) clock p db = (err (driver e), db)
create none clock p db =
    if ltb u32_max p.stock
    then (err (driver stock_out_of_range), db)
    else if product_taken p.id p.sku_code db.products
    then (err (driver duplicate_entry), db)
    else (ok tt, record db { products = insert (λ r. r.id) (fresh_row clock p) db.products })

abbrev same_status : ShelfStatus → ShelfStatus → Bool
same_status off_shelf off_shelf = true
same_status on_shelf on_shelf = true
same_status _ _ = false

-- The columns that `updateProductSQL` sets are as they were.
abbrev pub same_columns : Product → Product → Bool
same_columns p r =
    text_beq p.name r.name
    && text_beq p.main_image r.main_image
    && text_beq p.description r.description
    && nat_beq p.price_cent r.price_cent
    && nat_beq p.stock r.stock
    && same_status p.status r.status

abbrev pub set_columns : ℕ → Product → Product → Product
set_columns clock p r = record r {
  name = p.name;
  main_image = p.main_image;
  description = p.description;
  price_cent = p.price_cent;
  stock = p.stock;
  status = p.status;
  updated_at = clock;
}

-- `RowsAffected` and the test `rows == 0`, once the statement has committed.
abbrev pub rows_affected : Option DriverErr → Bool → ProductDb → Answer (Unit {0})
rows_affected (some e) changed db = (err (driver e), db)
rows_affected none true db = (ok tt, db)
rows_affected none false db = (err product_not_found, db)

abbrev pub update_row :
    Option DriverErr → ℕ → Product → ProductDb → Option Product → Answer (Unit {0})
update_row rows clock p db none = rows_affected rows false db
update_row rows clock p db (some r) =
    if is_some r.deleted_at
    then rows_affected rows false db
    else if ltb u32_max p.stock
    then (err (driver stock_out_of_range), db)
    else if same_columns p r
    then rows_affected rows false db
    else rows_affected rows true
        (record db { products = update (λ x. x.id) p.id (set_columns clock p) db.products })

-- `Update`: the connection does not ask for found rows, so a row that is as it was counts as none.
unfoldable pub update_product :
    Option DriverErr → Option DriverErr → ℕ → Product → ProductDb → Answer (Unit {0})
update_product (some e) rows clock p db = (err (driver e), db)
update_product none rows clock p db = update_row rows clock p db (find (λ r. r.id) p.id db.products)

abbrev pub bury : ℕ → ℕ → Product → Product
bury clock at r = record r { deleted_at = some at; status = off_shelf; updated_at = clock }

abbrev pub delete_row :
    Option DriverErr → ℕ → ℕ → ℕ → ProductDb → Option Product → Answer (Unit {0})
delete_row rows clock id at db none = rows_affected rows false db
delete_row rows clock id at db (some r) =
    if is_some r.deleted_at
    then rows_affected rows false db
    else rows_affected rows true
        (record db { products = update (λ x. x.id) id (bury clock at) db.products })

-- `SoftDelete`
unfoldable pub soft_delete :
    Option DriverErr → Option DriverErr → ℕ → ℕ → ℕ → ProductDb → Answer (Unit {0})
soft_delete (some e) rows clock id at db = (err (driver e), db)
soft_delete none rows clock id at db =
    delete_row rows clock id at db (find (λ r. r.id) id db.products)

abbrev visible_to_admin : Product → Bool
visible_to_admin p = not (is_some p.deleted_at)

abbrev pub visible_to_public : Product → Bool
visible_to_public p = is_on_shelf p.status && not (is_some p.deleted_at)

abbrev found_if : (Product → Bool) → Option Product → Result ProductErr Product
found_if visible none = err product_not_found
found_if visible (some p) = if visible p then ok p else err product_not_found

-- `findOne`
unfoldable find_one :
    Option DriverErr → (Product → Bool) → ℕ → ProductDb → Result ProductErr Product
find_one (some e) visible id db = err (driver e)
find_one none visible id db = found_if visible (find (λ r. r.id) id db.products)

-- `FindByIDAdmin`, `FindByIDPublic`
unfoldable pub find_by_id_admin : Option DriverErr → ℕ → ProductDb → Result ProductErr Product
unfolding find_one
find_by_id_admin fault id db = find_one fault visible_to_admin id db

unfoldable pub find_by_id_public : Option DriverErr → ℕ → ProductDb → Result ProductErr Product
unfolding find_one
find_by_id_public fault id db = find_one fault visible_to_public id db

-- `ListQuery`
pub record ListQuery : Type 0 where
  pub page : ℤ
  pub page_size : ℤ
  pub keyword : Text
  pub include_deleted : Bool

abbrev or_default : ℕ → Option ℕ → ℕ
or_default d none = d
or_default d (some n) = n

abbrev pub page_of : ListQuery → ℕ
page_of query = or_default 1 (positive query.page)

abbrev pub page_size_of : ListQuery → ℕ
page_size_of query = or_default 20 (positive query.page_size)

module _ (like : Text → Text → Bool) where
  -- The `WHERE` that `buildListWhere` makes, at a row.
  unfoldable pub list_where : Text → Bool → Bool → Product → Bool
  list_where keyword include_deleted public_only p =
      (include_deleted || not (is_some p.deleted_at))
      && (not public_only || is_on_shelf p.status)
      && (is_blank keyword || like p.name (text "%" ++ trim_space keyword ++ text "%"))

-- `ORDER BY created_at DESC` leaves rows of one time in any order, and another in every query. So the
-- order is an argument of each call of a list, and takes the query's `LIMIT` and `OFFSET`.
module _ (newest_first : ℕ → ℕ → List Product → List Product) where
  abbrev list_rows :
      Option DriverErr → List Product → ListQuery → ℕ → Result ProductErr (List Product × ℕ)
  list_rows fault rows query zero = ok ([], 0)
  list_rows (some e) rows query (suc n) = err (driver e)
  list_rows none rows query (suc n) =
      let limit = page_size_of query in
      let offset = (page_of query - 1) * page_size_of query in
      ok (take limit (drop offset (newest_first limit offset rows)), suc n)

  -- `list`: the count, then the page.
  unfoldable pub list_page :
      Option DriverErr
      → Option DriverErr
      → (Product → Bool)
      → ListQuery
      → ProductDb
      → Result ProductErr (List Product × ℕ)
  list_page (some e) fault keeps query db = err (driver e)
  list_page none fault keeps query db =
      let rows = select keeps db.products in list_rows fault rows query (length rows)

module _ (like : Text → Text → Bool) (newest_first : ℕ → ℕ → List Product → List Product) where
  -- `ListAdmin`, `ListPublic`
  unfoldable pub list_admin :
      Option DriverErr
      → Option DriverErr
      → ListQuery
      → ProductDb
      → Result ProductErr (List Product × ℕ)
  unfolding list_page
  list_admin count fault query db =
      list_page newest_first count fault (list_where like query.keyword query.include_deleted false)
        query db

  unfoldable pub list_public :
      Option DriverErr
      → Option DriverErr
      → ListQuery
      → ProductDb
      → Result ProductErr (List Product × ℕ)
  unfolding list_page
  list_public count fault query db =
      list_page newest_first count fault (list_where like query.keyword false true) query db
