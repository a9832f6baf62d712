-- ===== src/Order/Service/Queries.antt =====
-- apps/order/rpc/internal/logic: the lookups and lists of buyers and administrators. They write
-- nothing, so they are functions of the orders.
use flash_sale.Prelude.{
  ℕ, ℤ, pos, negsuc, positive, ◌-◌, ◌%◌, Option, none, some, List, nat_beq, ltb, if◌then◌else◌, map,
}
use flash_sale.Text.{Text}
use flash_sale.Result.{Result, ok, err, ◌>>=◌, map_err}
use flash_sale.Sql.{DriverErr}
use flash_sale.Errorx.{Code, sys_bad_request, auth_forbidden, db_error}
use flash_sale.Order.Model.{Order, OrderDb, OrderErr}
use flash_sale.Order.Repository.{find_by_id}
use flash_sale.Order.Repository.Lists.{list_by_user, list_admin}
use flash_sale.Order.Service.Input.{normalize_pagination}
use flash_sale.Order.Service.Views.{OrderView, to_order_view}
use flash_sale.Order.Service.Steps.{missing_or_db, both_ids}

-- The conversion `int8(v)`: eight bits, as two's complement.
abbrev signed_byte : ℕ → ℤ
signed_byte m = if ltb m 128 then pos m else negsuc (255 - m)

unfoldable pub to_int8 : ℤ → ℤ
to_int8 (pos n) = signed_byte (n % 256)
to_int8 (negsuc n) = signed_byte (255 - n % 256)

abbrev owned_by : ℕ → Order → Result Code OrderView
owned_by user_id o = if nat_beq o.user_id user_id then ok (to_order_view o) else err auth_forbidden

-- `GetOrderUser`
unfoldable pub get_order_user : Option DriverErr → ℤ → ℤ → OrderDb → Result Code OrderView
unfolding both_ids to_order_view
get_order_user fault user_id order_id db = do
  ids ← both_ids user_id order_id
  o ← map_err missing_or_db (find_by_id fault ids.1 db)
  owned_by ids.0 o

abbrev admin_view : Option DriverErr → OrderDb → Option ℕ → Result Code OrderView
admin_view fault db none = err sys_bad_request
admin_view fault db (some id) = do
  o ← map_err missing_or_db (find_by_id fault id db)
  ok (to_order_view o)

-- `GetOrderAdmin`
unfoldable pub get_order_admin : Option DriverErr → ℤ → OrderDb → Result Code OrderView
unfolding to_order_view
get_order_admin fault order_id db = admin_view fault db (positive order_id)

-- One page of a list, and the number of orders in all.
pub record ListResult : Type 0 where
  pub list : List OrderView
  pub total : ℕ
  pub page : ℕ
  pub page_size : ℕ

abbrev listed : ℕ × ℕ → Result OrderErr (List Order × ℕ) → Result Code ListResult
listed bounds (err e) = err db_error
listed bounds (ok (rows, total)) =
    ok (record {
      list = map to_order_view rows;
      total = total;
      page = bounds.0;
      page_size = bounds.1;
    })

-- A negative filter counts as none.
abbrev not_negative : ℤ → ℤ
not_negative (pos n) = pos n
not_negative (negsuc _) = pos 0

module _ (newest_first : ℕ → ℕ → List Order → List Order) where
  abbrev list_of_user :
      Option DriverErr
      → Option DriverErr
      → ℕ × ℕ
      → ℤ
      → Text
      → OrderDb
      → Option ℕ
      → Result Code ListResult
  list_of_user count fault bounds order_status order_no db none = err sys_bad_request
  list_of_user count fault bounds order_status order_no db (some user_id) = listed bounds (
      list_by_user newest_first count fault (pos bounds.0) (pos bounds.1) user_id
        (not_negative (to_int8 order_status)) order_no db)

  -- `ListOrdersUser`
  unfoldable pub list_orders_user :
      Option DriverErr → Option DriverErr → ℤ → ℤ → ℤ → ℤ → Text → OrderDb → Result Code ListResult
  unfolding to_int8 normalize_pagination to_order_view
  list_orders_user count fault user_id page page_size order_status order_no db =
      list_of_user count fault (normalize_pagination page page_size) order_status order_no db
        (positive user_id)

  -- `ListOrdersAdmin`
  unfoldable pub list_orders_admin :
      Option DriverErr
      → Option DriverErr
      → ℤ
      → ℤ
      → ℤ
      → ℤ
      → ℤ
      → Text
      → OrderDb
      → Result Code ListResult
  unfolding to_int8 normalize_pagination to_order_view
  list_orders_admin count fault user_id page page_size order_status review_status order_no db =
      let bounds = normalize_pagination page page_size in
      listed bounds (
        list_admin newest_first count fault (pos bounds.0) (pos bounds.1) (to_int8 order_status)
          (to_int8 review_status) user_id order_no db)
