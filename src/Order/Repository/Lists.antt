-- ===== src/Order/Repository/Lists.antt =====
-- apps/order/rpc/internal/repository/mysql_order_repository.go: the lists of orders. The order of
-- rows with one creation time is the server's, so the sorts are parameters.
use flash_sale.Prelude.{
  ℕ, zero, suc, ℤ, positive, ◌+◌, ◌-◌, ◌*◌, Bool, true, false, not, ◌&&◌, ◌||◌, Option, none, some,
  List, [], length, take, drop, select, nat_beq, leb, ◌==◌, if◌then◌else◌,
}
use flash_sale.Text.{Text, text_eq, text_beq, trim_space, is_blank}
use flash_sale.Result.{Result, ok, err}
use flash_sale.Sql.{DriverErr}
use flash_sale.Order.Model.{
  CloseReason, no_reason, completed, auto_completed, closed, pending_pay, pending_review, shipped,
  unpaid, manual_pending, on_the_way, refunding, order_code, review_code, order_status_eq,
  payment_status_eq, review_status_eq, shipping_status_eq, refund_status_eq, Order, OrderDb,
  OrderErr, driver,
}

-- A column that is not NULL and at most `now` less `age`.
abbrev pub due : ℕ → ℕ → Option ℕ → Bool
due now age none = false
due now age (some t) = leb (t + age) now

-- The reasons that `ListStockReleasePending` names.
abbrev pub releases_stock : CloseReason → Bool
releases_stock no_reason = false
releases_stock completed = false
releases_stock auto_completed = false
releases_stock _ = true

-- The conditions of the five lists; the bound `before` is `now` less `age`.
unfoldable pub pay_timed_out : ℕ → ℕ → Order → Bool
pay_timed_out now age o =
    o.order_status == pending_pay && o.payment_status == unpaid && leb (o.created_at + age) now

unfoldable pub review_timed_out : ℕ → Order → Bool
review_timed_out now o =
    o.order_status == pending_review
    && o.review_status == manual_pending
    && due now 0 o.review_due_at

unfoldable pub stock_release_pending : Order → Bool
stock_release_pending o =
    o.order_status == closed && not o.stock_released && releases_stock o.close_reason

unfoldable pub refund_due : ℕ → Order → Bool
refund_due now o =
    o.order_status == closed && o.refund_status == refunding && due now 0 o.refund_due_at

unfoldable pub auto_receive_due : ℕ → ℕ → Order → Bool
auto_receive_due now age o =
    o.order_status == shipped && o.shipping_status == on_the_way && due now age o.shipped_at

-- `listByCondition`; the query is sent to the server with a positive limit.
unfoldable pub list_by_condition :
    (List Order → List Order)
    → Option DriverErr
    → (Order → Bool)
    → ℕ
    → OrderDb
    → Result OrderErr (List Order)
list_by_condition oldest_first (some e) condition limit db = err (driver e)
list_by_condition oldest_first none condition limit db =
    ok (take (if nat_beq limit 0 then 100 else limit) (oldest_first (select condition db.orders)))

abbrev or_default : ℕ → Option ℕ → ℕ
or_default d none = d
or_default d (some n) = n

-- A status filter counts when it is positive.
abbrev has_code : ℤ → ℕ → Bool
has_code wanted code = elim (positive wanted) [ none ↦ true | some n ↦ nat_beq code n ]

-- The `WHERE` of `ListByUser`, and that of `ListAdmin`.
unfoldable pub of_user : ℕ → ℤ → Text → Order → Bool
of_user user_id order_status order_no o =
    nat_beq o.user_id user_id
    && has_code order_status (order_code o.order_status)
    && (text_beq order_no ([]) || text_beq o.order_no order_no)

unfoldable pub of_admin : ℤ → ℤ → ℤ → Text → Order → Bool
of_admin order_status review_status user_id order_no o =
    has_code order_status (order_code o.order_status)
    && has_code review_status (review_code o.review_status)
    && has_code user_id o.user_id
    && (is_blank order_no || text_beq o.order_no (trim_space order_no))

-- As the rows of one time have no order of their own, and may have another in every query, the order
-- is an argument of each call of a list, and takes the query's `LIMIT` and `OFFSET`.
module _ (newest_first : ℕ → ℕ → List Order → List Order) where
  abbrev list_rows : Option DriverErr → List Order → ℕ → ℕ → ℕ → Result OrderErr (List Order × ℕ)
  list_rows fault rows page page_size zero = ok ([], 0)
  list_rows (some e) rows page page_size (suc n) = err (driver e)
  list_rows none rows page page_size (suc n) =
      let offset = (page - 1) * page_size in
      ok (take page_size (drop offset (newest_first page_size offset rows)), suc n)

  -- `list`: the count, then the page.
  abbrev list_page :
      Option DriverErr
      → Option DriverErr
      → (Order → Bool)
      → ℕ
      → ℕ
      → OrderDb
      → Result OrderErr (List Order × ℕ)
  list_page (some e) fault condition page page_size db = err (driver e)
  list_page none fault condition page page_size db =
      let rows = select condition db.orders in list_rows fault rows page page_size (length rows)

  -- `ListByUser`, `ListAdmin`
  unfoldable pub list_by_user :
      Option DriverErr
      → Option DriverErr
      → ℤ
      → ℤ
      → ℕ
      → ℤ
      → Text
      → OrderDb
      → Result OrderErr (List Order × ℕ)
  list_by_user count fault page page_size user_id order_status order_no db =
      list_page count fault (of_user user_id order_status order_no) (or_default 1 (positive page))
        (or_default 20 (positive page_size)) db

  unfoldable pub list_admin :
      Option DriverErr
      → Option DriverErr
      → ℤ
      → ℤ
      → ℤ
      → ℤ
      → ℤ
      → Text
      → OrderDb
      → Result OrderErr (List Order × ℕ)
  list_admin count fault page page_size order_status review_status user_id order_no db =
      list_page count fault (of_admin order_status review_status user_id order_no)
        (or_default 1 (positive page)) (or_default 20 (positive page_size)) db
