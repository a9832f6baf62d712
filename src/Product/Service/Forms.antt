-- ===== src/Product/Service/Forms.antt =====
-- apps/product/rpc/internal/logic/common.go: what the handlers accept of a request.
use flash_sale.Prelude.{
  ℕ, zero, suc, ℤ, pos, negsuc, positive, ◌||◌, Option, none, some, ltb, if◌then◌else◌, length,
}
use flash_sale.Text.{Text, trim_space, is_blank}
use flash_sale.Result.{Result, ok, err, ◌>>=◌}
use flash_sale.Errorx.{Code, sys_bad_request, product_invalid_status}
use flash_sale.Product.Model.{ShelfStatus, off_shelf, on_shelf}

-- The requests of `CreateProduct` and `UpdateProduct`.
pub record ProductForm : Type 0 where
  pub name : Text
  pub main_image : Text
  pub description : Text
  pub price_cent : ℤ
  pub stock : ℤ
  pub status : ℤ

-- A form whose fields are trimmed and in bounds.
pub record ProductFields : Type 0 where
  pub name : Text
  pub main_image : Text
  pub description : Text
  pub price_cent : ℕ
  pub stock : ℕ
  pub status : ShelfStatus

unfoldable pub normalize_name : Text → Result Code Text
normalize_name name =
    let v = trim_space name in
    if ltb (length v) 1 || ltb 100 (length v) then err sys_bad_request else ok v

unfoldable pub normalize_main_image : Text → Result Code Text
normalize_main_image image =
    let v = trim_space image in
    if is_blank image
    then err sys_bad_request
    else if ltb 512 (length v)
    then err sys_bad_request
    else ok v

unfoldable pub normalize_description : Text → Result Code Text
normalize_description description =
    let v = trim_space description in if ltb 2000 (length v) then err sys_bad_request else ok v

unfoldable pub normalize_price_cent : ℤ → Result Code ℕ
normalize_price_cent v = elim (positive v) [ none ↦ err sys_bad_request | some n ↦ ok n ]

unfoldable pub normalize_stock : ℤ → Result Code ℕ
normalize_stock (pos n) = ok n
normalize_stock (negsuc _) = err sys_bad_request

unfoldable pub normalize_status : ℤ → Result Code ShelfStatus
normalize_status (pos zero) = ok off_shelf
normalize_status (pos (suc zero)) = ok on_shelf
normalize_status _ = err product_invalid_status

-- The checks that `CreateProduct` and `UpdateProduct` begin with, in their order.
unfoldable pub check_form : ProductForm → Result Code ProductFields
unfolding normalize_name normalize_main_image normalize_description normalize_price_cent
    normalize_stock normalize_status
check_form form = do
  name ← normalize_name form.name
  main_image ← normalize_main_image form.main_image
  description ← normalize_description form.description
  price_cent ← normalize_price_cent form.price_cent
  stock ← normalize_stock form.stock
  status ← normalize_status form.status
  ok (record {
    name = name;
    main_image = main_image;
    description = description;
    price_cent = price_cent;
    stock = stock;
    status = status;
  })

abbrev or_default : ℕ → Option ℕ → ℕ
or_default d none = d
or_default d (some n) = n

-- `normalizePagination`
unfoldable pub normalize_pagination : ℤ → ℤ → ℕ × ℕ
normalize_pagination page page_size =
    let size = or_default 20 (positive page_size) in
    (or_default 1 (positive page), if ltb 100 size then 100 else size)
