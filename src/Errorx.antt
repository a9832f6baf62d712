-- ===== src/Errorx.antt =====
-- pkg/base/errorx/error.go: the error codes that every service returns, and their HTTP statuses.
-- The cause of an `AppError` is kept where the code wraps one.
use flash_sale.Prelude.{ℕ}
use flash_sale.Text.{Text, text}

pub data Code : Type 0 where
  sys_internal sys_bad_request user_not_found auth_unauthorized auth_forbidden : Code
  auth_invalid_phone auth_weak_password auth_phone_already_registered : Code
  auth_invalid_credentials product_not_found product_sku_already_exists : Code
  product_invalid_status order_not_found order_invalid_state order_out_of_stock : Code
  order_pay_timeout order_review_timeout order_review_rejected order_already_closed : Code
  order_already_paid order_invalid_receiver_info seckill_activity_not_found : Code
  seckill_activity_not_published seckill_activity_not_started seckill_activity_ended : Code
  seckill_item_not_found seckill_out_of_stock seckill_limit_exceeded : Code
  seckill_purchase_conflict seckill_invalid_config admin_not_found : Code
  admin_username_already_exists admin_account_disabled admin_account_locked : Code
  admin_role_not_found admin_role_code_already_exists admin_invalid_scope : Code
  admin_refresh_token_invalid db_error mq_error cache_error : Code

-- `Code.HTTPStatus`; the last clause is the `default` of the switch.
unfoldable pub http_status : Code → ℕ
http_status sys_bad_request = 400
http_status auth_invalid_phone = 400
http_status auth_weak_password = 400
http_status product_invalid_status = 400
http_status order_invalid_state = 400
http_status order_invalid_receiver_info = 400
http_status order_out_of_stock = 400
http_status seckill_invalid_config = 400
http_status admin_invalid_scope = 400
http_status auth_unauthorized = 401
http_status auth_invalid_credentials = 401
http_status admin_refresh_token_invalid = 401
http_status auth_forbidden = 403
http_status admin_account_disabled = 403
http_status admin_account_locked = 403
http_status user_not_found = 404
http_status product_not_found = 404
http_status order_not_found = 404
http_status seckill_activity_not_found = 404
http_status seckill_item_not_found = 404
http_status admin_not_found = 404
http_status admin_role_not_found = 404
http_status auth_phone_already_registered = 409
http_status product_sku_already_exists = 409
http_status order_already_closed = 409
http_status order_already_paid = 409
http_status order_pay_timeout = 409
http_status order_review_timeout = 409
http_status order_review_rejected = 409
http_status seckill_activity_not_published = 409
http_status seckill_activity_not_started = 409
http_status seckill_activity_ended = 409
http_status seckill_out_of_stock = 409
http_status seckill_limit_exceeded = 409
http_status seckill_purchase_conflict = 409
http_status admin_username_already_exists = 409
http_status admin_role_code_already_exists = 409
http_status _ = 500

-- The text of a code, which is its value in Go.
abbrev pub code_text : Code → Text
code_text sys_internal = text "SYS_INTERNAL"
code_text sys_bad_request = text "SYS_BAD_REQUEST"
code_text user_not_found = text "USER_NOT_FOUND"
code_text auth_unauthorized = text "AUTH_UNAUTHORIZED"
code_text auth_forbidden = text "AUTH_FORBIDDEN"
code_text auth_invalid_phone = text "AUTH_INVALID_PHONE"
code_text auth_weak_password = text "AUTH_WEAK_PASSWORD"
code_text auth_phone_already_registered = text "AUTH_PHONE_ALREADY_REGISTERED"
code_text auth_invalid_credentials = text "AUTH_INVALID_CREDENTIALS"
code_text product_not_found = text "PRODUCT_NOT_FOUND"
code_text product_sku_already_exists = text "PRODUCT_SKU_ALREADY_EXISTS"
code_text product_invalid_status = text "PRODUCT_INVALID_STATUS"
code_text order_not_found = text "ORDER_NOT_FOUND"
code_text order_invalid_state = text "ORDER_INVALID_STATE"
code_text order_out_of_stock = text "ORDER_OUT_OF_STOCK"
code_text order_pay_timeout = text "ORDER_PAY_TIMEOUT"
code_text order_review_timeout = text "ORDER_REVIEW_TIMEOUT"
code_text order_review_rejected = text "ORDER_REVIEW_REJECTED"
code_text order_already_closed = text "ORDER_ALREADY_CLOSED"
code_text order_already_paid = text "ORDER_ALREADY_PAID"
code_text order_invalid_receiver_info = text "ORDER_INVALID_RECEIVER_INFO"
code_text seckill_activity_not_found = text "SECKILL_ACTIVITY_NOT_FOUND"
code_text seckill_activity_not_published = text "SECKILL_ACTIVITY_NOT_PUBLISHED"
code_text seckill_activity_not_started = text "SECKILL_ACTIVITY_NOT_STARTED"
code_text seckill_activity_ended = text "SECKILL_ACTIVITY_ENDED"
code_text seckill_item_not_found = text "SECKILL_ITEM_NOT_FOUND"
code_text seckill_out_of_stock = text "SECKILL_OUT_OF_STOCK"
code_text seckill_limit_exceeded = text "SECKILL_LIMIT_EXCEEDED"
code_text seckill_purchase_conflict = text "SECKILL_PURCHASE_CONFLICT"
code_text seckill_invalid_config = text "SECKILL_INVALID_CONFIG"
code_text admin_not_found = text "ADMIN_NOT_FOUND"
code_text admin_username_already_exists = text "ADMIN_USERNAME_ALREADY_EXISTS"
code_text admin_account_disabled = text "ADMIN_ACCOUNT_DISABLED"
code_text admin_account_locked = text "ADMIN_ACCOUNT_LOCKED"
code_text admin_role_not_found = text "ADMIN_ROLE_NOT_FOUND"
code_text admin_role_code_already_exists = text "ADMIN_ROLE_CODE_ALREADY_EXISTS"
code_text admin_invalid_scope = text "ADMIN_INVALID_SCOPE"
code_text admin_refresh_token_invalid = text "ADMIN_REFRESH_TOKEN_INVALID"
code_text db_error = text "DB_ERROR"
code_text mq_error = text "MQ_ERROR"
code_text cache_error = text "CACHE_ERROR"

-- `AppError`, without its cause.
pub record AppError : Type 0 where
  pub code : Code
  pub message : Text
