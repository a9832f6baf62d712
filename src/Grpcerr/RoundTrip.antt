-- ===== src/Grpcerr/RoundTrip.antt =====
-- What an error is on the other side of a gRPC call.
use flash_sale.Prelude.{Option, none, some, ◌≡◌, refl, ap, ◌∷◌, []}
use flash_sale.Errorx.{
  Code, sys_internal, sys_bad_request, user_not_found, auth_unauthorized, auth_forbidden,
  auth_invalid_phone, auth_weak_password, auth_phone_already_registered, auth_invalid_credentials,
  product_not_found, product_sku_already_exists, product_invalid_status, order_not_found,
  order_invalid_state, order_out_of_stock, order_pay_timeout, order_review_timeout,
  order_review_rejected, order_already_closed, order_already_paid, order_invalid_receiver_info,
  seckill_activity_not_found, seckill_activity_not_published, seckill_activity_not_started,
  seckill_activity_ended, seckill_item_not_found, seckill_out_of_stock, seckill_limit_exceeded,
  seckill_purchase_conflict, seckill_invalid_config, admin_not_found, admin_username_already_exists,
  admin_account_disabled, admin_account_locked, admin_role_not_found,
  admin_role_code_already_exists, admin_invalid_scope, admin_refresh_token_invalid, db_error,
  mq_error, cache_error, code_text, http_status, AppError,
}
use flash_sale.Grpcerr.{
  StatusApi, app_error, status_error, error_info, code_to_grpc, grpc_to_code, parse_code,
  code_from_details, to_status, from_status, or_plain, code_or,
}

-- Every code is read back from its text.
pub parse_code-code_text : (c : Code) → parse_code (code_text c) ≡ some c
unfolding parse_code
parse_code-code_text sys_internal = refl
parse_code-code_text sys_bad_request = refl
parse_code-code_text user_not_found = refl
parse_code-code_text auth_unauthorized = refl
parse_code-code_text auth_forbidden = refl
parse_code-code_text auth_invalid_phone = refl
parse_code-code_text auth_weak_password = refl
parse_code-code_text auth_phone_already_registered = refl
parse_code-code_text auth_invalid_credentials = refl
parse_code-code_text product_not_found = refl
parse_code-code_text product_sku_already_exists = refl
parse_code-code_text product_invalid_status = refl
parse_code-code_text order_not_found = refl
parse_code-code_text order_invalid_state = refl
parse_code-code_text order_out_of_stock = refl
parse_code-code_text order_pay_timeout = refl
parse_code-code_text order_review_timeout = refl
parse_code-code_text order_review_rejected = refl
parse_code-code_text order_already_closed = refl
parse_code-code_text order_already_paid = refl
parse_code-code_text order_invalid_receiver_info = refl
parse_code-code_text seckill_activity_not_found = refl
parse_code-code_text seckill_activity_not_published = refl
parse_code-code_text seckill_activity_not_started = refl
parse_code-code_text seckill_activity_ended = refl
parse_code-code_text seckill_item_not_found = refl
parse_code-code_text seckill_out_of_stock = refl
parse_code-code_text seckill_limit_exceeded = refl
parse_code-code_text seckill_purchase_conflict = refl
parse_code-code_text seckill_invalid_config = refl
parse_code-code_text admin_not_found = refl
parse_code-code_text admin_username_already_exists = refl
parse_code-code_text admin_account_disabled = refl
parse_code-code_text admin_account_locked = refl
parse_code-code_text admin_role_not_found = refl
parse_code-code_text admin_role_code_already_exists = refl
parse_code-code_text admin_invalid_scope = refl
parse_code-code_text admin_refresh_token_invalid = refl
parse_code-code_text db_error = refl
parse_code-code_text mq_error = refl
parse_code-code_text cache_error = refl

-- The code that a gRPC code falls back to has the same HTTP status.
http_status-grpc_to_code : (c : Code) → http_status (grpc_to_code (code_to_grpc c)) ≡ http_status c
unfolding http_status grpc_to_code code_to_grpc
http_status-grpc_to_code sys_internal = refl
http_status-grpc_to_code sys_bad_request = refl
http_status-grpc_to_code user_not_found = refl
http_status-grpc_to_code auth_unauthorized = refl
http_status-grpc_to_code auth_forbidden = refl
http_status-grpc_to_code auth_invalid_phone = refl
http_status-grpc_to_code auth_weak_password = refl
http_status-grpc_to_code auth_phone_already_registered = refl
http_status-grpc_to_code auth_invalid_credentials = refl
http_status-grpc_to_code product_not_found = refl
http_status-grpc_to_code product_sku_already_exists = refl
http_status-grpc_to_code product_invalid_status = refl
http_status-grpc_to_code order_not_found = refl
http_status-grpc_to_code order_invalid_state = refl
http_status-grpc_to_code order_out_of_stock = refl
http_status-grpc_to_code order_pay_timeout = refl
http_status-grpc_to_code order_review_timeout = refl
http_status-grpc_to_code order_review_rejected = refl
http_status-grpc_to_code order_already_closed = refl
http_status-grpc_to_code order_already_paid = refl
http_status-grpc_to_code order_invalid_receiver_info = refl
http_status-grpc_to_code seckill_activity_not_found = refl
http_status-grpc_to_code seckill_activity_not_published = refl
http_status-grpc_to_code seckill_activity_not_started = refl
http_status-grpc_to_code seckill_activity_ended = refl
http_status-grpc_to_code seckill_item_not_found = refl
http_status-grpc_to_code seckill_out_of_stock = refl
http_status-grpc_to_code seckill_limit_exceeded = refl
http_status-grpc_to_code seckill_purchase_conflict = refl
http_status-grpc_to_code seckill_invalid_config = refl
http_status-grpc_to_code admin_not_found = refl
http_status-grpc_to_code admin_username_already_exists = refl
http_status-grpc_to_code admin_account_disabled = refl
http_status-grpc_to_code admin_account_locked = refl
http_status-grpc_to_code admin_role_not_found = refl
http_status-grpc_to_code admin_role_code_already_exists = refl
http_status-grpc_to_code admin_invalid_scope = refl
http_status-grpc_to_code admin_refresh_token_invalid = refl
http_status-grpc_to_code db_error = refl
http_status-grpc_to_code mq_error = refl
http_status-grpc_to_code cache_error = refl

reason_read : (d c : Code) → code_from_details d (error_info (code_text c) ∷ []) ≡ c
unfolding code_from_details
reason_read d c = ap (code_or d) (parse_code-code_text c)

module _ (api : StatusApi) (e : AppError) where
  abbrev plain : api.Status
  plain = api.new (code_to_grpc e.code) e.message

  code_found :
      (s : api.Status)
      → api.with_error_info plain (code_text e.code) ≡ some s
      → code_from_details (grpc_to_code (api.code s)) (api.details s) ≡ e.code
  code_found s h =
      rw (api.details-with_error_info plain _ h, api.details-new (code_to_grpc e.code) e.message)
        (reason_read (grpc_to_code (api.code s)) e.code)

  code_lost :
      code_from_details (grpc_to_code (api.code plain)) (api.details plain)
      ≡ grpc_to_code (code_to_grpc e.code)
  unfolding code_from_details
  code_lost =
      rw
        (
          api.details-new (code_to_grpc e.code) e.message,
          api.code-new (code_to_grpc e.code) e.message,
        )
        refl

  -- Where the status library attaches the reason, a business error arrives as it was sent: its
  -- own code, not the one that its gRPC code stands for, and its message.
  pub from_status-to_status :
      {s : api.Status}
      → api.with_error_info plain (code_text e.code) ≡ some s
      → from_status api (to_status api (app_error e)) ≡ e
  unfolding from_status to_status
  from_status-to_status {s} h =
      rw
        (
          h,
          code_found s h,
          api.message-with_error_info plain _ h,
          api.message-new (code_to_grpc e.code) e.message,
        )
        refl

  http_kept :
      (o : Option api.Status)
      → api.with_error_info plain (code_text e.code) ≡ o
      → http_status (from_status api (status_error (or_plain api plain o))).code
        ≡ http_status e.code
  unfolding from_status
  http_kept none h = rw code_lost (http_status-grpc_to_code e.code)
  http_kept (some s) h = ap http_status (code_found s h)

  -- Whether or not the reason is attached, the client's HTTP status is that of the error sent.
  pub http_status-from_status :
      http_status (from_status api (to_status api (app_error e))).code ≡ http_status e.code
  unfolding to_status
  http_status-from_status = http_kept _ refl
