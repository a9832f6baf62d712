-- ===== src/Grpcerr.antt =====
-- pkg/base/grpcerr/grpcerr.go: business errors carried over gRPC. The status type of
-- `google.golang.org/grpc/status` is an interface with the laws that its documentation states.
pub mod RoundTrip
use flash_sale.Prelude.{
  ℕ, Bool, true, false, Option, none, some, List, [], ◌∷◌, ◌++◌, ◌≡◌, if◌then◌else◌,
}
use flash_sale.Text.{Text, text, text_beq}
use flash_sale.Errorx.{
  Code, sys_internal, sys_bad_request, user_not_found, auth_unauthorized, auth_forbidden,
  auth_invalid_phone, auth_weak_password, auth_phone_already_registered, auth_invalid_credentials,
  product_not_found, product_sku_already_exists, product_invalid_status, order_not_found,
  order_invalid_state, order_out_of_stock, order_pay_timeout, order_review_timeout,
  order_review_rejected, order_already_closed, order_already_paid, order_invalid_receiver_info,
  seckill_activity_not_found, seckill_activity_not_published, seckill_activity_not_started,
  seckill_activity_ended, seckill_item_not_found, seckill_out_of_stock, seckill_limit_exceeded,
  seckill_purchase_conflict, seckill_invalid_config, admin_not_found, admin_username_already_exists,
  admin_account_disabled, admin_account_locked, admin_role_not_found,
  admin_role_code_already_exists, admin_invalid_scope, admin_refresh_token_invalid, db_error,
  mq_error, cache_error, code_text, AppError,
}

-- The `codes.Code` values; `unlisted` stands for those that the file does not name.
pub data GrpcCode : Type 0 where
  invalid_argument unauthenticated permission_denied not_found already_exists internal : GrpcCode
  unlisted : ℕ → GrpcCode

-- A detail of a status: an `ErrorInfo` with its reason, or another message.
pub data Detail : Type 0 where
  error_info : Text → Detail
  other_detail : Detail

-- What the code uses of a status.
pub record StatusApi : Type 1 where
  pub Status : Type 0
  pub new : GrpcCode → Text → Status
  pub with_error_info : Status → Text → Option Status
  pub code : Status → GrpcCode
  pub message : Status → Text
  pub details : Status → List Detail
  pub code-new : (c : GrpcCode) (m : Text) → code (new c m) ≡ c
  pub message-new : (c : GrpcCode) (m : Text) → message (new c m) ≡ m
  pub details-new : (c : GrpcCode) (m : Text) → details (new c m) ≡ []
  pub code-with_error_info :
      (s : Status) (r : Text) {t : Status} → with_error_info s r ≡ some t → code t ≡ code s
  pub message-with_error_info :
      (s : Status) (r : Text) {t : Status} → with_error_info s r ≡ some t → message t ≡ message s
  pub details-with_error_info :
      (s : Status) (r : Text) {t : Status}
      → with_error_info s r ≡ some t
      → details t ≡ details s ++ error_info r ∷ []

unfoldable pub code_to_grpc : Code → GrpcCode
code_to_grpc sys_bad_request = invalid_argument
code_to_grpc auth_invalid_phone = invalid_argument
code_to_grpc auth_weak_password = invalid_argument
code_to_grpc product_invalid_status = invalid_argument
code_to_grpc order_invalid_state = invalid_argument
code_to_grpc order_out_of_stock = invalid_argument
code_to_grpc order_invalid_receiver_info = invalid_argument
code_to_grpc seckill_invalid_config = invalid_argument
code_to_grpc admin_invalid_scope = invalid_argument
code_to_grpc auth_unauthorized = unauthenticated
code_to_grpc auth_invalid_credentials = unauthenticated
code_to_grpc admin_refresh_token_invalid = unauthenticated
code_to_grpc auth_forbidden = permission_denied
code_to_grpc admin_account_disabled = permission_denied
code_to_grpc admin_account_locked = permission_denied
code_to_grpc user_not_found = not_found
code_to_grpc product_not_found = not_found
code_to_grpc order_not_found = not_found
code_to_grpc seckill_activity_not_found = not_found
code_to_grpc seckill_item_not_found = not_found
code_to_grpc admin_not_found = not_found
code_to_grpc admin_role_not_found = not_found
code_to_grpc auth_phone_already_registered = already_exists
code_to_grpc product_sku_already_exists = already_exists
code_to_grpc order_already_closed = already_exists
code_to_grpc order_already_paid = already_exists
code_to_grpc order_pay_timeout = already_exists
code_to_grpc order_review_timeout = already_exists
code_to_grpc order_review_rejected = already_exists
code_to_grpc seckill_activity_not_published = already_exists
code_to_grpc seckill_activity_not_started = already_exists
code_to_grpc seckill_activity_ended = already_exists
code_to_grpc seckill_out_of_stock = already_exists
code_to_grpc seckill_limit_exceeded = already_exists
code_to_grpc seckill_purchase_conflict = already_exists
code_to_grpc admin_username_already_exists = already_exists
code_to_grpc admin_role_code_already_exists = already_exists
code_to_grpc _ = internal

unfoldable pub grpc_to_code : GrpcCode → Code
grpc_to_code invalid_argument = sys_bad_request
grpc_to_code unauthenticated = auth_unauthorized
grpc_to_code permission_denied = auth_forbidden
grpc_to_code not_found = user_not_found
grpc_to_code already_exists = auth_phone_already_registered
grpc_to_code _ = sys_internal

-- The codes that `parseCode` lists, in its order.
abbrev parsed_codes : List Code
parsed_codes =
    sys_internal ∷ sys_bad_request ∷ user_not_found ∷ product_not_found ∷ product_sku_already_exists
    ∷ product_invalid_status ∷ order_not_found ∷ order_invalid_state ∷ order_out_of_stock
    ∷ order_pay_timeout ∷ order_review_timeout ∷ order_review_rejected ∷ order_already_closed
    ∷ order_already_paid ∷ order_invalid_receiver_info ∷ seckill_activity_not_found
    ∷ seckill_activity_not_published ∷ seckill_activity_not_started ∷ seckill_activity_ended
    ∷ seckill_item_not_found ∷ seckill_out_of_stock ∷ seckill_limit_exceeded
    ∷ seckill_purchase_conflict ∷ seckill_invalid_config ∷ admin_not_found
    ∷ admin_username_already_exists ∷ admin_account_disabled ∷ admin_account_locked
    ∷ admin_role_not_found ∷ admin_role_code_already_exists ∷ admin_invalid_scope
    ∷ admin_refresh_token_invalid ∷ auth_unauthorized ∷ auth_forbidden ∷ auth_invalid_phone
    ∷ auth_weak_password ∷ auth_phone_already_registered ∷ auth_invalid_credentials ∷ db_error
    ∷ mq_error ∷ cache_error ∷ []

abbrev first_named : Text → List Code → Option Code
first_named raw [] = none
first_named raw (c ∷ cs) =
    let rest = first_named raw cs in if text_beq (code_text c) raw then some c else rest

unfoldable pub parse_code : Text → Option Code
parse_code raw = first_named raw parsed_codes

abbrev code_or : Code → Option Code → Code
code_or code none = code
code_or code (some c) = c

-- The loop of `FromStatus` over the details: the first `ErrorInfo` decides.
unfoldable pub code_from_details : Code → List Detail → Code
code_from_details code [] = code
code_from_details code (other_detail ∷ ds) = code_from_details code ds
code_from_details code (error_info reason ∷ ds) = code_or code (parse_code reason)

module _ (api : StatusApi) where
  -- An error value as `FromStatus` tells them apart.
  pub data GoError : Type 0 where
    app_error : AppError → GoError
    status_error : api.Status → GoError
    plain_error : GoError

  abbrev or_plain : api.Status → Option api.Status → api.Status
  or_plain st none = st
  or_plain st (some t) = t

  abbrev status_of : AppError → api.Status
  status_of e =
      let st = api.new (code_to_grpc e.code) e.message in
      or_plain st (api.with_error_info st (code_text e.code))

  -- `errorx.FromError`
  abbrev pub from_error : GoError → AppError
  from_error (app_error e) = e
  from_error (status_error s) = record { code = sys_internal; message = text "internal error" }
  from_error plain_error = record { code = sys_internal; message = text "internal error" }

  -- `ToStatus`, of an error that is there.
  unfoldable pub to_status : GoError → GoError
  to_status e = status_error (status_of (from_error e))

  -- `FromStatus`, of an error that is there.
  unfoldable pub from_status : GoError → AppError
  from_status (app_error e) = e
  from_status (status_error s) = record {
    code = code_from_details (grpc_to_code (api.code s)) (api.details s);
    message = api.message s;
  }
  from_status plain_error = from_error plain_error
