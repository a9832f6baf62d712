-- ===== src/Seckill/Purchase/Errors.antt =====
-- apps/seckill/rpc/internal/logic/common.go: the database errors of a purchase, and what a caller is
-- told of them. A driver's error is known by its text.
use flash_sale.Prelude.{Bool, true, false, ◌||◌, ◌++◌, if◌then◌else◌}
use flash_sale.Text.{Text, text, decimal, trim_space, to_lower, contains}
use flash_sale.Errorx.{
  Code, seckill_activity_not_found, seckill_item_not_found, seckill_activity_not_published,
  seckill_out_of_stock, seckill_limit_exceeded, seckill_purchase_conflict, db_error,
}
use flash_sale.Sql.{DriverErr, mysql_error, deadline_exceeded, canceled, other_error}
use flash_sale.Seckill.Model.{
  SeckillErr, activity_not_found, activity_item_not_found, activity_state_conflict,
  activity_out_of_stock, activity_limit_exceeded, idempotency_conflict, invalid_params, driver,
}

-- `err.Error()`; the driver prints a server error with its number.
abbrev error_text : DriverErr → Text
error_text (mysql_error number message) = text "Error " ++ decimal number ++ text ": " ++ message
error_text deadline_exceeded = text "context deadline exceeded"
error_text canceled = text "context canceled"
error_text (other_error message) = message

abbrev says : Text → DriverErr → Bool
says part e = contains part (to_lower (trim_space (error_text e)))

-- `isMySQLTxnContention`; the repository's own errors have none of the texts.
unfoldable pub is_txn_contention : SeckillErr → Bool
is_txn_contention (driver e) =
    says (text "error 1213") e
    || says (text "deadlock found") e
    || says (text "error 1205") e
    || says (text "lock wait timeout") e
is_txn_contention _ = false

-- `isMySQLTooManyConnections`
unfoldable pub is_too_many_connections : DriverErr → Bool
is_too_many_connections e = says (text "error 1040") e || says (text "too many connections") e

-- `isContextCancellation`
abbrev is_context_cancellation : DriverErr → Bool
is_context_cancellation deadline_exceeded = true
is_context_cancellation canceled = true
is_context_cancellation _ = false

-- `mapRepoErr`, of an error that is there.
unfoldable pub map_repo_err : SeckillErr → Code
map_repo_err activity_not_found = seckill_activity_not_found
map_repo_err activity_item_not_found = seckill_item_not_found
map_repo_err activity_state_conflict = seckill_activity_not_published
map_repo_err activity_out_of_stock = seckill_out_of_stock
map_repo_err activity_limit_exceeded = seckill_limit_exceeded
map_repo_err idempotency_conflict = seckill_purchase_conflict
map_repo_err invalid_params = db_error
map_repo_err (driver e) =
    if is_context_cancellation e || is_too_many_connections e || is_txn_contention (driver e)
    then seckill_purchase_conflict
    else db_error
