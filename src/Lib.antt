-- ===== src/Lib.antt =====
-- FlashSale: an e-commerce back end of Go services over MySQL, Redis, Kafka and gRPC. This library
-- models the parts that decide about stock and money, from the Go code and the SQL texts in it.
--
-- The parts and how they interact
--   apps/product: the product table and its stock. Other services reserve and release stock under
--     an idempotency key, which the product service remembers with the answer.
--   apps/order: orders with five statuses (order, payment, review, shipping, refund), moved by
--     guarded updates that each append an event in the same transaction.
--   apps/seckill: activities with items that hold stock of their own. A purchase takes units from
--     an item and writes a row of the stock ledger; a compensation or a closed order gives them back.
--   pkg/base/errorx and pkg/base/grpcerr: the error codes that services exchange.
--
-- The files
--   Prelude, Text, Result, Sql: numbers, Go strings as lists of code points (with TrimSpace), Go's
--     results with an error, tables as lists of rows, and database/sql transactions.
--   Errorx: pkg/base/errorx/error.go. Grpcerr: pkg/base/grpcerr/grpcerr.go (ToStatus, FromStatus,
--     codeToGRPC, grpcToCode, parseCode), over an interface for the status library.
--   Product/Model, Product/Repository: apps/product/rpc/internal/model/product.go and
--     internal/repository/mysql_product_repository.go (ReserveStock, ReleaseStock and what they call).
--     Its children: Idempotency, Bounds, History, Retry, Conservation, WellFormed, Verdict.
--   Product/Catalog: the other operations of that repository. Its children: Deleted, Pages.
--   Order/Model, Order/Updates, Order/Repository: apps/order/rpc/internal/model/order.go and
--     internal/repository/mysql_order_repository.go. Updates has the twelve guarded updates, each as
--     its WHERE and its SET; Repository runs them (execWithEvent), and has MarkStockReleased, Create,
--     FindByID and FindByOrderNo. Its children: Operations, Phases, Finality, Audit, and Lists with
--     the paged lists and the lists of the jobs.
--   Order/Service: apps/order/rpc/internal/logic. World has the state that a handler acts on, what it
--     meets (Env, Rpc) and the actions (Act), which keep what they have done when they answer with an
--     error. Input and Views are common.go; Steps is stock_helper.go and seckill_order_event.go;
--     Buyer, Admin, Creation, Queries, Seckill, Jobs (timeout_job_logic.go) and Consumer
--     (purchase_create_consumer.go) are the handlers. Proofs: Inversion, History (Handlers, Jobs,
--     Seckill, Calls), Cancellation, Delivery, Timeliness, Numbers; and Deeds, which writes down what
--     the handlers of one order may do (with Rows, Moves, Asked, Handlers, Rejection).
--   Product/Service: apps/product/rpc/internal/logic, with Forms (common.go), Stock
--     (stock_order_logic.go) and the proofs of Trades, Valid and Calls.
--   Seckill/Model, Seckill/Rules, Seckill/Repository: apps/seckill/rpc/internal/model/seckill.go and
--     internal/repository/purchase_repo.go. Rules has the conditions of a purchase. The children
--     of Repository: Effects, History, Reconcile, Admission, Retry, LedgerIds.
--   Seckill/Purchase: Purchase of apps/seckill/rpc/internal/logic/purchase_logic.go. World has the state
--     and what a purchase meets (Env), Errors the reading of database errors in common.go, Taking what
--     is taken and given back, and the file itself the phases. Proofs: Repeat, Reservation, Backed.
--   Seckill/Consumers: order_state_consumer.go there, with Compensation (stock_compensate_consumer.go)
--     and the proof of Redelivery.
--   Seckill/Cache: the Redis scripts of apps/seckill/rpc/internal/logic/purchase_cache.go, over the
--     values of the keys that one request names. Its children: Limits, Undo.
--   Witness: concrete runs, at which the theorems apply.
--
-- How the code is read
--   A database is a record of tables and a call of a repository is a function of it. `Faults n` is
--   what the driver reports at the n-th database call of an operation, in source order; it stands
--   for every failure of a statement, of BeginTx and of Commit. A failed Commit is a rollback.
--   Isolation makes the transactions on a row follow each other, so histories are lists of calls.
--   RowsAffected counts changed rows. An update of stock or of an order's status always changes its
--   row; the update of a product may change nothing, and then counts none.
--   Times are nanoseconds. Stocks are INT UNSIGNED: a sum beyond 2^32 - 1 is refused by the server.
--   The loops are recursions on lists or on the number of retries that the code allows. The digits of
--   a decimal number are counted by a fuel of twenty, which an int64 needs nineteen of.
--   The order service calls the product service's handlers on its database: a call runs and is
--   answered, is not run, or runs and its answer is lost (Rpc). An error in a handler is its code.
--   Time, the snowflake node, SHA-1, JSON decoding, what the broker does with a message and the order
--   of rows with one creation time are parameters; that order is an argument of each call of a paged
--   list, as two queries may differ in it.
--
-- What is not modelled
--   The nil guards of the repositories; collation (keys are compared byte by byte); the lengths of
--   VARCHAR columns and the rounding of DATETIME; the messages of errors made by fmt.Errorf; the
--   encoding of an idempotency record's JSON payload, which is its number. Ids that a caller has
--   checked to be positive are natural numbers. Requests that are missing, services that are not
--   initialised, the access token's contents, the queue behind the state events, what other
--   processes do while a handler waits, the rest of the seckill service's handlers, the gateways, the user
--   and admin services, the operations console and the front end are left out.
mod Prelude
pub mod Text
pub mod Result
pub mod Sql
pub mod Errorx
pub mod Grpcerr
pub mod Product
pub mod Order
pub mod Seckill
mod Witness
