-- ===== src/Sql.antt =====
-- What the repositories use of the database: the driver's errors, transactions and tables.
mod Transactions
mod Tables
pub use Transactions.{
  DriverErr, mysql_error, deadline_exceeded, canceled, other_error, Faults, no_faults, Tx, pure,
  fail, gets, modify, call, ◌>>=◌, ◌>>◌, run_tx, run_tx_rollback, run_tx_induction, run_tx-eq_ok,
}
pub use Tables.{KeepsKey, find-update, find-insert, or_else, All, All-update, All-insert, All-find}
unfoldable pub use Tables.{find, update, insert}
