-- ===== src/Product/Repository/Retry.antt =====
-- A key that has reserved stock once never reserves again, whatever happens in between.
use flash_sale.Prelude.{ℕ, ℤ, false, some, List, [], ◌∷◌, ◌≡◌, ap, arith, positive}
use flash_sale.Text.{Text, is_blank}
use flash_sale.Result.{Result, ok}
use flash_sale.Sql.{Faults, no_faults}
use flash_sale.Product.Model.{Scene, stock_reserve, stock_release, ProductDb, ProductErr}
use flash_sale.Product.Repository.{
  ProductTx, stock_tx, reserve_stock_tx, release_stock_tx, reserve_stock, release_stock,
  lock_idempotency_record_tx, guarded,
}
use flash_sale.Product.Repository.Idempotency.{
  KeepsRecords, reserve_stock_tx-KeepsRecords, release_stock_tx-KeepsRecords, Remembers,
  Ran-Remembers, Ran-Remembers_stable,
}
use flash_sale.Product.Repository.History.{
  StockOp, reserve, release, apply_op, run, GuardedRun, refused, succeeded, reserve_run,
  release_run,
}

module _ (s : Scene) (key : Text) (n : ℕ) where
  -- A remembered key replays its result and changes nothing.
  replay_remembered :
      (now : ℕ) (q : ℕ) (body : ProductTx ℕ) (db : ProductDb)
      → Remembers s key n db
      → stock_tx no_faults now s key body db ≡ ok (n, db)
  unfolding stock_tx lock_idempotency_record_tx
  replay_remembered now q body db h = ground (arith, h.stored, h.replays)

  run_keeps_memory :
      {faults : Faults} {now : ℕ} {s' : Scene} {key' : Text} {body : ℕ → ProductTx ℕ} {quantity : ℤ}
      {db : ProductDb} {r : Result ProductErr ℕ × ProductDb}
      → ((q : ℕ) → KeepsRecords (body q))
      → GuardedRun faults now s' key' body quantity db r
      → Remembers s key n db
      → Remembers s key n r.1
  run_keeps_memory keeps (refused e p) h = rw (ap (λ r. r.1) p) h
  run_keeps_memory keeps (succeeded q m p b p' ran) h =
      Ran-Remembers_stable _ _ _ _ (keeps q) _ _ _ s key n ran h

  apply_op-Remembers :
      (op : StockOp) (db : ProductDb) → Remembers s key n db → Remembers s key n (apply_op op db).1
  unfolding apply_op
  apply_op-Remembers (reserve faults now id quantity key') db h =
      run_keeps_memory (reserve_stock_tx-KeepsRecords faults id)
        (reserve_run faults now id quantity key' db) h
  apply_op-Remembers (release faults now id quantity key') db h =
      run_keeps_memory (release_stock_tx-KeepsRecords faults id)
        (release_run faults now id quantity key' db) h

  run-Remembers :
      (ops : List StockOp) (db : ProductDb) → Remembers s key n db → Remembers s key n (run ops db)
  unfolding run
  run-Remembers [] db h = h
  run-Remembers (op ∷ ops) db h = run-Remembers ops (apply_op op db).1 (apply_op-Remembers op db h)

-- Past the guards, the result is the transaction's.
guarded_ok :
    (quantity : ℤ) {q : ℕ} (key : Text) (db : ProductDb) (body : ℕ → ProductTx ℕ) {n : ℕ}
    → positive quantity ≡ some q
    → is_blank key ≡ false
    → body q db ≡ ok (n, db)
    → guarded (positive quantity) key db body ≡ (ok n, db)
guarded_ok quantity key db body p b h = rw (p, b) (ground (arith, h))

success-Remembers :
    {faults : Faults} {now : ℕ} {s : Scene} {key : Text} {body : ℕ → ProductTx ℕ} {quantity : ℤ}
    {db : ProductDb} {r : Result ProductErr ℕ × ProductDb} {n : ℕ}
    → ((q : ℕ) → KeepsRecords (body q))
    → GuardedRun faults now s key body quantity db r
    → r.0 ≡ ok n
    → Remembers s key n r.1 × (is_blank key ≡ false)
success-Remembers keeps (refused e p) h = absurd (ground (arith, p))
success-Remembers {n = n} keeps (succeeded q m p b p' ran) h =
    let e : m ≡ n = ground (arith, p', h) in
    (rw (← e) (Ran-Remembers _ _ _ _ (keeps q) _ _ _ ran), b)

-- Once a reservation under a key has succeeded with a remaining stock n, every later reservation
-- under that key, for any product and any positive quantity, after any history of stock operations,
-- answers n again and changes nothing, where the driver reports no error: it takes no stock.
pub reserved_key_is_spent :
    (faults : Faults) (now id : ℕ) (quantity : ℤ) (key : Text) (db : ProductDb) {n : ℕ}
    → (reserve_stock faults now id quantity key db).0 ≡ ok n
    → (ops : List StockOp) (now' id' : ℕ) (quantity' : ℤ) {q' : ℕ} → positive quantity' ≡ some q'
    → let later = run ops (reserve_stock faults now id quantity key db).1 in
      reserve_stock no_faults now' id' quantity' key later ≡ (ok n, later)
reserved_key_is_spent faults now id quantity key db {n} h ops now' id' quantity' {q'} p =
    let (known, plain) =
      success-Remembers (reserve_stock_tx-KeepsRecords faults id)
        (reserve_run faults now id quantity key db) h in
    let later = run ops (reserve_stock faults now id quantity key db).1 in
    let again =
      replay_remembered stock_reserve key n now' q' (reserve_stock_tx no_faults id' q') later
        (run-Remembers stock_reserve key n ops _ known) in
    unfold reserve_stock in guarded_ok quantity' key later _ p plain again

-- Once a release under a key has succeeded with a stock n, every later release under that key, for
-- any product and any positive quantity, after any history of stock operations, answers n again and
-- changes nothing, where the driver reports no error: it gives nothing back.
pub released_key_is_spent :
    (faults : Faults) (now id : ℕ) (quantity : ℤ) (key : Text) (db : ProductDb) {n : ℕ}
    → (release_stock faults now id quantity key db).0 ≡ ok n
    → (ops : List StockOp) (now' id' : ℕ) (quantity' : ℤ) {q' : ℕ} → positive quantity' ≡ some q'
    → let later = run ops (release_stock faults now id quantity key db).1 in
      release_stock no_faults now' id' quantity' key later ≡ (ok n, later)
released_key_is_spent faults now id quantity key db {n} h ops now' id' quantity' {q'} p =
    let (known, plain) =
      success-Remembers (release_stock_tx-KeepsRecords faults id)
        (release_run faults now id quantity key db) h in
    let later = run ops (release_stock faults now id quantity key db).1 in
    let again =
      replay_remembered stock_release key n now' q' (release_stock_tx no_faults id' q') later
        (run-Remembers stock_release key n ops _ known) in
    unfold release_stock in guarded_ok quantity' key later _ p plain again
