-- ===== src/Product/Repository/WellFormed.antt =====
-- What holds of the product database between two operations.
use flash_sale.Prelude.{
  is_some, ℕ, ℤ, ◌≤◌, true, Option, none, some, List, [], ◌∷◌, ◌≡◌, ◌≢◌, refl, arith, Bool-cases,
  inl, inr, positive,
}
use flash_sale.Text.{Text}
use flash_sale.Result.{Result, ok, err}
use flash_sale.Sql.{Faults, All, All-update}
use flash_sale.Product.Model.{
  Product, u32_max, Scene, stock_reserve, stock_release, IdempotencyRecord, ProductDb, ProductErr,
  idempotency_in_progress,
}
use flash_sale.Product.Repository.{
  ProductTx, find_record, is_record, replay_of, take_stock, add_stock, reserve_stock_tx,
  release_stock_tx, reserve_stock, release_stock, stock_tx, lock_idempotency_record_tx,
  mark_idempotency_done_tx, guarded,
}
use flash_sale.Product.Repository.Idempotency.{
  KeepsRecords, reserve_stock_tx-KeepsRecords, release_stock_tx-KeepsRecords, replayed, performed,
  claimed, performed-records,
}
use flash_sale.Product.Repository.Bounds.{Took, Gave, reserve_stock_tx-Took, release_stock_tx-Gave}
use flash_sale.Product.Repository.History.{
  StockOp, reserve, release, apply_op, run, GuardedRun, refused, succeeded, reserve_run,
  release_run,
}

abbrev pub StockFits : Product → Type 0
StockFits p = p.stock ≤ u32_max

abbrev pub IsFinished : IdempotencyRecord → Type 0
IsFinished r = is_some (replay_of r) ≡ true

pub record WellFormed (db : ProductDb) : Type 0 where
  pub stocks : All StockFits db.products
  pub finished : All IsFinished db.records

Took-StockFits :
    {id q : ℕ} {db : ProductDb} {n : ℕ} {mid : ProductDb}
    → Took id q db n mid
    → All StockFits db.products
    → All StockFits mid.products
Took-StockFits {id = id} {q = q} {db = db} t a = rw t.written (
    All-update (λ r. r.id) StockFits id (take_stock q) db.products
      (λ r _ h. let h' : r.stock ≤ u32_max = h in omega arith) a)

Gave-StockFits :
    {id q : ℕ} {db : ProductDb} {n : ℕ} {mid : ProductDb}
    → Gave id q db n mid
    → All StockFits db.products
    → All StockFits mid.products
Gave-StockFits {id = id} {q = q} {db = db} t a = rw t.written (
    All-update (λ r. r.id) StockFits id (add_stock q) db.products
      (λ r e _. let same : t.row ≡ r = cc (t.there, e) in ground (arith, t.fits, t.remains, same))
      a)

module _ {faults : Faults} {now : ℕ} {s : Scene} {key : Text} {body : ℕ → ProductTx ℕ}
    {quantity : ℤ} {db : ProductDb} {r : Result ProductErr ℕ × ProductDb} where
  run-WellFormed :
      ((q : ℕ) → KeepsRecords (body q))
      → ((q n : ℕ) (mid : ProductDb)
          → body q (claimed now s key db) ≡ ok (n, mid)
          → All StockFits mid.products)
      → GuardedRun faults now s key body quantity db r
      → WellFormed db
      → WellFormed r.1
  run-WellFormed keeps fits (refused e p) h = rw p h
  run-WellFormed keeps fits (succeeded q n p b o (replayed rec f x e)) h = rw e h
  run-WellFormed keeps fits (succeeded q n p b o (performed mid f x e)) h =
      rw (e, performed-records now s key (body q) (keeps q) db n mid x)
        (record { stocks = fits q n mid x; finished = (refl, h.finished) })

-- Every stock operation keeps every stock within its INT UNSIGNED column, and every committed
-- idempotency record finished with a result.
pub apply_op-WellFormed :
    (op : StockOp) (db : ProductDb) → WellFormed db → WellFormed (apply_op op db).1
unfolding apply_op
apply_op-WellFormed (reserve faults now id quantity key) db h =
    run-WellFormed (reserve_stock_tx-KeepsRecords faults id)
      (λ q n mid x. Took-StockFits (reserve_stock_tx-Took faults id q _ n mid x) h.stocks)
      (reserve_run faults now id quantity key db) h
apply_op-WellFormed (release faults now id quantity key) db h =
    run-WellFormed (release_stock_tx-KeepsRecords faults id)
      (λ q n mid x. Gave-StockFits (release_stock_tx-Gave faults id q _ n mid x) h.stocks)
      (release_run faults now id quantity key db) h

pub run-WellFormed_all :
    (ops : List StockOp) (db : ProductDb) → WellFormed db → WellFormed (run ops db)
unfolding run
run-WellFormed_all [] db h = h
run-WellFormed_all (op ∷ ops) db h =
    run-WellFormed_all ops (apply_op op db).1 (apply_op-WellFormed op db h)

find_record-IsFinished :
    (s : Scene) (key : Text) (rs : List IdempotencyRecord) {r : IdempotencyRecord}
    → All IsFinished rs
    → find_record s key rs ≡ some r
    → IsFinished r
unfolding find_record
find_record-IsFinished s key [] a h = ground arith
find_record-IsFinished s key (x ∷ rs) a h = elim (Bool-cases (is_record s key x)) [
  | inl b ↦ let p : some x ≡ some _ = (rw b at h) in ground (arith, a.0)
  | inr b ↦ find_record-IsFinished s key rs a.1 (rw b at h)
]

module _ (faults : Faults) (now : ℕ) (s : Scene) (key : Text) (body : ProductTx ℕ) (db : ProductDb)
    (w : WellFormed db) (plain : (db' : ProductDb) → body db' ≢ err idempotency_in_progress) where
  stock_tx_found :
      (o : Option IdempotencyRecord)
      → find_record s key db.records ≡ o
      → stock_tx faults now s key body db ≢ err idempotency_in_progress
  unfolding stock_tx lock_idempotency_record_tx mark_idempotency_done_tx
  stock_tx_found none e h = plain (claimed now s key db) (ground (arith, e))
  stock_tx_found (some r) e h =
      ground (arith, e, find_record-IsFinished s key db.records w.finished e)

reserve_stock_tx_plain :
    (faults : Faults) (id q : ℕ) (db : ProductDb)
    → reserve_stock_tx faults id q db ≢ err idempotency_in_progress
unfolding reserve_stock_tx
reserve_stock_tx_plain faults id q db h = ground arith

release_stock_tx_plain :
    (faults : Faults) (id q : ℕ) (db : ProductDb)
    → release_stock_tx faults id q db ≢ err idempotency_in_progress
unfolding release_stock_tx
release_stock_tx_plain faults id q db h = ground arith

guarded_plain :
    (o : Option ℕ) (key : Text) (db : ProductDb) (body : ℕ → ProductTx ℕ)
    → ((q : ℕ) → body q db ≢ err idempotency_in_progress)
    → (guarded o key db body).0 ≢ err idempotency_in_progress
guarded_plain none key db body h e = ground arith
guarded_plain (some q) key db body h e = h q (ground arith)

-- From a well-formed database no stock operation ever answers "in progress", whatever fails.
pub apply_op_never_in_progress :
    (op : StockOp) (db : ProductDb)
    → WellFormed db
    → (apply_op op db).0 ≢ err idempotency_in_progress
unfolding apply_op reserve_stock release_stock
apply_op_never_in_progress (reserve faults now id quantity key) db w =
    guarded_plain (positive quantity) key db _ (λ q.
      stock_tx_found faults now stock_reserve key (reserve_stock_tx faults id q) db w
        (reserve_stock_tx_plain faults id q) _ refl)
apply_op_never_in_progress (release faults now id quantity key) db w =
    guarded_plain (positive quantity) key db _ (λ q.
      stock_tx_found faults now stock_release key (release_stock_tx faults id q) db w
        (release_stock_tx_plain faults id q) _ refl)
