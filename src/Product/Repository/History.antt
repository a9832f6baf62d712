-- ===== src/Product/Repository/History.antt =====
-- The stock over any history of reservations and releases.

use flash_sale.Prelude.{
  ℕ, ℤ, false, Option, none, some, List, [], ◌∷◌, ◌≡◌, refl, ap, arith, Bool-cases, inl, inr,
  positive,
}
use flash_sale.Text.{Text, is_blank}
use flash_sale.Result.{Result, ok, err}
use flash_sale.Sql.{Faults}
use flash_sale.Product.Model.{
  Scene, stock_reserve, stock_release, ProductDb, ProductErr, invalid_argument,
}
use flash_sale.Product.Repository.{
  ProductTx, guarded, stock_tx, reserve_stock_tx, release_stock_tx, reserve_stock, release_stock,
}
use flash_sale.Product.Repository.Idempotency.{Ran, stock_tx-Ran}

-- One call of the repository, with what the driver reports during it.
pub data StockOp : Type 0 where
  reserve : Faults → ℕ → ℕ → ℤ → Text → StockOp
  release : Faults → ℕ → ℕ → ℤ → Text → StockOp

unfoldable pub apply_op : StockOp → ProductDb → Result ProductErr ℕ × ProductDb
apply_op (reserve faults now id quantity key) db = reserve_stock faults now id quantity key db
apply_op (release faults now id quantity key) db = release_stock faults now id quantity key db

unfoldable pub run : List StockOp → ProductDb → ProductDb
run [] db = db
run (op ∷ ops) db = run ops (apply_op op db).1

-- The ways in which a guarded operation goes.
pub data GuardedRun (faults : Faults) (now : ℕ) (s : Scene) (key : Text) (body : ℕ → ProductTx ℕ)
    (quantity : ℤ) (db : ProductDb) (r : Result ProductErr ℕ × ProductDb) : Type 0 where
  refused : (e : ProductErr) → r ≡ (err e, db) → GuardedRun faults now s key body quantity db r
  succeeded :
      (q n : ℕ)
      → positive quantity ≡ some q
      → is_blank key ≡ false
      → r.0 ≡ ok n
      → Ran now s key (body q) db n r.1
      → GuardedRun faults now s key body quantity db r

module _ (faults : Faults) (now : ℕ) (s : Scene) (key : Text) (body : ℕ → ProductTx ℕ)
    (quantity : ℤ) (db : ProductDb) where
  abbrev outcome : Result ProductErr ℕ × ProductDb
  outcome = guarded (positive quantity) key db λ q. stock_tx faults now s key (body q)

  tx_outcome :
      (q : ℕ) (t : Result ProductErr (ℕ × ProductDb))
      → positive quantity ≡ some q
      → is_blank key ≡ false
      → stock_tx faults now s key (body q) db ≡ t
      → GuardedRun faults now s key body quantity db outcome
  tx_outcome q (err e) p b h = refused e (ground (arith, p, b, h))
  tx_outcome q (ok (n, db')) p b h =
      let e : outcome ≡ (ok n, db') = ground (arith, p, b, h) in
      succeeded q n p b (ap (λ r. r.0) e) (rw e (stock_tx-Ran faults now s key (body q) db n db' h))

  key_outcome :
      (q : ℕ) → positive quantity ≡ some q → GuardedRun faults now s key body quantity db outcome
  key_outcome q p = elim (Bool-cases (is_blank key)) [
    | inl b ↦ refused invalid_argument (ground (arith, p, b))
    | inr b ↦ tx_outcome q _ p b refl
  ]

  quantity_outcome :
      (o : Option ℕ) → positive quantity ≡ o → GuardedRun faults now s key body quantity db outcome
  quantity_outcome none p = refused invalid_argument (ground (arith, p))
  quantity_outcome (some q) p = key_outcome q p

pub reserve_run :
    (faults : Faults) (now id : ℕ) (quantity : ℤ) (key : Text) (db : ProductDb)
    → GuardedRun faults now stock_reserve key
        (reserve_stock_tx faults id)
        quantity
        db
        (reserve_stock faults now id quantity key db)
unfolding reserve_stock
reserve_run faults now id quantity key db =
    quantity_outcome faults now stock_reserve key (reserve_stock_tx faults id) quantity db _ refl

pub release_run :
    (faults : Faults) (now id : ℕ) (quantity : ℤ) (key : Text) (db : ProductDb)
    → GuardedRun faults now stock_release key
        (release_stock_tx faults id)
        quantity
        db
        (release_stock faults now id quantity key db)
unfolding release_stock
release_run faults now id quantity key db =
    quantity_outcome faults now stock_release key (release_stock_tx faults id) quantity db _ refl
