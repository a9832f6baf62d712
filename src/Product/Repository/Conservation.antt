-- ===== src/Product/Repository/Conservation.antt =====
-- Stock over a history: nothing is sold twice, nothing is lost.
use flash_sale.Prelude.{
  is_some, ℕ, ℤ, ◌+◌, Bool, true, false, not, ◌&&◌, Option, none, some, List, [], ◌∷◌, ◌≡◌, refl,
  arith, nat_beq, if◌then◌else◌, positive,
}
use flash_sale.Text.{Text}
use flash_sale.Result.{Result, ok, err}
use flash_sale.Sql.{Faults}
use flash_sale.Product.Model.{Scene, stock_reserve, stock_release, ProductDb, ProductErr}
use flash_sale.Product.Repository.{
  find_record, reserve_stock_tx, release_stock_tx, reserve_stock, release_stock,
}
use flash_sale.Product.Repository.Idempotency.{replayed, performed, claimed}
use flash_sale.Product.Repository.Bounds.{
  stock_of, reserve_stock_tx-Took, release_stock_tx-Gave, stock_of-Took, stock_of-Gave,
}
use flash_sale.Product.Repository.History.{
  StockOp, reserve, release, apply_op, run, GuardedRun, refused, succeeded, reserve_run,
  release_run,
}

abbrev pub is_ok {ℓ κ} : {E : Type ℓ} {A : Type κ} → Result E A → Bool
is_ok (ok _) = true
is_ok (err _) = false

abbrev amount : Option ℕ → ℕ
amount none = 0
amount (some n) = n

-- The units that a call moves: those it asks for, if it succeeds under a key not seen before.
abbrev pub moved : Scene → Text → ℤ → ProductDb → Result ProductErr ℕ → ℕ
moved s key quantity db r =
    if is_ok r && not (is_some (find_record s key db.records))
    then amount (positive quantity)
    else 0

-- The units of product `pid` that a call takes, and those that it gives back.
unfoldable pub taken : ℕ → StockOp → ProductDb → ℕ
taken pid (reserve faults now id quantity key) db =
    if nat_beq id pid
    then moved stock_reserve key quantity db (reserve_stock faults now id quantity key db).0
    else 0
taken pid (release faults now id quantity key) db = 0

unfoldable pub given : ℕ → StockOp → ProductDb → ℕ
given pid (reserve faults now id quantity key) db = 0
given pid (release faults now id quantity key) db =
    if nat_beq id pid
    then moved stock_release key quantity db (release_stock faults now id quantity key db).0
    else 0

unfoldable pub total_taken : ℕ → List StockOp → ProductDb → ℕ
total_taken pid [] db = 0
total_taken pid (op ∷ ops) db = taken pid op db + total_taken pid ops (apply_op op db).1

unfoldable pub total_given : ℕ → List StockOp → ProductDb → ℕ
total_given pid [] db = 0
total_given pid (op ∷ ops) db = given pid op db + total_given pid ops (apply_op op db).1

module _ (pid : ℕ) (faults : Faults) (now id : ℕ) (key : Text) (quantity : ℤ) (db : ProductDb)
    (r : Result ProductErr ℕ × ProductDb) where
  taken_run :
      GuardedRun faults now stock_reserve key (reserve_stock_tx faults id) quantity db r
      → stock_of pid r.1 + (if nat_beq id pid then moved stock_reserve key quantity db r.0 else 0)
        ≡ stock_of pid db
  taken_run (refused e p) = rw p (ground arith)
  taken_run (succeeded q n p b o (replayed rec f x e)) = rw (o, e) (ground (arith, f))
  taken_run (succeeded q n p b o (performed mid f x e)) =
      rw (o, e)
        (ground (
          arith,
          f,
          p,
          stock_of-Took id q (claimed now stock_reserve key db) n mid pid
              (reserve_stock_tx-Took faults id q _ n mid x),
        ))

  given_run :
      GuardedRun faults now stock_release key (release_stock_tx faults id) quantity db r
      → stock_of pid r.1
        ≡ stock_of pid db + (if nat_beq id pid then moved stock_release key quantity db r.0 else 0)
  given_run (refused e p) = rw p (ground arith)
  given_run (succeeded q n p b o (replayed rec f x e)) = rw (o, e) (ground (arith, f))
  given_run (succeeded q n p b o (performed mid f x e)) =
      rw (o, e)
        (ground (
          arith,
          f,
          p,
          stock_of-Gave id q (claimed now stock_release key db) n mid pid
              (release_stock_tx-Gave faults id q _ n mid x),
        ))

apply_op_stock :
    (pid : ℕ) (op : StockOp) (db : ProductDb)
    → stock_of pid (apply_op op db).1 + taken pid op db ≡ stock_of pid db + given pid op db
unfolding apply_op taken given
apply_op_stock pid (reserve faults now id quantity key) db = omega (
  arith,
  taken_run pid faults now id key quantity db _ (reserve_run faults now id quantity key db),
)
apply_op_stock pid (release faults now id quantity key) db = omega (
  arith,
  given_run pid faults now id key quantity db _ (release_run faults now id quantity key db),
)

-- Over any history of reservations and releases, with whatever faults, guards and repetitions: what
-- is left of a product's stock and what was taken add up to what there was and what was given back.
pub run-stock_of :
    (pid : ℕ) (ops : List StockOp) (db : ProductDb)
    → stock_of pid (run ops db) + total_taken pid ops db ≡ stock_of pid db + total_given pid ops db
unfolding run total_taken total_given
run-stock_of pid [] db = refl
run-stock_of pid (op ∷ ops) db =
    omega (arith, apply_op_stock pid op db, run-stock_of pid ops (apply_op op db).1)
