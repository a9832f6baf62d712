-- ===== src/Product/Repository.antt =====
-- apps/product/rpc/internal/repository/mysql_product_repository.go: the stock operations. The
-- repository and its connection are there (the `nil` guards do not fire).
use flash_sale.Prelude.{
  ℕ, ◌+◌, ◌-◌, ◌*◌, Bool, true, false, not, ◌&&◌, ◌||◌, Option, none, some, List, [], ◌∷◌, ltb, leb,
  is_some, if◌then◌else◌, ℤ, positive,
}
pub mod Verdict
pub mod Idempotency
pub mod History
pub mod Retry
pub mod Conservation
pub mod WellFormed
pub mod Bounds
use flash_sale.Text.{Text, text, text_beq, is_blank}
use flash_sale.Result.{Result, err}
use flash_sale.Sql.{
  DriverErr, mysql_error, Faults, Tx, pure, fail, gets, modify, call, ◌>>=◌, ◌>>◌, run_tx, find,
  update,
}
use flash_sale.Product.Model.{
  Product, is_on_shelf, u32_max, Scene, stock_reserve, stock_release, scene_beq, IdempotencyRecord,
  ProductDb, ProductErr, product_not_found, stock_not_enough, idempotency_in_progress,
  invalid_argument, driver,
}

abbrev pub ProductTx : Type 0 → Type 0
ProductTx A = Tx ProductErr ProductDb A

abbrev at : Option DriverErr → ProductTx (Unit {0})
at = call driver

-- `WHERE idempotency_key = ? AND scene = ?`
abbrev pub is_record : Scene → Text → IdempotencyRecord → Bool
is_record scene key r = text_beq r.key key && scene_beq r.scene scene

-- `queryIdempotencySQL`
unfoldable pub find_record : Scene → Text → List IdempotencyRecord → Option IdempotencyRecord
find_record scene key [] = none
find_record scene key (r ∷ rs) = if is_record scene key r then some r else find_record scene key rs

-- `updateIdempotencyDoneSQL`
unfoldable pub mark_done : Scene → Text → ℕ → ℕ → List IdempotencyRecord → List IdempotencyRecord
mark_done scene key remain expired_at [] = []
mark_done scene key remain expired_at (r ∷ rs) =
    if is_record scene key r
    then record r { done = true; payload = some remain; expired_at = expired_at } ∷ rs
    else r ∷ mark_done scene key remain expired_at rs

-- 24 hours in nanoseconds
abbrev idempotency_record_ttl : ℕ
idempotency_record_ttl = 24 * 3600 * 1000000000

abbrev new_record : Scene → Text → ℕ → IdempotencyRecord
new_record scene key expired_at = record {
  key = key;
  scene = scene;
  done = false;
  payload = none;
  expired_at = expired_at;
}

-- `readIdempotencyReplayTx` and what `lockIdempotencyRecordTx` makes of it: a finished record
-- yields the remaining stock that it remembers.
abbrev pub replay_of : IdempotencyRecord → Option ℕ
replay_of r = if r.done then r.payload else none

abbrev replay_or_fail : Option ℕ → ProductTx (Option ℕ)
replay_or_fail none = fail idempotency_in_progress
replay_or_fail (some remain) = pure (some remain)

abbrev claim_or_replay : Faults → ℕ → Scene → Text → Option IdempotencyRecord → ProductTx (Option ℕ)
claim_or_replay faults now scene key none = do
  modify (λ db. record db {
    records = new_record scene key (now + idempotency_record_ttl) ∷ db.records;
  })
  pure none
claim_or_replay faults now scene key (some r) = do at (faults 2); replay_or_fail (replay_of r)

-- `lockIdempotencyRecordTx`: the unique key lets one claim in; `some` is a replay. Its flag
-- `inserted` only guards a delete that the rollback after it undoes anyway.
unfoldable pub lock_idempotency_record_tx : Faults → ℕ → Scene → Text → ProductTx (Option ℕ)
lock_idempotency_record_tx faults now scene key = do
  at (faults 1)
  found ← gets (λ db. find_record scene key db.records)
  claim_or_replay faults now scene key found

-- `markIdempotencyDoneTx`
unfoldable pub mark_idempotency_done_tx : Faults → ℕ → Scene → Text → ℕ → ProductTx (Unit {0})
mark_idempotency_done_tx faults now scene key remain = do
  at (faults 6)
  modify (λ db. record db {
    records = mark_done scene key remain (now + idempotency_record_ttl) db.records;
  })

-- The `WHERE` of `reserveStockSQL` at the row with the id.
abbrev pub reservable : ℕ → Product → Bool
reservable quantity p = is_on_shelf p.status && not (is_some p.deleted_at) && leb quantity p.stock

abbrev pub take_stock : ℕ → Product → Product
take_stock quantity p = record p { stock = p.stock - quantity }

abbrev pub add_stock : ℕ → Product → Product
add_stock quantity p = record p { stock = p.stock + quantity }

-- `loadProductStateTx` and the tests on its result, after an update of no row.
abbrev pub reserve_miss : ℕ → Product → ProductErr
reserve_miss quantity p =
    if is_some p.deleted_at || not (is_on_shelf p.status)
    then product_not_found
    else if ltb p.stock quantity
    then stock_not_enough
    else product_not_found

abbrev reserve_found : Faults → ℕ → ℕ → Option Product → ProductTx ℕ
reserve_found faults product_id quantity none = do at (faults 5); fail product_not_found
reserve_found faults product_id quantity (some p) =
    if reservable quantity p
    then (do
      modify (λ db. record db {
        products = update (λ r. r.id) product_id (take_stock quantity) db.products;
      })
      at (faults 5)
      pure (p.stock - quantity))
    else (do at (faults 5); fail (reserve_miss quantity p))

-- `reserveStockTx`
unfoldable pub reserve_stock_tx : Faults → ℕ → ℕ → ProductTx ℕ
reserve_stock_tx faults product_id quantity = do
  at (faults 3)
  at (faults 4)
  found ← gets (λ db. find (λ r. r.id) product_id db.products)
  reserve_found faults product_id quantity found

-- A sum that INT UNSIGNED does not hold is refused by the server.
abbrev out_of_range : ProductErr
out_of_range = driver (mysql_error 1264 (text "Out of range value for column 'stock'"))

abbrev release_found : Faults → ℕ → ℕ → Option Product → ProductTx ℕ
release_found faults product_id quantity none = fail product_not_found
release_found faults product_id quantity (some p) =
    if ltb u32_max (p.stock + quantity) then fail out_of_range else (do
      modify (λ db. record db {
        products = update (λ r. r.id) product_id (add_stock quantity) db.products;
      })
      at (faults 5)
      pure (p.stock + quantity))

-- `releaseStockTx`
unfoldable pub release_stock_tx : Faults → ℕ → ℕ → ProductTx ℕ
release_stock_tx faults product_id quantity = do
  at (faults 3)
  at (faults 4)
  found ← gets (λ db. find (λ r. r.id) product_id db.products)
  release_found faults product_id quantity found

abbrev finish : Faults → ℕ → Scene → Text → ProductTx ℕ → Option ℕ → ProductTx ℕ
finish faults now scene key body (some remain) = do at (faults 7); pure remain
finish faults now scene key body none = do
  remain ← body
  mark_idempotency_done_tx faults now scene key remain
  at (faults 7)
  pure remain

-- The shape that `ReserveStock` and `ReleaseStock` share: claim or replay, do it, mark it, commit.
unfoldable pub stock_tx : Faults → ℕ → Scene → Text → ProductTx ℕ → ProductTx ℕ
stock_tx faults now scene key body = do
  at (faults 0)
  replay ← lock_idempotency_record_tx faults now scene key
  finish faults now scene key body replay

abbrev guarded : Option ℕ → Text → ProductDb → (ℕ → ProductTx ℕ) → Result ProductErr ℕ × ProductDb
guarded none key db body = (err invalid_argument, db)
guarded (some quantity) key db body =
    if is_blank key then (err invalid_argument, db) else run_tx (body quantity) db

-- `ReserveStock`
unfoldable pub reserve_stock :
    Faults → ℕ → ℕ → ℤ → Text → ProductDb → Result ProductErr ℕ × ProductDb
reserve_stock faults now product_id quantity key db =
    guarded (positive quantity) key db
      λ q. stock_tx faults now stock_reserve key (reserve_stock_tx faults product_id q)

-- `ReleaseStock`
unfoldable pub release_stock :
    Faults → ℕ → ℕ → ℤ → Text → ProductDb → Result ProductErr ℕ × ProductDb
release_stock faults now product_id quantity key db =
    guarded (positive quantity) key db
      λ q. stock_tx faults now stock_release key (release_stock_tx faults product_id q)
