-- ===== src/Product/Repository/Verdict.antt =====
-- What a call for stock is told, as rules checked one after the other.
use flash_sale.Prelude.{
  ℕ, ℤ, positive, ◌+◌, ◌-◌, not, Option, none, some, ◌≡◌, arith, ltb, is_some, if◌then◌else◌,
}
use flash_sale.Text.{Text, is_blank}
use flash_sale.Result.{Result, ok, err}
use flash_sale.Sql.{no_faults, find}
use flash_sale.Product.Model.{
  Product, ProductDb, ProductErr, IdempotencyRecord, stock_reserve, stock_release, is_on_shelf,
  product_not_found, stock_not_enough, invalid_argument, idempotency_in_progress,
}
use flash_sale.Product.Repository.{
  find_record, lock_idempotency_record_tx, mark_idempotency_done_tx, reserve_stock_tx,
  release_stock_tx, stock_tx, reserve_stock, release_stock, u32_max, out_of_range,
}

-- A product that can be bought has the units, or not.
abbrev judge_reserve : ℕ → Option Product → Result ProductErr ℕ
judge_reserve q none = err product_not_found
judge_reserve q (some p) =
    if is_some p.deleted_at
    then err product_not_found
    else if not (is_on_shelf p.status)
    then err product_not_found
    else if ltb p.stock q
    then err stock_not_enough
    else ok (p.stock - q)

-- A product takes its units back whatever its status, as long as the column holds them.
abbrev judge_release : ℕ → Option Product → Result ProductErr ℕ
judge_release q none = err product_not_found
judge_release q (some p) = if ltb u32_max (p.stock + q) then err out_of_range else ok (p.stock + q)

-- A key that has been used answers as it did; one in use is told so.
abbrev judge_key : Option IdempotencyRecord → Result ProductErr ℕ → Result ProductErr ℕ
judge_key none fresh = fresh
judge_key (some r) fresh =
    if r.done
    then elim r.payload [ none ↦ err idempotency_in_progress | some n ↦ ok n ]
    else err idempotency_in_progress

abbrev judge_form : Option ℕ → Text → (ℕ → Result ProductErr ℕ) → Result ProductErr ℕ
judge_form none key judge = err invalid_argument
judge_form (some q) key judge = if is_blank key then err invalid_argument else judge q

unfoldable pub reserve_verdict : ℕ → ℤ → Text → ProductDb → Result ProductErr ℕ
reserve_verdict id quantity key db = judge_form (positive quantity) key (λ q.
    judge_key (find_record stock_reserve key db.records)
      (judge_reserve q (find (λ r. r.id) id db.products)))

unfoldable pub release_verdict : ℕ → ℤ → Text → ProductDb → Result ProductErr ℕ
release_verdict id quantity key db = judge_form (positive quantity) key (λ q.
    judge_key (find_record stock_release key db.records)
      (judge_release q (find (λ r. r.id) id db.products)))

module _ (now id : ℕ) (quantity : ℤ) (key : Text) (db : ProductDb) where
  -- Where the driver reports no error, a reservation answers what the rules say, in their order: the
  -- form, the key, the product, its stock.
  pub reserve_stock-eq_verdict :
      (reserve_stock no_faults now id quantity key db).0 ≡ reserve_verdict id quantity key db
  unfolding reserve_stock reserve_verdict stock_tx lock_idempotency_record_tx
      mark_idempotency_done_tx reserve_stock_tx
  reserve_stock-eq_verdict = ground (arith)

  -- Where the driver reports no error, a release answers what the rules say, in their order: the
  -- form, the key, the product, what the column holds.
  pub release_stock-eq_verdict :
      (release_stock no_faults now id quantity key db).0 ≡ release_verdict id quantity key db
  unfolding release_stock release_verdict stock_tx lock_idempotency_record_tx
      mark_idempotency_done_tx release_stock_tx
  release_stock-eq_verdict = ground (arith)
