-- ===== src/Seckill/Repository/History.antt =====
-- Sequences of purchase reservations and releases, and what one of them writes.
use flash_sale.Prelude.{
  ℕ, ℤ, pos, Bool, true, false, Option, none, some, List, [], ◌∷◌, ◌≡◌, refl, arith, if◌then◌else◌,
  positive,
}
use flash_sale.Text.{Text, is_blank}
use flash_sale.Result.{Result, ok, err}
use flash_sale.Sql.{Faults}
use flash_sale.Seckill.Model.{
  LedgerKind, LedgerRow, SeckillDb, PurchaseReservation, SeckillErr, invalid_params,
}
use flash_sale.Seckill.Repository.{
  positives, release_row, reserve_purchase, compensate_release_purchase, release_purchase_by_order,
  run_reserve, run_release, run_close,
}
use flash_sale.Seckill.Repository.Effects.{Reserved, Reserved-found, Released, Released-found}

-- One call of the repository, with its arguments and the faults that it meets.
pub data SeckillOp : Type 0 where
  purchase : Faults → Bool → ℕ → ℤ → ℤ → ℕ → ℤ → Text → ℕ → SeckillOp
  compensate : Faults → ℕ → ℤ → ℤ → ℤ → Text → SeckillOp
  close : Faults → ℕ → ℤ → ℤ → ℤ → ℤ → Text → SeckillOp

abbrev pub forget : Result SeckillErr PurchaseReservation → Result SeckillErr (Unit {0})
forget (ok _) = ok tt
forget (err e) = err e

unfoldable pub apply_op : SeckillOp → SeckillDb → Result SeckillErr (Unit {0}) × SeckillDb
apply_op (purchase faults check ledger_id a i user_id q key now) db =
    let r = reserve_purchase faults check ledger_id a i user_id q key now db in (forget r.0, r.1)
apply_op (compensate faults ledger_id a i q key) db =
    compensate_release_purchase faults ledger_id a i q key db
apply_op (close faults ledger_id a i o q key) db =
    release_purchase_by_order faults ledger_id a i o q key db

unfoldable pub run : List SeckillOp → SeckillDb → SeckillDb
run [] db = db
run (op ∷ ops) db = run ops (apply_op op db).1

-- What a call may write.
pub data Wrote (db db' : SeckillDb) : Type 0 where
  nothing : db' ≡ db → Wrote db db'
  took :
      (check : Bool) (ledger_id a i user_id q : ℕ) (key : Text) (now : ℕ)
      (got : PurchaseReservation)
      → Reserved check ledger_id a i user_id q key now db got db'
      → Wrote db db'
  returned : (row : LedgerRow) (q : ℕ) → row.delta ≡ pos q → Released row q db db' → Wrote db db'

module _ (faults : Faults) (check : Bool) (ledger_id user_id : ℕ) (key : Text) (now : ℕ)
    (db : SeckillDb) where
  -- A reservation that answers without an error was asked for with positive numbers, and went through.
  pub reserve_done :
      (a i q : ℕ) (got : PurchaseReservation)
      → (run_reserve faults check ledger_id user_id key now db (some (a, i, q))).0 ≡ ok got
      → Reserved check ledger_id a i user_id q key now db got
          (run_reserve faults check ledger_id user_id key now db (some (a, i, q))).1
  reserve_done a i q got h =
      Reserved-found faults check ledger_id a i user_id q key now db got _ _ _ _ _ refl refl refl
        refl (ground arith)

  reserve_result :
      (a i q : ℕ) (r : Result SeckillErr PurchaseReservation)
      → (run_reserve faults check ledger_id user_id key now db (some (a, i, q))).0 ≡ r
      → Wrote db (run_reserve faults check ledger_id user_id key now db (some (a, i, q))).1
  reserve_result a i q (ok got) h = took _ _ _ _ _ _ _ _ _ (reserve_done a i q got h)
  reserve_result a i q (err e) h = nothing (ground arith)

  pub reserve-Wrote :
      (p : Option (ℕ × ℕ × ℕ))
      → Wrote db (run_reserve faults check ledger_id user_id key now db p).1
  reserve-Wrote none = nothing refl
  reserve-Wrote (some (a, i, q)) = reserve_result a i q _ refl

module _ (faults : Faults) (ledger_id order_id : ℕ) (kind : LedgerKind) (key : Text)
    (db : SeckillDb) where
  pub release_done :
      (a i q : ℕ)
      → (run_release faults ledger_id order_id kind key db (some (a, i, q))).0 ≡ ok tt
      → Released
          (release_row ledger_id a i order_id kind q key)
          q
          db
          (run_release faults ledger_id order_id kind key db (some (a, i, q))).1
  release_done a i q h = Released-found faults _ q db _ _ _ refl refl (ground arith)

  release_result :
      (a i q : ℕ) (r : Result SeckillErr (Unit {0}))
      → (run_release faults ledger_id order_id kind key db (some (a, i, q))).0 ≡ r
      → Wrote db (run_release faults ledger_id order_id kind key db (some (a, i, q))).1
  release_result a i q (ok tt) h = returned _ q refl (release_done a i q h)
  release_result a i q (err e) h = nothing (ground arith)

  pub release-Wrote :
      (p : Option (ℕ × ℕ × ℕ)) → Wrote db (run_release faults ledger_id order_id kind key db p).1
  release-Wrote none = nothing refl
  release-Wrote (some (a, i, q)) = release_result a i q _ refl

guarded-Wrote :
    (b : Bool) (db : SeckillDb) (r : Result SeckillErr (Unit {0}) × SeckillDb)
    → Wrote db r.1
    → Wrote db (if b then (err invalid_params, db) else r).1
guarded-Wrote true db r w = nothing refl
guarded-Wrote false db r w = w

close-Wrote :
    (faults : Faults) (ledger_id : ℕ) (a i q : ℤ) (key : Text) (db : SeckillDb) (o : Option ℕ)
    → Wrote db (run_close faults ledger_id a i o q key db).1
close-Wrote faults ledger_id a i q key db none = nothing refl
close-Wrote faults ledger_id a i q key db (some n) =
    guarded-Wrote (is_blank key) db _ (release-Wrote faults ledger_id n _ _ db _)

pub apply_op-Wrote : (op : SeckillOp) (db : SeckillDb) → Wrote db (apply_op op db).1
unfolding apply_op reserve_purchase compensate_release_purchase release_purchase_by_order
apply_op-Wrote (purchase faults check ledger_id a i user_id q key now) db =
    reserve-Wrote faults check ledger_id user_id key now db (positives a i q)
apply_op-Wrote (compensate faults ledger_id a i q key) db =
    guarded-Wrote (is_blank key) db _ (release-Wrote faults ledger_id 0 _ _ db _)
apply_op-Wrote (close faults ledger_id a i o q key) db =
    close-Wrote faults ledger_id a i q key db (positive o)

pub reserve_rollback :
    (faults : Faults) (check : Bool) (l u : ℕ) (key : Text) (now : ℕ) (db : SeckillDb)
    (p : Option (ℕ × ℕ × ℕ)) {e : SeckillErr}
    → forget (run_reserve faults check l u key now db p).0 ≡ err e
    → (run_reserve faults check l u key now db p).1 ≡ db
reserve_rollback faults check l u key now db none h = refl
reserve_rollback faults check l u key now db (some (a, i, q)) h = ground arith
