-- ===== src/Seckill/Repository.antt =====
-- apps/seckill/rpc/internal/repository/purchase_repo.go: reservation and release of activity stock.
pub mod Effects
pub mod History
pub mod Reconcile
pub mod Admission
pub mod Retry
pub mod LedgerIds
use flash_sale.Seckill.Rules.{
  admits, auto_completed, bought, classify_item, classify_row, closed_code, completed,
  completed_since, find_activity, find_item, is_window, item_allows, of_activity, of_user,
  open_for_purchase, second, sum_quantity, take_units,
}
use flash_sale.Prelude.{
  ℕ, zero, suc, ℤ, pos, negsuc, positive, ◌+◌, ◌-◌, ◌*◌, Bool, true, false, not, ◌&&◌, ◌||◌, Option,
  none, some, List, [], ◌∷◌, ◌++◌, ◌≡◌, ltb, leb, nat_beq, is_some, if◌then◌else◌,
}
use flash_sale.Text.{Text, text, text_beq, trim_space, is_blank}
use flash_sale.Result.{Result, ok, err}
use flash_sale.Sql.{
  DriverErr, mysql_error, Faults, Tx, pure, fail, gets, modify, call, ◌>>=◌, ◌>>◌, run_tx, find,
  update,
}
use flash_sale.Seckill.Model.{
  UserLimitMode, no_limit, window_completed, is_published, is_enabled, Activity, ActivityItem,
  OrderLink, LedgerKind, purchase_reserve, purchase_compensate_release, order_close_release,
  LedgerRow, SeckillDb, PurchaseReservation, SeckillErr, activity_not_found,
  activity_item_not_found, activity_state_conflict, activity_out_of_stock, activity_limit_exceeded,
  idempotency_conflict, invalid_params, driver, u32_max,
}

abbrev pub SeckillTx : Type 0 → Type 0
SeckillTx A = Tx SeckillErr SeckillDb A

abbrev at : Option DriverErr → SeckillTx (Unit {0})
at = call driver

-- `nextStockLedgerID`: the last id given out and the clock give the next id, which becomes the last.
unfoldable pub next_stock_ledger_id : ℕ → ℕ → ℕ
next_stock_ledger_id prev nanos = if leb nanos prev then prev + 1 else nanos

-- Whether a row breaks the primary key or the unique idempotency key of the ledger.
unfoldable pub ledger_has : ℕ → Text → List LedgerRow → Bool
ledger_has id key [] = false
ledger_has id key (r ∷ rs) = nat_beq r.id id || text_beq r.key key || ledger_has id key rs

-- -q, as an integer.
abbrev pub negate : ℕ → ℤ
negate zero = pos 0
negate (suc n) = negsuc n

-- `insertStockLedgerSQL`; `false` is a duplicate key.
abbrev claim : LedgerRow → Bool → SeckillTx Bool
claim row true = pure false
claim row false = do modify (λ db. record db { ledger = row ∷ db.ledger }); pure true

unfoldable pub insert_stock_ledger : Option DriverErr → LedgerRow → SeckillTx Bool
insert_stock_ledger fault row = do
  at fault
  known ← gets (λ db. ledger_has row.id row.key db.ledger)
  claim row known

-- `UPDATE seckill_stock_ledger SET remain_after = ? WHERE id = ?`
abbrev set_remain : ℕ → ℕ → SeckillTx (Unit {0})
set_remain ledger_id remain = modify (λ db. record db {
  ledger = update (λ r. r.id) ledger_id (λ r. record r { remain_after = remain }) db.ledger;
})

-- `classifyReserveMiss`: it reads the committed state, outside the transaction.
unfoldable pub classify_reserve_miss : Option DriverErr → ℕ → ℕ → ℕ → ℕ → SeckillDb → SeckillErr
classify_reserve_miss (some e) activity_id item_id q now db = driver e
classify_reserve_miss none activity_id item_id q now db =
    classify_row q now (find_activity activity_id db)
      (of_activity activity_id (find_item item_id db))

abbrev check_bought : Faults → ℕ → ℕ → ℕ → ℕ → ActivityItem → SeckillTx (Unit {0})
check_bought faults activity_id user_id q now i = do
  at (faults 6)
  b ← gets (λ db. bought activity_id user_id now i db.links)
  if ltb i.user_limit_qty (b + q) then fail activity_limit_exceeded else pure tt

unfoldable pub check_user_limit : Faults → ℕ → ℕ → ℕ → ℕ → ActivityItem → SeckillTx (Unit {0})
check_user_limit faults activity_id user_id q now i =
    if not (ltb 0 i.user_limit_qty)
    then pure tt
    else if is_window i.user_limit_mode && nat_beq i.user_limit_window_sec 0
    then fail activity_limit_exceeded
    else check_bought faults activity_id user_id q now i

-- The part of `ReservePurchase` under `reserveDBUserLimitCheck`; it returns the remaining stock.
unfoldable pub check_limit : Faults → Bool → ℕ → ℕ → ℕ → ℕ → ℕ → ActivityItem → SeckillTx ℕ
check_limit faults false ledger_id activity_id user_id q now i = pure 0
check_limit faults true ledger_id activity_id user_id q now i = do
  at (faults 5)
  check_user_limit faults activity_id user_id q now i
  at (faults 7)
  set_remain ledger_id (i.available_stock - q)
  pure (i.available_stock - q)

unfoldable pub reserve_row :
    Faults
    → Bool
    → ℕ
    → ℕ
    → ℕ
    → ℕ
    → ℕ
    → ℕ
    → SeckillDb
    → Option Activity
    → Option ActivityItem
    → SeckillTx ℕ
reserve_row faults check ledger_id activity_id item_id user_id q now before (some a) (some i) =
    if admits q now (some a) (some i)
    then (do
      modify (λ db. record db { items = update (λ r. r.id) item_id (take_units q) db.items })
      at (faults 3)
      check_limit faults check ledger_id activity_id user_id q now i)
    else (do
      at (faults 3)
      fail (classify_reserve_miss (faults 4) activity_id item_id q now before))
reserve_row faults check ledger_id activity_id item_id user_id q now before _ _ = do
  at (faults 3)
  fail (classify_reserve_miss (faults 4) activity_id item_id q now before)

abbrev require_claim : SeckillErr → Bool → SeckillTx (Unit {0})
require_claim e true = pure tt
require_claim e false = fail e

abbrev pub reserve_suffix : Text
reserve_suffix = text ":reserve"

abbrev pub release_suffix : Text
release_suffix = text ":release"

abbrev pub reserve_ledger_row : ℕ → ℕ → ℕ → ℕ → Text → LedgerRow
reserve_ledger_row ledger_id activity_id item_id q key = record {
  id = ledger_id;
  activity_id = activity_id;
  activity_item_id = item_id;
  order_id = 0;
  kind = purchase_reserve;
  delta = negate q;
  remain_after = 0;
  key = key;
}

-- The transaction of `ReservePurchase`, over the state `before` it.
unfoldable pub reserve_purchase_tx :
    Faults → Bool → ℕ → ℕ → ℕ → ℕ → ℕ → Text → ℕ → SeckillDb → SeckillTx PurchaseReservation
unfolding insert_stock_ledger
reserve_purchase_tx faults check ledger_id activity_id item_id user_id q key now before = do
  at (faults 0)
  claimed ←
      insert_stock_ledger (faults 1)
        (reserve_ledger_row ledger_id activity_id item_id q (trim_space key ++ reserve_suffix))
  require_claim idempotency_conflict claimed
  at (faults 2)
  a ← gets (find_activity activity_id)
  i ← gets (λ db. of_activity activity_id (find_item item_id db))
  remain ← reserve_row faults check ledger_id activity_id item_id user_id q now before a i
  at (faults 8)
  pure (record {
    activity_id = activity_id;
    activity_item_id = item_id;
    quantity = q;
    remain_stock = remain;
  })

-- The three `<= 0` guards of a call.
abbrev pub positives : ℤ → ℤ → ℤ → Option (ℕ × ℕ × ℕ)
positives a b c = elim (positive a) [
  | none ↦ none
  | some x ↦ elim (positive b) [
    | none ↦ none
    | some y ↦ elim (positive c) [ none ↦ none | some z ↦ some (x, y, z) ]
  ]
]

abbrev pub run_reserve :
    Faults
    → Bool
    → ℕ
    → ℕ
    → Text
    → ℕ
    → SeckillDb
    → Option (ℕ × ℕ × ℕ)
    → Result SeckillErr PurchaseReservation × SeckillDb
run_reserve faults check ledger_id user_id key now db none = (err invalid_params, db)
run_reserve faults check ledger_id user_id key now db (some (activity_id, item_id, q)) =
    run_tx (reserve_purchase_tx faults check ledger_id activity_id item_id user_id q key now db) db

-- `ReservePurchase`
unfoldable pub reserve_purchase :
    Faults
    → Bool
    → ℕ
    → ℤ
    → ℤ
    → ℕ
    → ℤ
    → Text
    → ℕ
    → SeckillDb
    → Result SeckillErr PurchaseReservation × SeckillDb
reserve_purchase faults check ledger_id activity_id item_id user_id quantity key now db =
    run_reserve faults check ledger_id user_id key now db (positives activity_id item_id quantity)

abbrev pub give_units : ℕ → ActivityItem → ActivityItem
give_units q i = record i {
  available_stock = i.available_stock + q;
  sold_stock = if leb q i.sold_stock then i.sold_stock - q else 0;
}

-- A sum that INT UNSIGNED does not hold is refused by the server.
abbrev out_of_range : SeckillErr
out_of_range = driver (mysql_error 1264 (text "Out of range value for column 'available_stock'"))

abbrev give_back : Faults → ℕ → ℕ → ℕ → Option ActivityItem → SeckillTx (Unit {0})
give_back faults ledger_id item_id q none = do at (faults 3); fail activity_item_not_found
give_back faults ledger_id item_id q (some i) =
    if ltb u32_max (i.available_stock + q) then fail out_of_range else (do
      modify (λ db. record db { items = update (λ r. r.id) item_id (give_units q) db.items })
      at (faults 3)
      at (faults 4)
      at (faults 5)
      set_remain ledger_id (i.available_stock + q)
      at (faults 6))

abbrev give_if_claimed : Faults → ℕ → ℕ → ℕ → ℕ → Bool → SeckillTx (Unit {0})
give_if_claimed faults ledger_id activity_id item_id q false = pure tt
give_if_claimed faults ledger_id activity_id item_id q true = do
  at (faults 2)
  i ← gets (λ db. of_activity activity_id (find_item item_id db))
  give_back faults ledger_id item_id q i

-- The transaction that `CompensateReleasePurchase` and `ReleasePurchaseByOrder` share: claim the
-- ledger key, and give the units back unless the key was there.
unfoldable pub release_tx : Faults → LedgerRow → ℕ → SeckillTx (Unit {0})
unfolding insert_stock_ledger
release_tx faults row q = do
  at (faults 0)
  claimed ← insert_stock_ledger (faults 1) row
  give_if_claimed faults row.id row.activity_id row.activity_item_id q claimed

abbrev pub release_row : ℕ → ℕ → ℕ → ℕ → LedgerKind → ℕ → Text → LedgerRow
release_row ledger_id activity_id item_id order_id kind q key = record {
  id = ledger_id;
  activity_id = activity_id;
  activity_item_id = item_id;
  order_id = order_id;
  kind = kind;
  delta = pos q;
  remain_after = 0;
  key = key;
}

abbrev pub run_release :
    Faults
    → ℕ
    → ℕ
    → LedgerKind
    → Text
    → SeckillDb
    → Option (ℕ × ℕ × ℕ)
    → Result SeckillErr (Unit {0}) × SeckillDb
run_release faults ledger_id order_id kind key db none = (err invalid_params, db)
run_release faults ledger_id order_id kind key db (some (activity_id, item_id, q)) =
    run_tx (release_tx faults (release_row ledger_id activity_id item_id order_id kind q key) q) db

-- `CompensateReleasePurchase`
unfoldable pub compensate_release_purchase :
    Faults → ℕ → ℤ → ℤ → ℤ → Text → SeckillDb → Result SeckillErr (Unit {0}) × SeckillDb
compensate_release_purchase faults ledger_id activity_id item_id quantity key db =
    if is_blank key
    then (err invalid_params, db)
    else run_release faults ledger_id 0 purchase_compensate_release
        (trim_space key ++ release_suffix) db (positives activity_id item_id quantity)

abbrev pub run_close :
    Faults → ℕ → ℤ → ℤ → Option ℕ → ℤ → Text → SeckillDb → Result SeckillErr (Unit {0}) × SeckillDb
run_close faults ledger_id activity_id item_id none quantity key db = (err invalid_params, db)
run_close faults ledger_id activity_id item_id (some order_id) quantity key db =
    if is_blank key
    then (err invalid_params, db)
    else run_release faults ledger_id order_id order_close_release (trim_space key) db
        (positives activity_id item_id quantity)

-- `ReleasePurchaseByOrder`
unfoldable pub release_purchase_by_order :
    Faults → ℕ → ℤ → ℤ → ℤ → ℤ → Text → SeckillDb → Result SeckillErr (Unit {0}) × SeckillDb
release_purchase_by_order faults ledger_id activity_id item_id order_id quantity key db =
    run_close faults ledger_id activity_id item_id (positive order_id) quantity key db
