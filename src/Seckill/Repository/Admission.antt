-- ===== src/Seckill/Repository/Admission.antt =====
-- Which purchases are let through, and what the others are told.
use flash_sale.Prelude.{
  ℕ, ℤ, ◌-◌, ◌≤◌, Bool, true, false, not, ◌&&◌, ◌||◌, Option, none, some, ◌∷◌, ◌≡◌, refl, arith,
  ◌∙◌, ltb, is_some, Bool-cases, inl, inr, if◌then◌else◌,
}
use flash_sale.Text.{Text}
use flash_sale.Result.{Result, ok, err}
use flash_sale.Sql.{Faults, no_faults, update}
use flash_sale.Seckill.Model.{
  Activity, ActivityItem, published, enabled, SeckillDb, PurchaseReservation, SeckillErr,
  is_published, is_enabled, activity_not_found, activity_item_not_found, activity_state_conflict,
  activity_out_of_stock, activity_limit_exceeded,
}
use flash_sale.Seckill.Rules.{find_activity, find_item, of_activity, admits, take_units}
use flash_sale.Seckill.Repository.{
  ledger_has, insert_stock_ledger, positives, run_reserve, reserve_row, check_limit,
  check_user_limit, classify_reserve_miss, reserve_purchase_tx, reserve_purchase,
  reserve_ledger_row,
}
use flash_sale.Seckill.Repository.Effects.{reserve_key, over_limit}
use flash_sale.Seckill.Repository.History.{reserve_done}

-- The rules of a purchase, checked one by one on what the database holds.
abbrev judge_item : Bool → ℕ → ℕ → ℕ → ℕ → SeckillDb → Option ActivityItem → Result SeckillErr ℕ
judge_item check activity_id user_id q now db none = err activity_item_not_found
judge_item check activity_id user_id q now db (some i) =
    if not (is_enabled i.status)
    then err activity_item_not_found
    else if ltb i.max_qty_per_order q
    then err activity_limit_exceeded
    else if ltb i.available_stock q
    then err activity_out_of_stock
    else if check && over_limit activity_id user_id q now i db
    then err activity_limit_exceeded
    else ok (if check then i.available_stock - q else 0)

abbrev judge :
    Bool → ℕ → ℕ → ℕ → ℕ → SeckillDb → Option Activity → Option ActivityItem → Result SeckillErr ℕ
judge check activity_id user_id q now db none i = err activity_not_found
judge check activity_id user_id q now db (some a) i =
    if is_some a.deleted_at
    then err activity_not_found
    else if not (is_published a.status) || ltb now a.start_at || ltb a.end_at now
    then err activity_state_conflict
    else judge_item check activity_id user_id q now db i

-- What a purchase is told: the stock that remains, or why not.
unfoldable pub verdict : Bool → ℕ → ℕ → ℕ → ℕ → ℕ → SeckillDb → Result SeckillErr ℕ
verdict check activity_id item_id user_id q now db =
    judge check activity_id user_id q now db (find_activity activity_id db)
      (of_activity activity_id (find_item item_id db))

abbrev pub remaining : Result SeckillErr PurchaseReservation → Result SeckillErr ℕ
remaining (ok r) = ok r.remain_stock
remaining (err e) = err e

abbrev result_of : Result SeckillErr (ℕ × SeckillDb) → Result SeckillErr ℕ
result_of (ok (n, _)) = ok n
result_of (err e) = err e

module _ (check : Bool) (ledger_id activity_id item_id user_id q now : ℕ) where
  user_limit_verdict :
      (i : ActivityItem) (s : SeckillDb)
      → check_user_limit no_faults activity_id user_id q now i s ≡ (
          if over_limit activity_id user_id q now i s
          then err activity_limit_exceeded
          else ok (tt, s))
  unfolding check_user_limit
  user_limit_verdict i s = ground arith

  limit_verdict :
      (c : Bool) (i : ActivityItem) (s : SeckillDb)
      → result_of (check_limit no_faults c ledger_id activity_id user_id q now i s) ≡ (
          if c && over_limit activity_id user_id q now i s
          then err activity_limit_exceeded
          else ok (if c then i.available_stock - q else 0))
  unfolding check_limit
  limit_verdict false i s = refl
  limit_verdict true i s = elim (Bool-cases (over_limit activity_id user_id q now i s)) [
    | inl o ↦ ground (arith, o, user_limit_verdict i s)
    | inr o ↦ ground (arith, o, user_limit_verdict i s)
  ]

  row_verdict :
      (db s : SeckillDb) (a : Option Activity) (i : Option ActivityItem)
      → find_activity activity_id db ≡ a
      → of_activity activity_id (find_item item_id db) ≡ i
      → s.links ≡ db.links
      → result_of (reserve_row no_faults check ledger_id activity_id item_id user_id q now db a i s)
        ≡ judge check activity_id user_id q now db a i
  unfolding reserve_row classify_reserve_miss
  row_verdict db s none none e f g = ground (arith, e, f)
  row_verdict db s none (some i) e f g = ground (arith, e, f)
  row_verdict db s (some a) none e f g = ground (arith, e, f)
  row_verdict db s (some a) (some i) e f g = elim (Bool-cases (admits q now (some a) (some i))) [
    | inl o ↦ ground (
      arith,
      o,
      g,
      limit_verdict check i
          (record s { items = update (λ r. r.id) item_id (take_units q) s.items }),
    )
    | inr o ↦ ground (arith, o, e, f)
  ]

  abbrev in_ledger : Text → SeckillDb → SeckillDb
  in_ledger key db = record db {
    ledger = reserve_ledger_row ledger_id activity_id item_id q (reserve_key key) ∷ db.ledger;
  }

  abbrev row_result : Text → SeckillDb → Result SeckillErr (ℕ × SeckillDb)
  row_result key db =
      reserve_row no_faults check ledger_id activity_id item_id user_id q now db
        (find_activity activity_id db) (of_activity activity_id (find_item item_id db))
        (in_ledger key db)

  tx_result :
      (key : Text) (db : SeckillDb) (r : Result SeckillErr (ℕ × SeckillDb))
      → ledger_has ledger_id (reserve_key key) db.ledger ≡ false
      → row_result key db ≡ r
      → remaining
          (run_reserve no_faults check ledger_id user_id key now db
            (some (activity_id, item_id, q))).0
        ≡ result_of r
  unfolding reserve_purchase_tx insert_stock_ledger
  tx_result key db (ok (n, s)) e h = ground (arith, e, h)
  tx_result key db (err x) e h = ground (arith, e, h)

  tx_verdict :
      (key : Text) (db : SeckillDb)
      → ledger_has ledger_id (reserve_key key) db.ledger ≡ false
      → remaining
          (run_reserve no_faults check ledger_id user_id key now db
            (some (activity_id, item_id, q))).0
        ≡ verdict check activity_id item_id user_id q now db
  unfolding verdict
  tx_verdict key db e =
      tx_result key db _ e refl
      ∙ row_verdict db (in_ledger key db) (find_activity activity_id db)
          (of_activity activity_id (find_item item_id db)) refl refl refl

-- A reservation of positive ids and quantity that the driver lets through, with a row id and a key
-- that the ledger does not have, answers exactly as the rules say that are checked one by one: the activity and its window, the item, the units of an
-- order, the stock, the user's limit. The atomic update and the classification after it lose
-- nothing of that order.
pub reserve_purchase-eq_verdict :
    (check : Bool) (ledger_id : ℕ) (activity_id item_id : ℤ) (user_id : ℕ) (quantity : ℤ)
    (key : Text) (now : ℕ) (db : SeckillDb) {a i q : ℕ}
    → positives activity_id item_id quantity ≡ some (a, i, q)
    → ledger_has ledger_id (reserve_key key) db.ledger ≡ false
    → remaining
        (reserve_purchase no_faults check ledger_id activity_id item_id user_id quantity key now
          db).0
      ≡ verdict check a i user_id q now db
unfolding reserve_purchase
reserve_purchase-eq_verdict check ledger_id activity_id item_id user_id quantity key now db {a} {i}
      {q} p e =
    rw p (tx_verdict check ledger_id a i user_id q now key db e)

-- The rules of a purchase, as facts about the rows.
pub record Admitted (check : Bool) (a i user_id q now : ℕ) (db : SeckillDb) : Type 0 where
  pub activity : Activity
  pub item : ActivityItem
  pub activity_there : find_activity a db ≡ some activity
  pub item_there : find_item i db ≡ some item
  pub belongs : item.activity_id ≡ a
  pub kept : activity.deleted_at ≡ none
  pub on_sale : activity.status ≡ published
  pub begun : activity.start_at ≤ now
  pub not_over : now ≤ activity.end_at
  pub item_on : item.status ≡ enabled
  pub in_stock : q ≤ item.available_stock
  pub order_allows : q ≤ item.max_qty_per_order
  pub user_allows : (check && over_limit a user_id q now item db) ≡ false

of_activity_found :
    (a : ℕ) (o : Option ActivityItem) {i : ActivityItem}
    → of_activity a o ≡ some i
    → (o ≡ some i) × (i.activity_id ≡ a)
of_activity_found a none h = absurd (ground (arith))
of_activity_found a (some j) h = (ground arith, ground (arith))

-- Whatever faults the driver reports: a reservation of positive ids and quantity that succeeds was
-- admitted by every rule: an activity that is there, published and in its window, an enabled item of
-- it with the units in stock, the units of one order, and the user's limit where it is checked.
pub reserve_purchase-Admitted :
    (faults : Faults) (check : Bool) (ledger_id : ℕ) (activity_id item_id : ℤ) (user_id : ℕ)
    (quantity : ℤ) (key : Text) (now : ℕ) (db : SeckillDb) {a i q : ℕ} {got : PurchaseReservation}
    → positives activity_id item_id quantity ≡ some (a, i, q)
    → (reserve_purchase faults check ledger_id activity_id item_id user_id quantity key now db).0
      ≡ ok got
    → Admitted check a i user_id q now db
unfolding reserve_purchase
reserve_purchase-Admitted faults check ledger_id activity_id item_id user_id quantity key now db {a}
      {i} {q} p h =
    let r = reserve_done faults check ledger_id user_id key now db a i q _ (rw p at h) in
    let (t, b) = of_activity_found a (find_item i db) r.item_there in
    record {
      activity = r.activity;
      item = r.item;
      activity_there = r.activity_there;
      item_there = t;
      belongs = b;
      kept = ground (arith, r.admitted);
      on_sale = ground (arith, r.admitted);
      begun = ground (arith, r.admitted);
      not_over = ground (arith, r.admitted);
      item_on = ground (arith, r.admitted);
      in_stock = ground (arith, r.admitted);
      order_allows = ground (arith, r.admitted);
      user_allows =
          elim check
              as (λ c.
                (c ≡ true → over_limit a user_id q now r.item db ≡ false)
                → (c && over_limit a user_id q now r.item db) ≡ false) [
                  | true ↦ λ l. l refl
                  | false ↦ λ l. refl
                ]
            r.in_limit;
    }
