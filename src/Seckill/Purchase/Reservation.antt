-- ===== src/Seckill/Purchase/Reservation.antt =====
-- How the attempts at a reservation end: with its key in the ledger, or with an error.
use flash_sale.Prelude.{
  ℕ, zero, suc, Bool, true, false, Option, none, some, ◌≡◌, refl, ap, ◌∙◌, arith, ◌∷◌, Bool-cases,
  inl, inr,
}
use flash_sale.Text.{Text}
use flash_sale.Result.{Result, ok, err}
use flash_sale.Sql.{DriverErr, Faults}
use flash_sale.Seckill.Model.{
  Activity, ActivityItem, SeckillDb, SeckillErr, PurchaseReservation, driver,
}
use flash_sale.Seckill.Repository.{reserve_ledger_row}
use flash_sale.Seckill.Rules.{find_activity, find_item, of_activity}
use flash_sale.Seckill.Repository.{
  reserve_purchase, run_reserve, ledger_has, reserve_row, check_limit, check_user_limit,
  classify_reserve_miss, reserve_purchase_tx, insert_stock_ledger,
}
use flash_sale.Seckill.Repository.Effects.{reserve_key}
use flash_sale.Seckill.Repository.History.{reserve_rollback, forget}
use flash_sale.Seckill.Repository.Retry.{key_in, id_in, ledger_has-key_in, reserved_key}
use flash_sale.Seckill.Purchase.Errors.{is_txn_contention}
use flash_sale.Seckill.Purchase.World.{Env}
use flash_sale.Seckill.Purchase.Taking.{Ticket, contended, reserve_once, reserve_with_retry}
use flash_sale.Seckill.Purchase.{is_conflict}

classify_miss_no_conflict :
    (fault : Option DriverErr) (a i q now : ℕ) (db : SeckillDb)
    → is_conflict (classify_reserve_miss fault a i q now db) ≡ false
unfolding classify_reserve_miss
classify_miss_no_conflict fault a i q now db = ground (arith)

abbrev conflicts : {A : Type 0} → Result SeckillErr A → Bool
conflicts (ok a) = false
conflicts (err e) = is_conflict e

reserve_row_no_conflict :
    (faults : Faults) (check : Bool) (l a i u q now : ℕ) (before s : SeckillDb)
    (x : Option Activity) (y : Option ActivityItem)
    → conflicts (reserve_row faults check l a i u q now before x y s) ≡ false
unfolding reserve_row check_limit check_user_limit
reserve_row_no_conflict faults check l a i u q now before s none y =
    ground (arith, classify_miss_no_conflict (faults 4) a i q now before)
reserve_row_no_conflict faults check l a i u q now before s (some x) none =
    ground (arith, classify_miss_no_conflict (faults 4) a i q now before)
reserve_row_no_conflict faults true l a i u q now before s (some x) (some y) =
    ground (arith, classify_miss_no_conflict (faults 4) a i q now before)
reserve_row_no_conflict faults false l a i u q now before s (some x) (some y) =
    ground (arith, classify_miss_no_conflict (faults 4) a i q now before)

tx_no_conflict :
    (faults : Faults) (check : Bool) (l a i u q : ℕ) (key : Text) (now : ℕ) (db : SeckillDb)
    → ledger_has l (reserve_key key) db.ledger ≡ false
    → conflicts (reserve_purchase_tx faults check l a i u q key now db db) ≡ false
unfolding reserve_purchase_tx insert_stock_ledger
tx_no_conflict faults check l a i u q key now db h =
    let claimed = record db { ledger = reserve_ledger_row l a i q (reserve_key key) ∷ db.ledger } in
    ground (
      arith,
      h,
      reserve_row_no_conflict faults check l a i u q now db claimed (find_activity a db)
          (of_activity a (find_item i db)),
    )

-- A reservation that is told of a conflict found its key or its row's id in the ledger.
conflict_has_key :
    (faults : Faults) (check : Bool) (l u : ℕ) (key : Text) (now : ℕ) (db : SeckillDb)
    (p : Option (ℕ × ℕ × ℕ))
    → conflicts (run_reserve faults check l u key now db p).0 ≡ true
    → ledger_has l (reserve_key key) db.ledger ≡ true
conflict_has_key faults check l u key now db none h = absurd (ground (arith))
conflict_has_key faults check l u key now db (some (a, i, q)) h =
    elim (Bool-cases (ledger_has l (reserve_key key) db.ledger)) [
      | inl e ↦ e
      | inr e ↦ absurd (ground (arith, tx_no_conflict faults check l a i u q key now db e))
    ]

conflict_not_contended : (e : SeckillErr) → is_conflict e ≡ true → is_txn_contention e ≡ false
unfolding is_txn_contention
conflict_not_contended e h = ground (arith, h)

-- How a reservation ends: the key is in the ledger, or an error that is no conflict.
pub data Ended (key : Text) (db : SeckillDb) (r : Result SeckillErr PurchaseReservation × SeckillDb)
    : Type 0 where
  held : contended r.0 ≡ false → key_in (reserve_key key) r.1.ledger ≡ true → Ended key db r
  gave_up : (e : SeckillErr) → r.0 ≡ err e → is_conflict e ≡ false → r.1 ≡ db → Ended key db r

run_reserve-Ended :
    (faults : Faults) (check : Bool) (l u : ℕ) (key : Text) (now : ℕ) (db : SeckillDb)
    (p : Option (ℕ × ℕ × ℕ)) (r : Result SeckillErr PurchaseReservation)
    → id_in l db.ledger ≡ false
    → (run_reserve faults check l u key now db p).0 ≡ r
    → Ended key db (run_reserve faults check l u key now db p)
run_reserve-Ended faults check l u key now db p (ok got) f e =
    held (ap contended e) (reserved_key faults check l u key now db p e)
run_reserve-Ended faults check l u key now db p (err x) f e =
    let same = reserve_rollback faults check l u key now db p (ap forget e) in
    elim (Bool-cases (is_conflict x)) [
      | inl c ↦ held (ap contended e ∙ conflict_not_contended x c) (
          ap (λ d. key_in (reserve_key key) d.ledger) same
          ∙ ledger_has-key_in l (reserve_key key) db.ledger
              (conflict_has_key faults check l u key now db p (ap conflicts e ∙ c)) f)
      | inr c ↦ gave_up x e c same
    ]

Ended-from :
    {key : Text} {db db₁ : SeckillDb} {r : Result SeckillErr PurchaseReservation × SeckillDb}
    → db₁ ≡ db
    → Ended key db₁ r
    → Ended key db r
Ended-from same (held c k) = held c k
Ended-from same (gave_up e h c s) = gave_up e h c (s ∙ same)

wait-Ended :
    {key : Text} {db : SeckillDb} (w : Option DriverErr) (db₁ : SeckillDb)
    (again : Result SeckillErr PurchaseReservation × SeckillDb)
    → db₁ ≡ db
    → Ended key db again
    → Ended key db (elim w [ some e ↦ (err (driver e), db₁) | none ↦ again ])
wait-Ended (some e) db₁ again same h = gave_up (driver e) refl refl same
wait-Ended none db₁ again same h = h

module _ (env : Env) (t : Ticket) where
  -- The ids of the rows to be written are not in the ledger.
  abbrev pub Fresh : SeckillDb → Type 0
  Fresh db = (n : ℕ) → id_in (env.ledger_id n) db.ledger ≡ false

  reserve_once-Ended :
      (n : ℕ) (db : SeckillDb) → Fresh db → Ended t.key db (reserve_once n env t db)
  unfolding reserve_purchase
  reserve_once-Ended n db f =
      run_reserve-Ended (env.reserve n) env.db_limit_check (env.ledger_id n) t.user t.key env.now db
        _ _ (f n) refl

  pub retry-Ended :
      (more n : ℕ) (db : SeckillDb) → Fresh db → Ended t.key db (reserve_with_retry more n env t db)
  unfolding reserve_with_retry
  retry-Ended zero n db f = reserve_once-Ended n db f
  retry-Ended (suc more) n db f = elim (reserve_once-Ended n db f) [
    | held c k ↦ rw c (held c k)
    | gave_up e h c same ↦ elim (Bool-cases (is_txn_contention e)) [
      | inr q ↦ rw (ap contended h ∙ q) (gave_up e h c same)
      | inl q ↦ rw (ap contended h ∙ q) (
          wait-Ended (env.waits n) _ _ same (
            Ended-from same (
              retry-Ended more (suc n) _
                (λ m. ap (λ d. id_in (env.ledger_id m) d.ledger) same ∙ f m))))
    ]
  ]
