-- ===== src/Seckill/Repository/Retry.antt =====
-- A ledger key is spent once: what a later call under it does.
use flash_sale.Prelude.{
  ℕ, ℤ, Bool, true, false, ◌||◌, Option, none, some, List, [], ◌∷◌, ◌++◌, ◌≡◌, refl, arith, nat_beq,
  Bool-cases, inl, inr, positive,
}
use flash_sale.Text.{Text, text_beq, text_beq_refl, trim_space, is_blank}
use flash_sale.Result.{ok, err}
use flash_sale.Sql.{Faults, no_faults}
use flash_sale.Seckill.Model.{
  LedgerKind, LedgerRow, SeckillDb, PurchaseReservation, idempotency_conflict, order_close_release,
  purchase_compensate_release,
}
use flash_sale.Seckill.Repository.{
  ledger_has, insert_stock_ledger, positives, release_row, release_suffix, run_reserve, run_release,
  run_close, reserve_purchase_tx, release_tx, reserve_purchase, compensate_release_purchase,
  release_purchase_by_order,
}
use flash_sale.Seckill.Repository.Effects.{Reserved, Released, reserve_key, known, gave}
use flash_sale.Seckill.Repository.History.{
  SeckillOp, apply_op, run, Wrote, nothing, took, returned, apply_op-Wrote, reserve_done,
  release_done,
}

-- A row of the ledger has the key; a row has the id.
unfoldable pub key_in : Text → List LedgerRow → Bool
key_in k [] = false
key_in k (r ∷ rs) = text_beq r.key k || key_in k rs

unfoldable pub id_in : ℕ → List LedgerRow → Bool
id_in n [] = false
id_in n (r ∷ rs) = nat_beq r.id n || id_in n rs

key_in-ledger_has :
    (n : ℕ) (k : Text) (rs : List LedgerRow) → key_in k rs ≡ true → ledger_has n k rs ≡ true
unfolding key_in ledger_has
key_in-ledger_has n k [] h = ground arith
key_in-ledger_has n k (r ∷ rs) h = ground (arith, key_in-ledger_has n k rs)

pub ledger_has-key_in :
    (n : ℕ) (k : Text) (rs : List LedgerRow)
    → ledger_has n k rs ≡ true
    → id_in n rs ≡ false
    → key_in k rs ≡ true
unfolding key_in id_in ledger_has
ledger_has-key_in n k [] h f = ground arith
ledger_has-key_in n k (r ∷ rs) h f = ground (arith, ledger_has-key_in n k rs)

-- A key stays in the ledger, whatever a call writes.
key_in-Wrote :
    (k : Text) (db db' : SeckillDb)
    → Wrote db db'
    → key_in k db.ledger ≡ true
    → key_in k db'.ledger ≡ true
unfolding key_in
key_in-Wrote k db db' (nothing e) h = rw e h
key_in-Wrote k db db' (took _ _ _ _ _ _ _ _ _ r) h = rw r.ledger_written (ground (arith, h))
key_in-Wrote k db db' (returned row q d (known e p)) h = rw p h
key_in-Wrote k db db' (returned row q d (gave i e f g w l c)) h = rw l (ground (arith, h))

pub run-key_in :
    (k : Text) (ops : List SeckillOp) (db : SeckillDb)
    → key_in k db.ledger ≡ true
    → key_in k (run ops db).ledger ≡ true
unfolding run
run-key_in k [] db h = h
run-key_in k (op ∷ ops) db h =
    run-key_in k ops (apply_op op db).1 (key_in-Wrote k db _ (apply_op-Wrote op db) h)

Reserved-key_in :
    {check : Bool} {l a i u q : ℕ} {key : Text} {now : ℕ} {db : SeckillDb}
    {got : PurchaseReservation} {db' : SeckillDb}
    → Reserved check l a i u q key now db got db'
    → key_in (reserve_key key) db'.ledger ≡ true
unfolding key_in
Reserved-key_in {key = key} r =
    rw r.ledger_written (ground (arith, text_beq_refl (reserve_key key)))

Released-key_in :
    (row : LedgerRow) (q : ℕ) (db db' : SeckillDb)
    → Released row q db db'
    → id_in row.id db.ledger ≡ false
    → key_in row.key db'.ledger ≡ true
unfolding key_in
Released-key_in row q db db' (known e p) f = rw p (ledger_has-key_in row.id row.key db.ledger e f)
Released-key_in row q db db' (gave i e g z w l c) f = rw l (ground (arith, text_beq_refl row.key))

-- The calls again, over a ledger that has the key.
pub reserve_again :
    (check : Bool) (l u : ℕ) (key : Text) (now a i q : ℕ) (db : SeckillDb)
    → key_in (reserve_key key) db.ledger ≡ true
    → run_reserve no_faults check l u key now db (some (a, i, q)) ≡ (err idempotency_conflict, db)
unfolding reserve_purchase_tx insert_stock_ledger
reserve_again check l u key now a i q db h =
    ground (arith, key_in-ledger_has l (reserve_key key) db.ledger h)

release_again :
    (row : LedgerRow) (q : ℕ) (db : SeckillDb)
    → key_in row.key db.ledger ≡ true
    → release_tx no_faults row q db ≡ ok (tt, db)
unfolding release_tx insert_stock_ledger
release_again row q db h = rw (key_in-ledger_has row.id row.key db.ledger h) refl

pub reserved_key :
    (faults : Faults) (check : Bool) (l u : ℕ) (key : Text) (now : ℕ) (db : SeckillDb)
    (p : Option (ℕ × ℕ × ℕ)) {got : PurchaseReservation}
    → (run_reserve faults check l u key now db p).0 ≡ ok got
    → key_in (reserve_key key) (run_reserve faults check l u key now db p).1.ledger ≡ true
reserved_key faults check l u key now db none h = absurd (ground (arith))
reserved_key faults check l u key now db (some (a, i, q)) h =
    Reserved-key_in (reserve_done faults check l u key now db a i q _ h)

-- Once a reservation under a key succeeded, every later one under it, padded with spaces or not, by
-- any user, for any item and any positive quantity, after any history of calls, answers that the key
-- is taken and changes nothing, where the driver reports no error.
pub reserved_key_conflicts :
    (faults : Faults) (check : Bool) (l : ℕ) (a i : ℤ) (u : ℕ) (q : ℤ) (key : Text) (now : ℕ)
    (db : SeckillDb) {got : PurchaseReservation}
    → (reserve_purchase faults check l a i u q key now db).0 ≡ ok got
    → (ops : List SeckillOp) (check' : Bool) (l' : ℕ) (a' i' : ℤ) (u' : ℕ) (q' : ℤ) (key' : Text)
      (now' : ℕ) {x y z : ℕ}
    → trim_space key' ≡ trim_space key
    → positives a' i' q' ≡ some (x, y, z)
    → let later = run ops (reserve_purchase faults check l a i u q key now db).1 in
      reserve_purchase no_faults check' l' a' i' u' q' key' now' later
      ≡ (err idempotency_conflict, later)
unfolding reserve_purchase
reserved_key_conflicts faults check l a i u q key now db h ops check' l' a' i' u' q' key' now' {x}
      {y} {z} t e =
    let k =
      run-key_in (reserve_key key) ops _
        (reserved_key faults check l u key now db (positives a i q) h) in
    rw e (reserve_again check' l' u' key' now' x y z _ (rw t k))

released_key :
    (faults : Faults) (l o : ℕ) (k : LedgerKind) (key : Text) (db : SeckillDb)
    (p : Option (ℕ × ℕ × ℕ))
    → (run_release faults l o k key db p).0 ≡ ok tt
    → id_in l db.ledger ≡ false
    → key_in key (run_release faults l o k key db p).1.ledger ≡ true
released_key faults l o k key db none h f = absurd (ground (arith))
released_key faults l o k key db (some (a, i, q)) h f =
    Released-key_in (release_row l a i o k q key) q db _ (release_done faults l o k key db a i q h)
      f

run_release_again :
    (l o : ℕ) (k : LedgerKind) (key : Text) (db : SeckillDb) (a i q : ℕ)
    → key_in key db.ledger ≡ true
    → run_release no_faults l o k key db (some (a, i, q)) ≡ (ok tt, db)
run_release_again l o k key db a i q h =
    ground (arith, release_again (release_row l a i o k q key) q db h)

-- A compensation that succeeds, with a row id that the ledger did not have, is done once: whatever
-- calls come between, one more under its key, for any item and positive quantity, succeeds and
-- changes nothing, where the driver reports no error.
pub compensated_key_is_spent :
    (faults : Faults) (l : ℕ) (a i q : ℤ) (key : Text) (db : SeckillDb)
    → (compensate_release_purchase faults l a i q key db).0 ≡ ok tt
    → id_in l db.ledger ≡ false
    → (ops : List SeckillOp) (l' : ℕ) (a' i' q' : ℤ) {x y z : ℕ}
    → positives a' i' q' ≡ some (x, y, z)
    → let later = run ops (compensate_release_purchase faults l a i q key db).1 in
      compensate_release_purchase no_faults l' a' i' q' key later ≡ (ok tt, later)
unfolding compensate_release_purchase
compensated_key_is_spent faults l a i q key db h f ops l' a' i' q' {x} {y} {z} e =
    elim (Bool-cases (is_blank key)) [
      | inl b ↦ absurd (ground (arith, b))
      | inr b ↦
          let k = run-key_in (trim_space key ++ release_suffix) ops _ (
            released_key faults l 0 purchase_compensate_release (trim_space key ++ release_suffix)
              db (positives a i q) (rw b at h) f) in
          rw (b, e)
            (run_release_again l' 0 purchase_compensate_release (trim_space key ++ release_suffix) _
              x y z k)
    ]

pub closed_again :
    (faults : Faults) (l : ℕ) (a i q : ℤ) (key : Text) (db : SeckillDb) (o : Option ℕ)
    → (run_close faults l a i o q key db).0 ≡ ok tt
    → id_in l db.ledger ≡ false
    → (is_blank key ≡ false)
      × (key_in (trim_space key) (run_close faults l a i o q key db).1.ledger ≡ true)
closed_again faults l a i q key db none h f = absurd (ground (arith))
closed_again faults l a i q key db (some n) h f = elim (Bool-cases (is_blank key)) [
  | inl b ↦ absurd (ground (arith, b))
  | inr b ↦ (
    b,
    rw b (
        released_key faults l n order_close_release (trim_space key) db (positives a i q)
          (rw b at h) f),
  )
]

-- A release under a key that the ledger has.
pub release_by_order_again :
    (l : ℕ) (a i o q : ℤ) (key : Text) (db : SeckillDb) {n x y z : ℕ}
    → positive o ≡ some n
    → positives a i q ≡ some (x, y, z)
    → is_blank key ≡ false
    → key_in (trim_space key) db.ledger ≡ true
    → release_purchase_by_order no_faults l a i o q key db ≡ (ok tt, db)
unfolding release_purchase_by_order
release_by_order_again l a i o q key db {n} {x} {y} {z} p e b k =
    rw (p, b, e) (run_release_again l n order_close_release (trim_space key) db x y z k)

-- The release of a closed order that succeeds, with a row id that the ledger did not have, is done
-- once: whatever calls come between, one more under its key, for any order, item and positive
-- quantity, succeeds and changes nothing, where the driver reports no error.
pub closed_key_is_spent :
    (faults : Faults) (l : ℕ) (a i o q : ℤ) (key : Text) (db : SeckillDb)
    → (release_purchase_by_order faults l a i o q key db).0 ≡ ok tt
    → id_in l db.ledger ≡ false
    → (ops : List SeckillOp) (l' : ℕ) (a' i' o' q' : ℤ) {n x y z : ℕ} → positive o' ≡ some n
    → positives a' i' q' ≡ some (x, y, z)
    → let later = run ops (release_purchase_by_order faults l a i o q key db).1 in
      release_purchase_by_order no_faults l' a' i' o' q' key later ≡ (ok tt, later)
unfolding release_purchase_by_order
closed_key_is_spent faults l a i o q key db h f ops l' a' i' o' q' {n} {x} {y} {z} p e =
    let (b, k) = closed_again faults l a i q key db (positive o) h f in
    release_by_order_again l' a' i' o' q' key _ p e b (run-key_in (trim_space key) ops _ k)
