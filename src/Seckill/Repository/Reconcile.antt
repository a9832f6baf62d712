-- ===== src/Seckill/Repository/Reconcile.antt =====
-- The stock of an activity item and the stock ledger tell the same story.
use flash_sale.Prelude.{
  ℕ, zero, suc, ℤ, pos, negsuc, ◌+◌, ◌≤◌, Bool, Option, none, some, List, [], ◌∷◌, ◌≡◌, refl, ap,
  arith, nat_beq, if◌then◌else◌,
}
use flash_sale.Text.{Text}
use flash_sale.Sql.{find-update}
use flash_sale.Seckill.Model.{ActivityItem, LedgerRow, SeckillDb, PurchaseReservation}
use flash_sale.Seckill.Rules.{find_item, of_activity, take_units}
use flash_sale.Seckill.Repository.{negate, give_units}
use flash_sale.Seckill.Repository.Effects.{Reserved, Released, known, gave}
use flash_sale.Seckill.Repository.History.{
  SeckillOp, apply_op, run, Wrote, nothing, took, returned, apply_op-Wrote,
}

-- The available stock of an item, 0 where there is none.
abbrev pub available_of : ℕ → SeckillDb → ℕ
available_of item db = elim (find_item item db) [ none ↦ 0 | some i ↦ i.available_stock ]

abbrev units_out : ℤ → ℕ
units_out (pos _) = 0
units_out (negsuc n) = n + 1

abbrev units_in : ℤ → ℕ
units_in (pos n) = n
units_in (negsuc _) = 0

-- The units of an item that the ledger records as sold, and those that it records as returned.
unfoldable pub reserved_units : ℕ → List LedgerRow → ℕ
reserved_units item [] = 0
reserved_units item (r ∷ rs) =
    (if nat_beq r.activity_item_id item then units_out r.delta else 0) + reserved_units item rs

unfoldable pub returned_units : ℕ → List LedgerRow → ℕ
returned_units item [] = 0
returned_units item (r ∷ rs) =
    (if nat_beq r.activity_item_id item then units_in r.delta else 0) + returned_units item rs

units_out-negate : (q : ℕ) → units_out (negate q) ≡ q
units_out-negate zero = refl
units_out-negate (suc n) = omega arith

units_in-negate : (q : ℕ) → units_in (negate q) ≡ 0
units_in-negate zero = refl
units_in-negate (suc n) = refl

of_activity-some :
    (a : ℕ) (o : Option ActivityItem) {i : ActivityItem} → of_activity a o ≡ some i → o ≡ some i
of_activity-some a none h = absurd (ground (arith))
of_activity-some a (some j) h = ground (arith)

-- The books before and after agree on an item.
abbrev Balanced : ℕ → SeckillDb → SeckillDb → Type 0
Balanced item db db' =
    available_of item db' + reserved_units item db'.ledger + returned_units item db.ledger
    ≡ available_of item db + reserved_units item db.ledger + returned_units item db'.ledger

Reserved-Balanced :
    (item : ℕ) {check : Bool} {l a i u q : ℕ} {key : Text} {now : ℕ} {db : SeckillDb}
    {got : PurchaseReservation} {db' : SeckillDb}
    → Reserved check l a i u q key now db got db'
    → Balanced item db db'
unfolding reserved_units returned_units
Reserved-Balanced item {a = a} {i = i} {q = q} {db = db} r =
    rw (r.items_written, r.ledger_written)
      (ground (
        arith,
        of_activity-some a (find_item i db) r.item_there,
        r.admitted,
        units_out-negate q,
        units_in-negate q,
        find-update (λ x. x.id) item i (take_units q) db.items (λ x. refl),
      ))

Released-Balanced :
    (item : ℕ) (row : LedgerRow) (q : ℕ) (db db' : SeckillDb)
    → row.delta ≡ pos q
    → Released row q db db'
    → Balanced item db db'
unfolding reserved_units returned_units
Released-Balanced item row q db db' d (known e p) = rw p refl
Released-Balanced item row q db db' d (gave i e f fits w l k) =
    rw (w, l, d)
      (ground (
        arith,
        of_activity-some row.activity_id (find_item row.activity_item_id db) f,
        find-update (λ x. x.id) item row.activity_item_id (give_units q) db.items (λ x. refl),
      ))

Wrote-Balanced : (item : ℕ) (db db' : SeckillDb) → Wrote db db' → Balanced item db db'
Wrote-Balanced item db db' (nothing e) = rw e refl
Wrote-Balanced item db db' (took _ _ _ _ _ _ _ _ _ r) = Reserved-Balanced item r
Wrote-Balanced item db db' (returned row q d r) = Released-Balanced item row q db db' d r

-- Over any history of reservations, compensations and releases, whatever faults they meet: the
-- change of an item's available stock is exactly what the ledger's new rows record, in both
-- directions.
pub run-available_of :
    (item : ℕ) (ops : List SeckillOp) (db : SeckillDb)
    → available_of item (run ops db)
        + reserved_units item (run ops db).ledger
        + returned_units item db.ledger
      ≡ available_of item db
        + reserved_units item db.ledger
        + returned_units item (run ops db).ledger
unfolding run
run-available_of item [] db = refl
run-available_of item (op ∷ ops) db = omega (
  arith,
  Wrote-Balanced item db (apply_op op db).1 (apply_op-Wrote op db),
  run-available_of item ops (apply_op op db).1,
)

-- Started with an empty ledger, the units sold of an item never exceed the stock that it started
-- with and the units that were returned.
pub run_never_oversells :
    (item : ℕ) (ops : List SeckillOp) (db : SeckillDb)
    → db.ledger ≡ []
    → reserved_units item (run ops db).ledger
      ≤ available_of item db + returned_units item (run ops db).ledger
unfolding reserved_units returned_units
run_never_oversells item ops db e =
    let h = run-available_of item ops db in
    omega (arith, h, ap (reserved_units item) e, ap (returned_units item) e)
