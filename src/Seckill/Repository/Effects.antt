-- ===== src/Seckill/Repository/Effects.antt =====
-- What a purchase reservation and a release of one write, when they succeed.
use flash_sale.Prelude.{
  ℕ, ◌+◌, ◌≤◌, Bool, true, false, ◌&&◌, ◌||◌, Option, none, some, ◌∷◌, ◌++◌, ◌≡◌, ◌≢◌, ◌⊎◌, refl,
  arith, nat_beq, ltb, inl, inr, if◌then◌else◌,
}
use flash_sale.Text.{Text, trim_space}
use flash_sale.Result.{Result, ok, err}
use flash_sale.Sql.{Faults, update}
use flash_sale.Seckill.Model.{
  Activity, ActivityItem, LedgerRow, SeckillDb, PurchaseReservation, u32_max, SeckillErr,
}
use flash_sale.Seckill.Rules.{
  find_activity, find_item, of_activity, admits, take_units, bought, is_window,
}
use flash_sale.Seckill.Repository.{
  ledger_has, insert_stock_ledger, give_units, reserve_suffix, reserve_ledger_row,
  reserve_purchase_tx, release_tx, check_user_limit, check_limit, reserve_row,
}

-- The user limit refuses `q` more units.
abbrev pub over_limit : ℕ → ℕ → ℕ → ℕ → ActivityItem → SeckillDb → Bool
over_limit activity_id user_id q now i db =
    ltb 0 i.user_limit_qty
    && (is_window i.user_limit_mode && nat_beq i.user_limit_window_sec 0
        || ltb i.user_limit_qty (bought activity_id user_id now i db.links + q))

abbrev pub reserve_key : Text → Text
reserve_key key = trim_space key ++ reserve_suffix

-- A reservation that went through.
pub record Reserved (check : Bool) (ledger_id activity_id item_id user_id q : ℕ) (key : Text)
    (now : ℕ) (db : SeckillDb) (got : PurchaseReservation) (db' : SeckillDb) : Type 0 where
  pub activity : Activity
  pub item : ActivityItem
  pub fresh : ledger_has ledger_id (reserve_key key) db.ledger ≡ false
  pub activity_there : find_activity activity_id db ≡ some activity
  pub item_there : of_activity activity_id (find_item item_id db) ≡ some item
  pub admitted : admits q now (some activity) (some item) ≡ true
  pub in_limit : check ≡ true → over_limit activity_id user_id q now item db ≡ false
  pub items_written : db'.items ≡ update (λ r. r.id) item_id (take_units q) db.items
  pub activities_kept : db'.activities ≡ db.activities
  pub links_kept : db'.links ≡ db.links
  pub ledger_written :
      db'.ledger
      ≡ record (reserve_ledger_row ledger_id activity_id item_id q (reserve_key key)) {
        remain_after = got.remain_stock;
      }
        ∷ db.ledger
  pub answer : got ≡ record {
    activity_id = activity_id;
    activity_item_id = item_id;
    quantity = q;
    remain_stock = got.remain_stock;
  }

-- What the check of the user limit leaves, when it passes.
abbrev Limited : Bool → ℕ → ℕ → ℕ → ℕ → ℕ → ActivityItem → SeckillDb → ℕ → SeckillDb → Type 0
Limited check ledger_id activity_id user_id q now i s n s' =
    (check ≡ true → over_limit activity_id user_id q now i s ≡ false)
    × (s' ≡ (
        if check
        then record s {
          ledger = update (λ r. r.id) ledger_id (λ r. record r { remain_after = n }) s.ledger;
        }
        else s))
    × (check ≡ false → n ≡ 0)

module _ (faults : Faults) (ledger_id activity_id user_id q now : ℕ) (i : ActivityItem) where
  user_limit_ok :
      (s s' : SeckillDb)
      → check_user_limit faults activity_id user_id q now i s ≡ ok (tt, s')
      → (over_limit activity_id user_id q now i s ≡ false) × (s' ≡ s)
  unfolding check_user_limit
  user_limit_ok s s' h = (ground arith, ground arith)

  Limited-step :
      (s s' : SeckillDb) (n : ℕ) (r : Result SeckillErr ((Unit {0}) × SeckillDb))
      → check_user_limit faults activity_id user_id q now i s ≡ r
      → check_limit faults true ledger_id activity_id user_id q now i s ≡ ok (n, s')
      → Limited true ledger_id activity_id user_id q now i s n s'
  unfolding check_limit
  Limited-step s s' n (err x) e h = absurd (ground (arith, e))
  Limited-step s s' n (ok (tt, s1)) e h =
      let (o, p) = user_limit_ok s s1 e in
      (λ _. o, ground (arith, e, p), λ f. absurd (ground (arith, f)))

  limit_passed :
      (check : Bool) (s s' : SeckillDb) (n : ℕ)
      → check_limit faults check ledger_id activity_id user_id q now i s ≡ ok (n, s')
      → Limited check ledger_id activity_id user_id q now i s n s'
  unfolding check_limit
  limit_passed false s s' n h = (λ f. absurd (ground (arith, f)), ground arith, λ _. ground arith)
  limit_passed true s s' n h = Limited-step s s' n _ refl h

-- What the reserving update and the check after it leave.
record Sold (check : Bool) (ledger_id activity_id item_id user_id q now : ℕ) (a : Activity)
    (i : ActivityItem) (s : SeckillDb) (n : ℕ) (s' : SeckillDb) : Type 0 where
  pub allowed : admits q now (some a) (some i) ≡ true
  pub limited :
      Limited check ledger_id activity_id user_id q now i
        (record s { items = update (λ r. r.id) item_id (take_units q) s.items })
        n
        s'

module _ (faults : Faults) (check : Bool) (ledger_id activity_id item_id user_id q now : ℕ)
    (before s s' : SeckillDb) (n : ℕ) where
  reserve_row-Sold :
      (a : Activity) (i : ActivityItem)
      → reserve_row faults check ledger_id activity_id item_id user_id q now before
          (some a)
          (some i)
          s
        ≡ ok (n, s')
      → Sold check ledger_id activity_id item_id user_id q now a i s n s'
  unfolding reserve_row
  reserve_row-Sold a i h = record {
    allowed = ground (arith);
    limited =
        limit_passed faults ledger_id activity_id user_id q now i check _ s' n (ground (arith));
  }

  row_missing :
      (a : Option Activity) (i : Option ActivityItem)
      → (a ≡ none) ⊎ (i ≡ none)
      → reserve_row faults check ledger_id activity_id item_id user_id q now before a i s
        ≢ ok (n, s')
  unfolding reserve_row
  row_missing none none o h = ground arith
  row_missing none (some i) o h = ground arith
  row_missing (some a) none o h = ground arith
  row_missing (some a) (some i) o h = ground arith

module _ (faults : Faults) (check : Bool) (ledger_id activity_id item_id user_id q : ℕ) (key : Text)
    (now : ℕ) (db : SeckillDb) (got : PurchaseReservation) (db' : SeckillDb) where
  abbrev after_claim : SeckillDb
  after_claim = record db {
    ledger = reserve_ledger_row ledger_id activity_id item_id q (reserve_key key) ∷ db.ledger;
  }

  pub Reserved-found :
      (a : Option Activity) (i : Option ActivityItem) (known : Bool)
      (r : Result SeckillErr (ℕ × SeckillDb))
      → ledger_has ledger_id (reserve_key key) db.ledger ≡ known
      → find_activity activity_id db ≡ a
      → of_activity activity_id (find_item item_id db) ≡ i
      → reserve_row faults check ledger_id activity_id item_id user_id q now db a i after_claim ≡ r
      → reserve_purchase_tx faults check ledger_id activity_id item_id user_id q key now db db
        ≡ ok (got, db')
      → Reserved check ledger_id activity_id item_id user_id q key now db got db'
  unfolding reserve_purchase_tx insert_stock_ledger update
  Reserved-found a i true r e f g k h = absurd (ground (arith, e))
  Reserved-found a i false (err x) e f g k h = absurd (ground (arith, e, f, g, k))
  Reserved-found none i false (ok (n, s1)) e f g k h = absurd (
      row_missing faults check ledger_id activity_id item_id user_id q now db after_claim s1 n none
        i (inl refl) k)
  Reserved-found (some a) none false (ok (n, s1)) e f g k h = absurd (
      row_missing faults check ledger_id activity_id item_id user_id q now db after_claim s1 n
        (some a) none (inr refl) k)
  Reserved-found (some a) (some i) false (ok (n, s1)) e f g k h =
      let sold =
        reserve_row-Sold faults check ledger_id activity_id item_id user_id q now db after_claim s1
          n a i k in
      let (l, w, z) = sold.limited in
      record {
        activity = a;
        item = i;
        fresh = e;
        activity_there = f;
        item_there = g;
        admitted = sold.allowed;
        in_limit = l;
        items_written = ground (arith, e, f, g, k, w, z);
        activities_kept = ground (arith, e, f, g, k, w, z);
        links_kept = ground (arith, e, f, g, k, w, z);
        ledger_written = ground (arith, e, f, g, k, w, z);
        answer = ground (arith, e, f, g, k, w, z);
      }

-- A release that went through: a row with the key was there, or the units went back.
pub data Released (row : LedgerRow) (q : ℕ) (db db' : SeckillDb) : Type 0 where
  known : ledger_has row.id row.key db.ledger ≡ true → db' ≡ db → Released row q db db'
  gave :
      (item : ActivityItem)
      → ledger_has row.id row.key db.ledger ≡ false
      → of_activity row.activity_id (find_item row.activity_item_id db) ≡ some item
      → item.available_stock + q ≤ u32_max
      → db'.items ≡ update (λ r. r.id) row.activity_item_id (give_units q) db.items
      → db'.ledger ≡ record row { remain_after = item.available_stock + q } ∷ db.ledger
      → (db'.activities ≡ db.activities) × (db'.links ≡ db.links)
      → Released row q db db'

module _ (faults : Faults) (row : LedgerRow) (q : ℕ) (db db' : SeckillDb) where
  pub Released-found :
      (b : Bool) (i : Option ActivityItem)
      → ledger_has row.id row.key db.ledger ≡ b
      → of_activity row.activity_id (find_item row.activity_item_id db) ≡ i
      → release_tx faults row q db ≡ ok (tt, db')
      → Released row q db db'
  unfolding release_tx insert_stock_ledger update
  Released-found true i e f h = known e (ground (arith, e, f))
  Released-found false none e f h = absurd (ground (arith, e, f))
  Released-found false (some i) e f h =
      gave i e f (ground (arith, e, f)) (ground (arith, e, f)) (ground (arith, e, f))
        (ground (arith, e, f), ground (arith, e, f))
