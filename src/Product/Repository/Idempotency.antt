-- ===== src/Product/Repository/Idempotency.antt =====
-- A stock operation runs once per key: what a repetition of it does.
use flash_sale.Prelude.{
  ℕ, true, Option, none, some, List, [], ◌∷◌, ◌≡◌, refl, arith, Bool-cases, inl, inr, ◌+◌,
}
use flash_sale.Text.{Text, text_beq_refl, text_beq_iff}
use flash_sale.Result.{Result, ok, err}
use flash_sale.Sql.{Faults}
use flash_sale.Product.Model.{
  Scene, stock_reserve, stock_release, scene_beq, IdempotencyRecord, ProductDb, ProductErr,
}
use flash_sale.Product.Repository.{
  ProductTx, replay_of, is_record, new_record, idempotency_record_ttl, find_record, mark_done,
  lock_idempotency_record_tx, mark_idempotency_done_tx, reserve_stock_tx, release_stock_tx,
  stock_tx,
}

scene_beq_refl : (s : Scene) → scene_beq s s ≡ true
scene_beq_refl stock_reserve = refl
scene_beq_refl stock_release = refl

-- The record of `key` remembers `n`.
pub record Remembers (scene : Scene) (key : Text) (n : ℕ) (db : ProductDb) : Type 0 where
  pub row : IdempotencyRecord
  pub stored : find_record scene key db.records ≡ some row
  pub replays : replay_of row ≡ some n

-- The body of a stock operation leaves the idempotency records alone.
abbrev pub KeepsRecords : ProductTx ℕ → Type 0
KeepsRecords body =
    (db : ProductDb) (n : ℕ) (db' : ProductDb) → body db ≡ ok (n, db') → db'.records ≡ db.records

pub reserve_stock_tx-KeepsRecords :
    (faults : Faults) (id q : ℕ) → KeepsRecords (reserve_stock_tx faults id q)
unfolding reserve_stock_tx
reserve_stock_tx-KeepsRecords faults id q db n db' h = ground arith

pub release_stock_tx-KeepsRecords :
    (faults : Faults) (id q : ℕ) → KeepsRecords (release_stock_tx faults id q)
unfolding release_stock_tx
release_stock_tx-KeepsRecords faults id q db n db' h = ground arith

find_record-mark_done :
    (s : Scene) (k : Text) (n e : ℕ) (rs : List IdempotencyRecord) {r : IdempotencyRecord}
    → find_record s k rs ≡ some r
    → find_record s k (mark_done s k n e rs)
      ≡ some (record r { done = true; payload = some n; expired_at = e })
unfolding find_record mark_done
find_record-mark_done s k n e [] h = ground arith
find_record-mark_done s k n e (x ∷ rs) h = elim (Bool-cases (is_record s k x)) [
  | inl b ↦ rw (b, b) (let p : some x ≡ some _ = (rw b at h) in ground arith)
  | inr b ↦ rw (b, b) (find_record-mark_done s k n e rs (rw b at h))
]

-- The database as the body of an operation sees it, once the key is claimed.
abbrev pub claimed : ℕ → Scene → Text → ProductDb → ProductDb
claimed now s key db = record db {
  records = new_record s key (now + idempotency_record_ttl) ∷ db.records;
}

-- The two ways in which a stock operation succeeds.
pub data Ran (now : ℕ) (s : Scene) (key : Text) (body : ProductTx ℕ) (db : ProductDb) (n : ℕ)
    (db' : ProductDb) : Type 0 where
  replayed :
      (r : IdempotencyRecord)
      → find_record s key db.records ≡ some r
      → replay_of r ≡ some n
      → db' ≡ db
      → Ran now s key body db n db'
  performed :
      (mid : ProductDb)
      → find_record s key db.records ≡ none
      → body (claimed now s key db) ≡ ok (n, mid)
      → db' ≡ record mid { records = mark_done s key n (now + idempotency_record_ttl) mid.records }
      → Ran now s key body db n db'

module _ (faults : Faults) (now : ℕ) (s : Scene) (key : Text) (body : ProductTx ℕ) where
  Ran-fresh :
      (db : ProductDb) (r : Result ProductErr (ℕ × ProductDb)) (n : ℕ) (db' : ProductDb)
      → find_record s key db.records ≡ none
      → body (claimed now s key db) ≡ r
      → stock_tx faults now s key body db ≡ ok (n, db')
      → Ran now s key body db n db'
  unfolding stock_tx lock_idempotency_record_tx mark_idempotency_done_tx
  Ran-fresh db (err x) n db' e b h = absurd (ground (arith, e, b))
  Ran-fresh db (ok (m, mid)) n db' e b h =
      performed mid e (ground (arith, e, b)) (ground (arith, e, b))

  Ran-found :
      (db : ProductDb) (o : Option IdempotencyRecord) (n : ℕ) (db' : ProductDb)
      → find_record s key db.records ≡ o
      → stock_tx faults now s key body db ≡ ok (n, db')
      → Ran now s key body db n db'
  unfolding stock_tx lock_idempotency_record_tx
  Ran-found db (some r) n db' e h = replayed r e (ground (arith, e)) (ground (arith, e))
  Ran-found db none n db' e h = Ran-fresh db _ n db' e refl h

  pub stock_tx-Ran :
      (db : ProductDb) (n : ℕ) (db' : ProductDb)
      → stock_tx faults now s key body db ≡ ok (n, db')
      → Ran now s key body db n db'
  stock_tx-Ran db n db' h = Ran-found db _ n db' refl h

-- The record that a committed operation leaves.
abbrev pub finished_record : ℕ → Scene → Text → ℕ → IdempotencyRecord
finished_record now s key n = record {
  key = key;
  scene = s;
  done = true;
  payload = some n;
  expired_at = now + idempotency_record_ttl;
}

module _ (now : ℕ) (s : Scene) (key : Text) (body : ProductTx ℕ) (keeps : KeepsRecords body) where
  -- A success that is no replay adds one finished record.
  pub performed-records :
      (db : ProductDb) (n : ℕ) (mid : ProductDb)
      → body (claimed now s key db) ≡ ok (n, mid)
      → mark_done s key n (now + idempotency_record_ttl) mid.records
        ≡ finished_record now s key n ∷ db.records
  unfolding mark_done
  performed-records db n mid b =
      rw (keeps (claimed now s key db) n mid b, text_beq_refl key, scene_beq_refl s)

  pub Ran-Remembers :
      (db : ProductDb) (n : ℕ) (db' : ProductDb)
      → Ran now s key body db n db'
      → Remembers s key n db'
  unfolding find_record
  Ran-Remembers db n db' (replayed r f p e) = rw e (record { row = r; stored = f; replays = p })
  Ran-Remembers db n db' (performed mid f b e) =
      rw (e, performed-records db n mid b)
        (record {
          row = finished_record now s key n;
          stored = rw (text_beq_refl key, scene_beq_refl s);
          replays = refl;
        })

  -- What one operation remembers, no other forgets.
  pub Ran-Remembers_stable :
      (db : ProductDb) (n : ℕ) (db' : ProductDb) (s' : Scene) (key' : Text) (m : ℕ)
      → Ran now s key body db n db'
      → Remembers s' key' m db
      → Remembers s' key' m db'
  unfolding find_record
  Ran-Remembers_stable db n db' s' key' m (replayed r f p e) h = rw e h
  Ran-Remembers_stable db n db' s' key' m (performed mid f b e) h =
      rw (e, performed-records db n mid b)
        (record {
          row = h.row;
          stored = ground (arith, h.stored, f, text_beq_iff key key');
          replays = h.replays;
        })
