-- ===== src/Product/Catalog/Deleted.antt =====
-- A deleted product is gone for good.
use flash_sale.Prelude.{
  ℕ, ℤ, Bool, true, false, Option, none, some, List, [], ◌∷◌, nat_beq, ltb, is_some, ◌≡◌, inl, inr,
  refl, arith, Bool-cases,
}
use flash_sale.Text.{Text}
use flash_sale.Result.{Result, ok, err}
use flash_sale.Sql.{DriverErr, Faults, find, update, find-update, find-insert}
use flash_sale.Product.Model.{
  Product, ProductDb, ProductErr, product_not_found, u32_max, stock_reserve, stock_release,
}
use flash_sale.Product.Repository.{take_stock, add_stock, reserve_stock_tx, release_stock_tx}
use flash_sale.Product.Repository.History.{
  StockOp, reserve, release, apply_op, GuardedRun, refused, succeeded, reserve_run, release_run,
}
use flash_sale.Product.Repository.Idempotency.{replayed, performed, claimed}
use flash_sale.Product.Repository.Bounds.{reserve_stock_tx-Took, release_stock_tx-Gave}
use flash_sale.Product.Catalog.{
  fresh_row, set_columns, bury, create, update_product, update_row, soft_delete, delete_row,
  find_by_id_admin, find_by_id_public, rows_affected, same_columns,
}

-- The row with the id is there and has a time of deletion.
pub record Dead (id : ℕ) (db : ProductDb) : Type 0 where
  pub row : Product
  pub there : find (λ r. r.id) id db.products ≡ some row
  pub deleted : is_some row.deleted_at ≡ true

-- A write to the product table.
pub data ProductOp : Type 0 where
  creates : Option DriverErr → ℕ → Product → ProductOp
  updates : Option DriverErr → Option DriverErr → ℕ → Product → ProductOp
  deletes : Option DriverErr → Option DriverErr → ℕ → ℕ → ℕ → ProductOp
  moves_stock : StockOp → ProductOp

unfoldable pub write : ProductOp → ProductDb → ProductDb
write (creates fault clock p) db = (create fault clock p db).1
write (updates fault rows clock p) db = (update_product fault rows clock p db).1
write (deletes fault rows clock id at) db = (soft_delete fault rows clock id at db).1
write (moves_stock op) db = (apply_op op db).1

unfoldable pub write_all : List ProductOp → ProductDb → ProductDb
write_all [] db = db
write_all (op ∷ ops) db = write_all ops (write op db)

update-Dead :
    (id j : ℕ) (f : Product → Product) (db : ProductDb) (records : List _)
    → ((r : Product) → (f r).id ≡ r.id)
    → ((r : Product) → is_some r.deleted_at ≡ true → is_some (f r).deleted_at ≡ true)
    → Dead id db
    → Dead id (record { products = update (λ r. r.id) j f db.products; records = records })
update-Dead id j f db records key keeps d = elim (Bool-cases (nat_beq j id)) [
  | inl b ↦ record {
    row = f d.row;
    there = ground (arith, b, d.there, find-update (λ r. r.id) id j f db.products key);
    deleted = keeps d.row d.deleted;
  }
  | inr b ↦ record {
    row = d.row;
    there = ground (arith, b, d.there, find-update (λ r. r.id) id j f db.products key);
    deleted = d.deleted;
  }
]

create-Dead :
    (id : ℕ) (fault : Option DriverErr) (clock : ℕ) (p : Product) (db : ProductDb)
    → Dead id db
    → Dead id (create fault clock p db).1
unfolding create
create-Dead id fault clock p db d = record {
  row = d.row;
  there = ground (arith, d.there, find-insert (λ r. r.id) id (fresh_row clock p) db.products);
  deleted = d.deleted;
}

pub rows_kept :
    (rows : Option DriverErr) (changed : Bool) (db : ProductDb)
    → (rows_affected rows changed db).1 ≡ db
rows_kept (some e) changed db = refl
rows_kept none true db = refl
rows_kept none false db = refl

updated_row-Dead :
    (id : ℕ) (rows : Option DriverErr) (clock : ℕ) (p : Product) (db : ProductDb) (r : Product)
    (gone wide same : Bool)
    → is_some r.deleted_at ≡ gone
    → ltb u32_max p.stock ≡ wide
    → same_columns p r ≡ same
    → Dead id db
    → Dead id (update_row rows clock p db (some r)).1
updated_row-Dead id rows clock p db r true wide same e f g d = rw (e, rows_kept rows false db) d
updated_row-Dead id rows clock p db r false true same e f g d = rw (e, f) d
updated_row-Dead id rows clock p db r false false true e f g d =
    rw (e, f, g, rows_kept rows false db) d
updated_row-Dead id rows clock p db r false false false e f g d =
    rw
      (
        e,
        f,
        g,
        rows_kept rows true
            (record db { products = update (λ x. x.id) p.id (set_columns clock p) db.products }),
      )
      (update-Dead id p.id (set_columns clock p) db db.records (λ x. refl) (λ x h. h) d)

updated-Dead :
    (id : ℕ) (rows : Option DriverErr) (clock : ℕ) (p : Product) (db : ProductDb)
    (o : Option Product)
    → Dead id db
    → Dead id (update_row rows clock p db o).1
updated-Dead id none clock p db none d = d
updated-Dead id (some e) clock p db none d = d
updated-Dead id rows clock p db (some r) d =
    updated_row-Dead id rows clock p db r _ _ _ refl refl refl d

deleted-Dead :
    (id : ℕ) (rows : Option DriverErr) (clock j at : ℕ) (db : ProductDb) (o : Option Product)
    → Dead id db
    → Dead id (delete_row rows clock j at db o).1
deleted-Dead id none clock j at db none d = d
deleted-Dead id (some e) clock j at db none d = d
deleted-Dead id rows clock j at db (some r) d = elim (Bool-cases (is_some r.deleted_at)) [
  | inl b ↦ rw b (rw (rows_kept rows false db) d)
  | inr b ↦ rw b (
      rw
        (rows_kept rows true
          (record db { products = update (λ x. x.id) j (bury clock at) db.products }))
        (update-Dead id j (bury clock at) db db.records (λ x. refl) (λ x _. refl) d))
]

reserved-Dead :
    (id : ℕ) (faults : Faults) (now pid : ℕ) (quantity : ℤ) (key : Text) (db : ProductDb)
    (r : Result ProductErr ℕ × ProductDb)
    → GuardedRun faults now stock_reserve key (reserve_stock_tx faults pid) quantity db r
    → Dead id db
    → Dead id r.1
reserved-Dead id faults now pid quantity key db r (refused e p) d = rw p d
reserved-Dead id faults now pid quantity key db r (succeeded q n p b o (replayed rec f x e)) d =
    rw e d
reserved-Dead id faults now pid quantity key db r (succeeded q n p b o (performed mid f x e)) d =
    let t = reserve_stock_tx-Took faults pid q (claimed now stock_reserve key db) n mid x in
    rw (e, t.written) (update-Dead id pid (take_stock q) db _ (λ x. refl) (λ x h. h) d)

released-Dead :
    (id : ℕ) (faults : Faults) (now pid : ℕ) (quantity : ℤ) (key : Text) (db : ProductDb)
    (r : Result ProductErr ℕ × ProductDb)
    → GuardedRun faults now stock_release key (release_stock_tx faults pid) quantity db r
    → Dead id db
    → Dead id r.1
released-Dead id faults now pid quantity key db r (refused e p) d = rw p d
released-Dead id faults now pid quantity key db r (succeeded q n p b o (replayed rec f x e)) d =
    rw e d
released-Dead id faults now pid quantity key db r (succeeded q n p b o (performed mid f x e)) d =
    let t = release_stock_tx-Gave faults pid q (claimed now stock_release key db) n mid x in
    rw (e, t.written) (update-Dead id pid (add_stock q) db _ (λ x. refl) (λ x h. h) d)

write-Dead : (id : ℕ) (op : ProductOp) (db : ProductDb) → Dead id db → Dead id (write op db)
unfolding write update_product soft_delete apply_op
write-Dead id (creates fault clock p) db d = create-Dead id fault clock p db d
write-Dead id (updates (some e) rows clock p) db d = d
write-Dead id (updates none rows clock p) db d = updated-Dead id rows clock p db _ d
write-Dead id (deletes (some e) rows clock j at) db d = d
write-Dead id (deletes none rows clock j at) db d = deleted-Dead id rows clock j at db _ d
write-Dead id (moves_stock (reserve faults now pid quantity key)) db d =
    reserved-Dead id faults now pid quantity key db _ (reserve_run faults now pid quantity key db) d
write-Dead id (moves_stock (release faults now pid quantity key)) db d =
    released-Dead id faults now pid quantity key db _ (release_run faults now pid quantity key db) d

write_all-Dead :
    (id : ℕ) (ops : List ProductOp) (db : ProductDb) → Dead id db → Dead id (write_all ops db)
unfolding write_all
write_all-Dead id [] db d = d
write_all-Dead id (op ∷ ops) db d = write_all-Dead id ops (write op db) (write-Dead id op db d)

buried :
    (rows : Option DriverErr) (clock id at : ℕ) (db : ProductDb) (o : Option Product)
    → find (λ r. r.id) id db.products ≡ o
    → (delete_row rows clock id at db o).0 ≡ ok tt
    → Dead id (delete_row rows clock id at db o).1
buried (some x) clock id at db none e h = absurd (ground (arith))
buried none clock id at db none e h = absurd (ground (arith))
buried (some x) clock id at db (some r) e h = absurd (ground (arith))
buried none clock id at db (some r) e h = elim (Bool-cases (is_some r.deleted_at)) [
  | inl b ↦ absurd (ground (arith, b, h))
  | inr b ↦ rw b (record {
    row = bury clock at r;
    there =
        ground (arith, e, find-update (λ x. x.id) id id (bury clock at) db.products (λ x. refl));
    deleted = refl;
  })
]

soft_delete-Dead :
    (fault rows : Option DriverErr) (clock id at : ℕ) (db : ProductDb)
    → (soft_delete fault rows clock id at db).0 ≡ ok tt
    → Dead id (soft_delete fault rows clock id at db).1
unfolding soft_delete
soft_delete-Dead (some e) rows clock id at db h = absurd (ground (arith))
soft_delete-Dead none rows clock id at db h = buried rows clock id at db _ refl h

-- Once a product was deleted, no later history of writes to the table (creations, updates, deletions
-- and stock operations, whatever fails in them) brings it back: neither an administrator nor a
-- visitor finds it, and deleting it again answers that it is not there and changes nothing.
pub soft_delete_is_final :
    (fault rows : Option DriverErr) (clock id at : ℕ) (db : ProductDb)
    → (soft_delete fault rows clock id at db).0 ≡ ok tt
    → (ops : List ProductOp) (clock' at' : ℕ)
    → let later = write_all ops (soft_delete fault rows clock id at db).1 in
      (find_by_id_admin none id later ≡ err product_not_found)
      × (find_by_id_public none id later ≡ err product_not_found)
      × (soft_delete none none clock' id at' later ≡ (err product_not_found, later))
unfolding find_by_id_admin find_by_id_public
soft_delete_is_final fault rows clock id at db h ops clock' at' =
    let d = write_all-Dead id ops _ (soft_delete-Dead fault rows clock id at db h) in
    (
      rw d.there (ground (arith, d.deleted)),
      rw d.there (ground (arith, d.deleted)),
      unfold soft_delete in rw d.there (ground (arith, d.deleted)),
    )
