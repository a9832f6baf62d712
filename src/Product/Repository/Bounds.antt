-- ===== src/Product/Repository/Bounds.antt =====
-- What a performed reservation or release does to the product table.
use flash_sale.Prelude.{
  ℕ, ◌+◌, ◌≤◌, true, Option, none, some, ◌≡◌, refl, arith, nat_beq, if◌then◌else◌,
}
use flash_sale.Result.{ok}
use flash_sale.Sql.{Faults, find, update, find-update}
use flash_sale.Product.Model.{Product, u32_max, ProductDb}
use flash_sale.Product.Repository.{
  reservable, take_stock, add_stock, reserve_stock_tx, release_stock_tx,
}

abbrev pub find_product : ℕ → ProductDb → Option Product
find_product id db = find (λ r. r.id) id db.products

-- The stock of a product, 0 where there is none.
abbrev pub stock_of : ℕ → ProductDb → ℕ
stock_of id db = elim (find_product id db) [ none ↦ 0 | some p ↦ p.stock ]

pub record Took (id q : ℕ) (db : ProductDb) (n : ℕ) (mid : ProductDb) : Type 0 where
  pub row : Product
  pub there : find_product id db ≡ some row
  pub allowed : reservable q row ≡ true
  pub remains : n + q ≡ row.stock
  pub written : mid ≡ record db { products = update (λ r. r.id) id (take_stock q) db.products }

pub record Gave (id q : ℕ) (db : ProductDb) (n : ℕ) (mid : ProductDb) : Type 0 where
  pub row : Product
  pub there : find_product id db ≡ some row
  pub fits : n ≤ u32_max
  pub remains : n ≡ row.stock + q
  pub written : mid ≡ record db { products = update (λ r. r.id) id (add_stock q) db.products }

Took-found :
    (faults : Faults) (id q : ℕ) (db : ProductDb) (o : Option Product) (n : ℕ) (mid : ProductDb)
    → find_product id db ≡ o
    → reserve_stock_tx faults id q db ≡ ok (n, mid)
    → Took id q db n mid
unfolding reserve_stock_tx
Took-found faults id q db none n mid e h = absurd (ground (arith, e))
Took-found faults id q db (some p) n mid e h = record {
  row = p;
  there = e;
  allowed = ground (arith, e);
  remains = ground (arith, e);
  written = ground (arith, e);
}

pub reserve_stock_tx-Took :
    (faults : Faults) (id q : ℕ) (db : ProductDb) (n : ℕ) (mid : ProductDb)
    → reserve_stock_tx faults id q db ≡ ok (n, mid)
    → Took id q db n mid
reserve_stock_tx-Took faults id q db n mid h = Took-found faults id q db _ n mid refl h

Gave-found :
    (faults : Faults) (id q : ℕ) (db : ProductDb) (o : Option Product) (n : ℕ) (mid : ProductDb)
    → find_product id db ≡ o
    → release_stock_tx faults id q db ≡ ok (n, mid)
    → Gave id q db n mid
unfolding release_stock_tx
Gave-found faults id q db none n mid e h = absurd (ground (arith, e))
Gave-found faults id q db (some p) n mid e h = record {
  row = p;
  there = e;
  fits = ground (arith, e);
  remains = ground (arith, e);
  written = ground (arith, e);
}

pub release_stock_tx-Gave :
    (faults : Faults) (id q : ℕ) (db : ProductDb) (n : ℕ) (mid : ProductDb)
    → release_stock_tx faults id q db ≡ ok (n, mid)
    → Gave id q db n mid
release_stock_tx-Gave faults id q db n mid h = Gave-found faults id q db _ n mid refl h

-- The stock after a reservation, of this product and of any other.
pub stock_of-Took :
    (id q : ℕ) (db : ProductDb) (n : ℕ) (mid : ProductDb) (pid : ℕ)
    → Took id q db n mid
    → stock_of pid mid + (if nat_beq id pid then q else 0) ≡ stock_of pid db
stock_of-Took id q db n mid pid t = rw t.written (
    ground (
      arith,
      t.there,
      t.remains,
      find-update (λ r. r.id) pid id (take_stock q) db.products (λ r. refl),
    ))

pub stock_of-Gave :
    (id q : ℕ) (db : ProductDb) (n : ℕ) (mid : ProductDb) (pid : ℕ)
    → Gave id q db n mid
    → stock_of pid mid ≡ stock_of pid db + (if nat_beq id pid then q else 0)
stock_of-Gave id q db n mid pid t = rw t.written (
    ground (
      arith,
      t.there,
      t.remains,
      find-update (λ r. r.id) pid id (add_stock q) db.products (λ r. refl),
    ))
