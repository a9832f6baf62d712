-- ===== src/Product/Catalog/Pages.antt =====
-- What the pages of a product list hold.
use flash_sale.Prelude.{
  ℕ, zero, suc, Bool, true, false, Option, none, some, List, [], ◌∷◌, length, take, drop, select,
  ◌≡◌, refl, arith, Bool-cases, inl, inr,
}
use flash_sale.Text.{Text}
use flash_sale.Result.{Result, ok, err}
use flash_sale.Sql.{DriverErr, All}
use flash_sale.Product.Model.{Product, ProductDb, ProductErr}
use flash_sale.Product.Catalog.{
  ListQuery, visible_to_public, list_where, list_page, list_public, list_rows,
}

abbrev pub rows_of : Result ProductErr (List Product × ℕ) → List Product
rows_of (ok (rows, total)) = rows
rows_of (err e) = []

take_nil : (n : ℕ) → take {A = Product} n [] ≡ []
take_nil zero = refl
take_nil (suc n) = refl

All-take : (P : Product → Type 0) (n : ℕ) (xs : List Product) → All P xs → All P (take n xs)
All-take P zero xs a = tt
All-take P (suc n) [] a = tt
All-take P (suc n) (x ∷ xs) a = (a.0, All-take P n xs a.1)

All-drop : (P : Product → Type 0) (n : ℕ) (xs : List Product) → All P xs → All P (drop n xs)
All-drop P zero xs a = a
All-drop P (suc n) [] a = tt
All-drop P (suc n) (x ∷ xs) a = All-drop P n xs a.1

All-select :
    (P : Product → Type 0) (keeps : Product → Bool) (rows : List Product)
    → ((p : Product) → keeps p ≡ true → P p)
    → All P (select keeps rows)
All-select P keeps [] h = tt
All-select P keeps (r ∷ rs) h = elim (Bool-cases (keeps r)) [
  | inl e ↦ rw e (h r e, All-select P keeps rs h)
  | inr e ↦ rw e (All-select P keeps rs h)
]

module _ (like : Text → Text → Bool) (newest_first : ℕ → ℕ → List Product → List Product) where
  page_All :
      (P : Product → Type 0) (fault : Option DriverErr) (query : ListQuery) (rows : List Product)
      (n : ℕ)
      → ((limit offset : ℕ) → All P (newest_first limit offset rows))
      → All P (rows_of (list_rows newest_first fault rows query n))
  page_All P fault query rows zero a = tt
  page_All P (some e) query rows (suc n) a = tt
  page_All P none query rows (suc n) a = All-take P _ _ (All-drop P _ _ (a _ _))

  list_rows-All :
      (P : Product → Type 0) (keeps : Product → Bool) (count fault : Option DriverErr)
      (query : ListQuery) (db : ProductDb)
      → ((Q : Product → Type 0) (rows : List Product)
          → All Q rows
          → (limit offset : ℕ) → All Q (newest_first limit offset rows))
      → ((p : Product) → keeps p ≡ true → P p)
      → All P (rows_of (list_page newest_first count fault keeps query db))
  unfolding list_page
  list_rows-All P keeps (some e) fault query db o h = tt
  list_rows-All P keeps none fault query db o h =
      page_All P fault query (select keeps db.products) (length (select keeps db.products))
        (o P _ (All-select P keeps db.products h))

  -- Where ordering the rows of a query only rearranges them, whatever page a visitor asks for, with whatever
  -- keyword, every product on it is on the shelf and not deleted.
  pub list_public-All :
      (count fault : Option DriverErr) (query : ListQuery) (db : ProductDb)
      → ((Q : Product → Type 0) (rows : List Product)
          → All Q rows
          → (limit offset : ℕ) → All Q (newest_first limit offset rows))
      → All
          (λ p. visible_to_public p ≡ true)
          (rows_of (list_public like newest_first count fault query db))
  unfolding list_public list_where
  list_public-All count fault query db o =
      list_rows-All (λ p. visible_to_public p ≡ true) (list_where like query.keyword false true)
        count fault query db o (λ p h. ground (arith, h))
