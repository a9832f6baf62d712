-- ===== src/Product/Service/Valid.antt =====
-- apps/product/rpc/internal/logic: what the checks of a form keep true of every stored product.
use flash_sale.Prelude.{
  ℕ, zero, suc, ℤ, pos, negsuc, ◌≤◌, Bool, true, false, Option, none, some, [], ◌∷◌, ◌≡◌, inl, inr,
  refl, arith, Bool-cases, ltb, is_some, length,
}
use flash_sale.Text.{Text, trim_space, is_blank, text_beq}
use flash_sale.Result.{Result, ok, err, ◌>>=◌}
use flash_sale.Sql.{DriverErr, All, All-update, All-insert}
use flash_sale.Errorx.{Code}
use flash_sale.Product.Model.{Product, ProductDb, u32_max}
use flash_sale.Product.Catalog.{
  create, update_product, soft_delete, fresh_row, set_columns, bury, update_row, delete_row,
  rows_affected, product_taken, same_columns,
}
use flash_sale.Product.Catalog.Deleted.{rows_kept}
use flash_sale.Product.Service.Forms.{
  ProductForm, ProductFields, normalize_name, normalize_main_image, normalize_description,
  normalize_price_cent, normalize_stock, normalize_status, check_form,
}

-- A product that visitors can be shown: its texts fit, and its price is positive.
pub record IsValid (p : Product) : Type 0 where
  pub name : (1 ≤ length p.name) × (length p.name ≤ 100)
  pub main_image : (1 ≤ length p.main_image) × (length p.main_image ≤ 512)
  pub description : length p.description ≤ 2000
  pub price : 1 ≤ p.price_cent

pub record FieldsValid (f : ProductFields) : Type 0 where
  pub name : (1 ≤ length f.name) × (length f.name ≤ 100)
  pub main_image : (1 ≤ length f.main_image) × (length f.main_image ≤ 512)
  pub description : length f.description ≤ 2000
  pub price : 1 ≤ f.price_cent

normalize_name_fits : (s v : Text) → normalize_name s ≡ ok v → (1 ≤ length v) × (length v ≤ 100)
unfolding normalize_name
normalize_name_fits s v h = (ground (arith, h), ground (arith, h))

not_blank : (s : Text) → is_blank s ≡ false → 1 ≤ length (trim_space s)
unfolding is_blank
not_blank s h = from_nonempty (trim_space s) h
  where
    from_nonempty : (t : Text) → text_beq t [] ≡ false → 1 ≤ length t
    from_nonempty [] e = absurd (ground (arith, e))
    from_nonempty (c ∷ t) e = omega arith

normalize_main_image_fits :
    (s v : Text) → normalize_main_image s ≡ ok v → (1 ≤ length v) × (length v ≤ 512)
unfolding normalize_main_image
normalize_main_image_fits s v h = elim (Bool-cases (is_blank s)) [
  | inl b ↦ absurd (ground (arith, b, h))
  | inr b ↦ (ground (arith, b, h, not_blank s b), ground (arith, b, h))
]

normalize_description_fits : (s v : Text) → normalize_description s ≡ ok v → length v ≤ 2000
unfolding normalize_description
normalize_description_fits s v h = ground (arith, h)

normalize_price_cent_fits : (z : ℤ) (n : ℕ) → normalize_price_cent z ≡ ok n → 1 ≤ n
unfolding normalize_price_cent
normalize_price_cent_fits (pos zero) n h = absurd (ground (arith, h))
normalize_price_cent_fits (pos (suc m)) n h = ground (arith, h)
normalize_price_cent_fits (negsuc m) n h = absurd (ground (arith, h))

-- The first step of a sequence that succeeded, and the rest.
pub record Steps {A B : Type 0} (r : Result Code A) (f : A → Result Code B) (b : B) : Type 0 where
  pub value : A
  pub first : r ≡ ok value
  pub rest : f value ≡ ok b

steps :
    {A B : Type 0} (r : Result Code A) (f : A → Result Code B) (b : B)
    → (r >>= f) ≡ ok b
    → Steps r f b
steps (ok a) f b h = record { value = a; first = refl; rest = h }
steps (err c) f b h = absurd (ground (arith, h))

same_fields : (f g : ProductFields) → Path (Result Code ProductFields) (ok g) (ok f) → f ≡ g
same_fields f g e = ground (arith, e)

carried :
    (f g : ProductFields)
    → Path (Result Code ProductFields) (ok g) (ok f)
    → FieldsValid g
    → FieldsValid f
carried f g e v = rw (same_fields f g e) v

pub check_form-FieldsValid :
    (form : ProductForm) (f : ProductFields) → check_form form ≡ ok f → FieldsValid f
unfolding check_form
check_form-FieldsValid form f h =
    let s1 = steps (normalize_name form.name) _ f h in
    let s2 = steps (normalize_main_image form.main_image) _ f s1.rest in
    let s3 = steps (normalize_description form.description) _ f s2.rest in
    let s4 = steps (normalize_price_cent form.price_cent) _ f s3.rest in
    let s5 = steps (normalize_stock form.stock) _ f s4.rest in
    let s6 = steps (normalize_status form.status) _ f s5.rest in
    carried f _ s6.rest (record {
      name = normalize_name_fits form.name s1.value s1.first;
      main_image = normalize_main_image_fits form.main_image s2.value s2.first;
      description = normalize_description_fits form.description s3.value s3.first;
      price = normalize_price_cent_fits form.price_cent s4.value s4.first;
    })

-- The row of the table that a form's write makes is valid.
module _ (P : Product → Type 0) where
  pub create-All :
      (fault : Option DriverErr) (clock : ℕ) (p : Product) (db : ProductDb)
      → P (fresh_row clock p)
      → All P db.products
      → All P (create fault clock p db).1.products
  unfolding create
  create-All (some e) clock p db v a = a
  create-All none clock p db v a = elim (Bool-cases (ltb u32_max p.stock)) [
    | inl b ↦ rw b a
    | inr b ↦ elim (Bool-cases (product_taken p.id p.sku_code db.products)) [
      | inl c ↦ rw (b, c) a
      | inr c ↦ rw (b, c) (All-insert (λ r. r.id) P (fresh_row clock p) db.products v a)
    ]
  ]

  affected-All :
      (rows : Option DriverErr) (changed : Bool) (db : ProductDb)
      → All P db.products
      → All P (rows_affected rows changed db).1.products
  affected-All rows changed db a = rw (rows_kept rows changed db) a

  update_row-All :
      (rows : Option DriverErr) (clock : ℕ) (p : Product) (db : ProductDb) (o : Option Product)
      → ((r : Product) → P r → P (set_columns clock p r))
      → All P db.products
      → All P (update_row rows clock p db o).1.products
  update_row-All rows clock p db none v a = affected-All rows false db a
  update_row-All rows clock p db (some r) v a = elim (Bool-cases (is_some r.deleted_at)) [
    | inl b ↦ rw b (affected-All rows false db a)
    | inr b ↦ elim (Bool-cases (ltb u32_max p.stock)) [
      | inl c ↦ rw (b, c) a
      | inr c ↦ elim (Bool-cases (same_columns p r)) [
        | inl d ↦ rw (b, c, d) (affected-All rows false db a)
        | inr d ↦
            rw (b, c, d)
              (affected-All rows true _
                (All-update (λ x. x.id) P p.id (set_columns clock p) db.products (λ x _. v x) a))
      ]
    ]
  ]

  pub update_product-All :
      (fault rows : Option DriverErr) (clock : ℕ) (p : Product) (db : ProductDb)
      → ((r : Product) → P r → P (set_columns clock p r))
      → All P db.products
      → All P (update_product fault rows clock p db).1.products
  unfolding update_product
  update_product-All (some e) rows clock p db v a = a
  update_product-All none rows clock p db v a = update_row-All rows clock p db _ v a

  delete_row-All :
      (rows : Option DriverErr) (clock id at : ℕ) (db : ProductDb) (o : Option Product)
      → ((r : Product) → P r → P (bury clock at r))
      → All P db.products
      → All P (delete_row rows clock id at db o).1.products
  delete_row-All rows clock id at db none v a = affected-All rows false db a
  delete_row-All rows clock id at db (some r) v a = elim (Bool-cases (is_some r.deleted_at)) [
    | inl b ↦ rw b (affected-All rows false db a)
    | inr b ↦ rw b (
        affected-All rows true _
          (All-update (λ x. x.id) P id (bury clock at) db.products (λ x _. v x) a))
  ]

  pub soft_delete-All :
      (fault rows : Option DriverErr) (clock id at : ℕ) (db : ProductDb)
      → ((r : Product) → P r → P (bury clock at r))
      → All P db.products
      → All P (soft_delete fault rows clock id at db).1.products
  unfolding soft_delete
  soft_delete-All (some e) rows clock id at db v a = a
  soft_delete-All none rows clock id at db v a = delete_row-All rows clock id at db _ v a
