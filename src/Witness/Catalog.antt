-- ===== src/Witness/Catalog.antt =====
-- A table of two products, one of them deleted.
use flash_sale.Prelude.{◌≡◌, refl, none, pos, List, [], ◌∷◌, true, false}
use flash_sale.Result.{ok, err}
use flash_sale.Sql.{All, find}
use flash_sale.Product.Model.{Product, on_shelf, ProductDb, product_not_found}
use flash_sale.Product.Catalog.{
  ListQuery, soft_delete, find_by_id_admin, find_by_id_public, list_public, visible_to_public,
}
use flash_sale.Product.Catalog.Pages.{rows_of, list_public-All}
use flash_sale.Product.Catalog.Deleted.{
  ProductOp, updates, creates, write_all, soft_delete_is_final,
}

abbrev chair : Product
chair = record {
  id = 1;
  sku_code = 67 ∷ [];
  name = 67 ∷ [];
  main_image = [];
  description = [];
  price_cent = 500;
  stock = 4;
  status = on_shelf;
  deleted_at = none;
  created_at = 10;
  updated_at = 10;
}

abbrev table : Product
table = record chair { id = 2; sku_code = 84 ∷ []; name = 84 ∷ [] }

abbrev shop : ProductDb
shop = record { products = chair ∷ table ∷ []; records = [] }

abbrev one_by_one : ListQuery
one_by_one = record { page = pos 1; page_size = pos 1; keyword = []; include_deleted = false }

chair_deleted : (soft_delete none none 20 1 20 shop).0 ≡ ok tt
unfolding soft_delete find
chair_deleted = refl

abbrev revive : List ProductOp
revive = updates none none 30 chair ∷ creates none 31 chair ∷ []

soft_delete_is_final_example :
    let later = write_all revive (soft_delete none none 20 1 20 shop).1 in
    (find_by_id_admin none 1 later ≡ err product_not_found)
    × (find_by_id_public none 1 later ≡ err product_not_found)
    × (soft_delete none none 40 1 40 later ≡ (err product_not_found, later))
soft_delete_is_final_example =
    soft_delete_is_final none none 20 1 20 shop chair_deleted revive 40 40

list_public-All_example :
    All
      (λ p. visible_to_public p ≡ true)
      (rows_of
        (list_public (λ name pattern. true) (λ limit offset rows. rows) none none one_by_one shop))
list_public-All_example =
    list_public-All (λ name pattern. true) (λ limit offset rows. rows) none none one_by_one shop
      (λ Q rows a limit offset. a)
