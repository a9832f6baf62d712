-- ===== src/Witness/Forms.antt =====
-- A product made from a form, and the numbers of two ids.
use flash_sale.Prelude.{ℕ, pos, List, [], ◌∷◌, ◌≡◌, none, arith}
use flash_sale.Sql.{All, no_faults}
use flash_sale.Product.Model.{ProductDb}
use flash_sale.Product.Service.{ProductForm, generate_sku}
use flash_sale.Product.Service.Calls.{
  Call, creates, updates, reserves_for_order, serve_all, serve_all-IsValid,
}
use flash_sale.Product.Service.Valid.{IsValid}
use flash_sale.Order.Service.Creation.{order_no_of}
use flash_sale.Order.Service.Numbers.{order_no_of_injective}

abbrev form : ProductForm
form = record {
  name = 32 ∷ 76 ∷ [];
  main_image = 77 ∷ [];
  description = [];
  price_cent = pos 1999;
  stock = pos 3;
  status = pos 1;
}

-- A product is made, its name is left out, and one unit is reserved.
abbrev morning : List Call
morning =
    creates none none 10 7 form
    ∷ updates none none none 11 (pos 7) (record form { name = 32 ∷ [] })
    ∷ reserves_for_order no_faults 12 (pos 7) (pos 1) (79 ∷ []) (75 ∷ [])
    ∷ []

abbrev nothing : ProductDb
nothing = record { products = []; records = [] }

serve_all-IsValid_example : All IsValid (serve_all morning nothing).products
serve_all-IsValid_example = serve_all-IsValid morning nothing tt

abbrev id_a : ℕ
id_a = 41

abbrev id_b : ℕ
id_b = 42

order_no_of_injective_example :
    (order_no_of id_a ≡ order_no_of id_b → id_a ≡ id_b)
    × (generate_sku id_a ≡ generate_sku id_b → id_a ≡ id_b)
order_no_of_injective_example = order_no_of_injective id_a id_b (ground arith) (ground arith)
