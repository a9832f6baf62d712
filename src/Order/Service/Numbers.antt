-- ===== src/Order/Service/Numbers.antt =====
-- The numbers that the services make of a snowflake id: apps/order/rpc/internal/logic
-- (create_order_logic.go) and apps/product/rpc/internal/logic (common.go).
use flash_sale.Prelude.{ℕ, ◌<◌, ◌^◌, [], ◌∷◌, ◌≡◌, arith, ap}
use flash_sale.Text.{Text, decimal}
use flash_sale.Text.Decimal.{decimal_injective}
use flash_sale.Order.Service.Creation.{order_no_of}
use flash_sale.Product.Service.{generate_sku}

abbrev tail : Text → Text
tail [] = []
tail (c ∷ s) = s

-- Different ids, of the 63 bits that a snowflake node makes, give different order numbers, under
-- which stock is reserved and released, and different codes of products.
pub order_no_of_injective :
    (i j : ℕ)
    → i < 2 ^ 63
    → j < 2 ^ 63
    → (order_no_of i ≡ order_no_of j → i ≡ j) × (generate_sku i ≡ generate_sku j → i ≡ j)
unfolding generate_sku
order_no_of_injective i j h k =
    let back : decimal i ≡ decimal j → i ≡ j =
      decimal_injective i j (omega (arith, h)) (omega (arith, k)) in
    (λ e. back (ap (λ s. tail (tail (tail s))) e), λ e. back (ap (λ s. tail (tail (tail s))) e))
