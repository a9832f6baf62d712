-- ===== src/Product/Model.antt =====
-- apps/product/rpc/internal/model/product.go and the tables `products`, `idempotency_records`.
use flash_sale.Prelude.{ℕ, Bool, true, false, Option, List, ◌-◌, ◌^◌}
use flash_sale.Text.{Text}
use flash_sale.Sql.{DriverErr}

-- `StatusOffShelf`, `StatusOnShelf`
pub data ShelfStatus : Type 0 where
  off_shelf on_shelf : ShelfStatus

abbrev pub is_on_shelf : ShelfStatus → Bool
is_on_shelf on_shelf = true
is_on_shelf off_shelf = false

-- One row of `products`. `stock` is INT UNSIGNED; times are nanoseconds since the epoch.
pub record Product : Type 0 where
  pub id : ℕ
  pub sku_code : Text
  pub name : Text
  pub main_image : Text
  pub description : Text
  pub price_cent : ℕ
  pub stock : ℕ
  pub status : ShelfStatus
  pub deleted_at : Option ℕ
  pub created_at : ℕ
  pub updated_at : ℕ

-- The largest value of an INT UNSIGNED column.
abbrev pub u32_max : ℕ
u32_max = 2 ^ 32 - 1

-- `idempotencySceneReserveStock`, `idempotencySceneReleaseStock`
pub data Scene : Type 0 where
  stock_reserve stock_release : Scene

abbrev pub scene_beq : Scene → Scene → Bool
scene_beq stock_reserve stock_reserve = true
scene_beq stock_release stock_release = true
scene_beq _ _ = false

-- One row of `idempotency_records`, unique by key and scene. `payload` is the decoded
-- `{"remain_stock": n}`, and `done` is `status = 1`.
pub record IdempotencyRecord : Type 0 where
  pub key : Text
  pub scene : Scene
  pub done : Bool
  pub payload : Option ℕ
  pub expired_at : ℕ

pub record ProductDb : Type 0 where
  pub products : List Product
  pub records : List IdempotencyRecord

-- The errors of the repository; `invalid_argument` stands for its two `fmt.Errorf` guards.
pub data ProductErr : Type 0 where
  product_not_found stock_not_enough idempotency_in_progress invalid_argument : ProductErr
  driver : DriverErr → ProductErr
