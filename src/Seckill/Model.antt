-- ===== src/Seckill/Model.antt =====
-- apps/seckill/rpc/internal/model/seckill.go, and the tables of the seckill service. Times are
-- nanoseconds since the epoch; stocks are INT UNSIGNED columns.
use flash_sale.Prelude.{ℕ, ℤ, ◌-◌, ◌^◌, Bool, true, false, Option, List}
use flash_sale.Text.{Text}
use flash_sale.Sql.{DriverErr}

-- `ActivityStatus…`
pub data ActivityStatus : Type 0 where
  draft published offline : ActivityStatus

-- `ItemStatus…`
pub data ItemStatus : Type 0 where
  disabled enabled : ItemStatus

-- `UserLimitMode…`
pub data UserLimitMode : Type 0 where
  no_limit window_completed : UserLimitMode

abbrev pub is_published : ActivityStatus → Bool
is_published published = true
is_published _ = false

abbrev pub is_enabled : ItemStatus → Bool
is_enabled enabled = true
is_enabled disabled = false

pub record Activity : Type 0 where
  pub id : ℕ
  pub title : Text
  pub description : Text
  pub style_config_json : Text
  pub start_at : ℕ
  pub end_at : ℕ
  pub status : ActivityStatus
  pub created_by : ℕ
  pub updated_by : ℕ
  pub created_at : ℕ
  pub updated_at : ℕ
  pub deleted_at : Option ℕ

pub record ActivityItem : Type 0 where
  pub id : ℕ
  pub activity_id : ℕ
  pub product_id : ℕ
  pub sku_code : Text
  pub snapshot_name : Text
  pub snapshot_main_image : Text
  pub origin_price_cent : ℕ
  pub seckill_price_cent : ℕ
  pub reserved_stock_total : ℕ
  pub available_stock : ℕ
  pub sold_stock : ℕ
  pub user_limit_mode : UserLimitMode
  pub user_limit_window_sec : ℕ
  pub user_limit_qty : ℕ
  pub max_qty_per_order : ℕ
  pub status : ItemStatus
  pub created_at : ℕ
  pub updated_at : ℕ

-- `OrderLink`, one row of `seckill_order_links`.
pub record OrderLink : Type 0 where
  pub id : ℕ
  pub order_id : ℕ
  pub order_no : Text
  pub user_id : ℕ
  pub activity_id : ℕ
  pub activity_item_id : ℕ
  pub quantity : ℕ
  pub order_status : ℕ
  pub payment_status : ℕ
  pub close_reason : Text
  pub last_synced_at : ℕ
  pub created_at : ℕ
  pub updated_at : ℕ

-- The `event_type` texts of the stock ledger.
pub data LedgerKind : Type 0 where
  purchase_reserve purchase_compensate_release order_close_release : LedgerKind

-- One row of `seckill_stock_ledger`; `delta` is signed.
pub record LedgerRow : Type 0 where
  pub id : ℕ
  pub activity_id : ℕ
  pub activity_item_id : ℕ
  pub order_id : ℕ
  pub kind : LedgerKind
  pub delta : ℤ
  pub remain_after : ℕ
  pub key : Text

pub record SeckillDb : Type 0 where
  pub activities : List Activity
  pub items : List ActivityItem
  pub links : List OrderLink
  pub ledger : List LedgerRow

-- `PurchaseReservation`, the fields that `ReservePurchase` fills.
pub record PurchaseReservation : Type 0 where
  pub activity_id : ℕ
  pub activity_item_id : ℕ
  pub quantity : ℕ
  pub remain_stock : ℕ

-- The repository's errors; `invalid_params` stands for its `fmt.Errorf` guards.
pub data SeckillErr : Type 0 where
  activity_not_found activity_item_not_found activity_state_conflict : SeckillErr
  activity_out_of_stock activity_limit_exceeded idempotency_conflict invalid_params : SeckillErr
  driver : DriverErr → SeckillErr

abbrev pub u32_max : ℕ
u32_max = 2 ^ 32 - 1
