-- ===== src/Seckill/Consumers/Compensation.antt =====
-- apps/seckill/rpc/internal/logic/stock_compensate_consumer.go: units of the cache given back for a
-- purchase whose order was not made. The script is called with the release token's key in the place
-- of the request's.
use flash_sale.Prelude.{ℕ, ℤ, positive, Option, none, some, ◌∷◌, ◌++◌, if◌then◌else◌}
use flash_sale.Text.{text, trim_space, is_blank}
use flash_sale.Result.{ok, err}
use flash_sale.Sql.{DriverErr}
use flash_sale.Order.Service.World.{StockCompensateEvent}
use flash_sale.Seckill.Model.{UserLimitMode, ActivityItem, activity_item_not_found, driver}
use flash_sale.Seckill.Rules.{find_item, of_activity}
use flash_sale.Seckill.Cache.{Slot, rollback_reserve_script}
use flash_sale.Seckill.Purchase.World.{answered, unreached, unanswered}
use flash_sale.Seckill.Consumers.{
  Stall, Delivery, Consume, purchase_failed, undecodable, invalid_payload, redis_error,
  of_repository,
}

-- The script with the token's key for the request's.
unfoldable pub rollback_by_token : ℕ → ℤ → UserLimitMode → Slot → Slot
unfolding rollback_reserve_script
rollback_by_token clock quantity mode slot =
    let undone =
      (rollback_reserve_script clock quantity mode
        (record slot { request = slot.release_token })).1 in
    record undone { request = slot.request; release_token = undone.request }

abbrev compensated : StockCompensateEvent → Stall → Stall
compensated e stall = record stall {
  traffic = (purchase_failed, trim_space e.order_no ++ text ":compensate") ∷ stall.traffic;
}

-- Without a client of Redis the code's call fails.
abbrev with_item : Delivery → StockCompensateEvent → ActivityItem → Consume
with_item d e i stall =
    let undone = record stall {
      slot = rollback_by_token d.clock e.quantity i.user_limit_mode stall.slot;
    } in
    elim d.redis [
      | answered ↦ (ok tt, compensated e undone)
      | unreached ↦ (err redis_error, stall)
      | unanswered ↦ (err redis_error, undone)
    ]

abbrev looked_up :
    Delivery → StockCompensateEvent → Option DriverErr → Option ActivityItem → Consume
looked_up d e (some x) i stall = (err (of_repository (driver x)), stall)
looked_up d e none none stall = (err (of_repository activity_item_not_found), stall)
looked_up d e none (some i) stall = with_item d e i stall

abbrev checked :
    Delivery → StockCompensateEvent → Option ℕ → Option ℕ → Option ℕ → Option ℕ → Consume
checked d e (some a) (some i) (some u) (some q) stall =
    if is_blank e.idempotency_key
    then (err invalid_payload, stall)
    else looked_up d e d.item_fault (of_activity a (find_item i stall.db)) stall
checked d e _ _ _ _ stall = (err invalid_payload, stall)

-- `consumeStockCompensateMessage`
unfoldable pub consume_stock_compensate : Delivery → Option StockCompensateEvent → Consume
unfolding rollback_by_token
consume_stock_compensate d none stall = (err undecodable, stall)
consume_stock_compensate d (some e) stall =
    checked d e (positive e.activity_id) (positive e.activity_item_id) (positive e.user_id)
      (positive e.quantity) stall
