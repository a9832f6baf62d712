-- ===== src/Order/Repository/Audit.antt =====
-- The event log: one event for each write that succeeds, none for one that fails.
use flash_sale.Prelude.{ℕ, true, some, [], ◌∷◌, ◌++◌, ◌≡◌, refl, ap}
use flash_sale.Result.{ok}
use flash_sale.Sql.{Faults, run_tx-eq_ok}
use flash_sale.Order.Model.{Order, OrderEvent, OrderDb}
use flash_sale.Order.Repository.{find_order, stamp, exec_with_event, mark_stock_released, create}
use flash_sale.Order.Repository.Operations.{
  update_of, OrderOp, moves, releases, creates, apply_op, exec_with_event-Moved, Released, flagged,
  already, mark_stock_released-Released, create-Created,
}

abbrev pub event_of : OrderOp → ℕ × OrderEvent
event_of (moves faults clock id t event) = (clock, event)
event_of (releases faults clock id now event) = (clock, event)
event_of (creates faults clock o event) = (clock, event)

-- A write that succeeds has changed nothing, or has appended exactly its event, stamped by the clock
-- where it had no time; only a repeated stock-released mark changes nothing.
pub data Logged (op : OrderOp) (db db' : OrderDb) : Type 0 where
  appended : db'.events ≡ db.events ++ stamp (event_of op).0 (event_of op).1 ∷ [] → Logged op db db'
  repeated :
      (o : Order) {faults : Faults} {clock id now : ℕ} {event : OrderEvent}
      → op ≡ releases faults clock id now event
      → find_order id db ≡ some o
      → o.stock_released ≡ true
      → db' ≡ db
      → Logged op db db'

Released-Logged :
    {faults : Faults} {clock id now : ℕ} {event : OrderEvent} {db db' : OrderDb}
    → Released clock id now event db db'
    → Logged (releases faults clock id now event) db db'
Released-Logged (flagged o f b e) = appended (ap (λ (d : OrderDb). d.events) e)
Released-Logged {faults = faults} {clock = clock} {id = id} {now = now} {event = event}
      (already o f b e) =
    repeated o {faults = faults} {clock = clock} {id = id} {now = now} {event = event} refl f b e

-- Each write that succeeds appends exactly its own event to the log, except a stock-released mark of
-- an order that is marked already, which changes nothing.
pub apply_op-Logged :
    (op : OrderOp) (db : OrderDb) → (apply_op op db).0 ≡ ok tt → Logged op db (apply_op op db).1
unfolding apply_op
apply_op-Logged (moves faults clock id t event) db h =
    appended
      (exec_with_event-Moved faults clock id (update_of t) event db _
        (run_tx-eq_ok (exec_with_event faults clock id (update_of t) event) db h)).events
apply_op-Logged (releases faults clock id now event) db h = Released-Logged (
    mark_stock_released-Released faults clock id now event db _
      (run_tx-eq_ok (mark_stock_released faults clock id now event) db h))
apply_op-Logged (creates faults clock o event) db h =
    appended
      (create-Created faults clock o event db _
        (run_tx-eq_ok (create faults clock o event) db h)).events
