-- ===== src/Seckill/Rules.antt =====
-- apps/seckill/rpc/internal/repository/purchase_repo.go: the conditions of a purchase and the units
-- that it moves, as the SQL texts and `classifyReserveMiss` have them.
use flash_sale.Prelude.{
  ℕ, ◌+◌, ◌-◌, ◌*◌, Bool, true, false, not, ◌&&◌, ◌||◌, Option, none, some, List, [], ◌∷◌, ltb, leb,
  nat_beq, is_some, if◌then◌else◌,
}
use flash_sale.Text.{Text, text, text_beq}
use flash_sale.Sql.{find}
use flash_sale.Seckill.Model.{
  UserLimitMode, no_limit, window_completed, is_published, is_enabled, Activity, ActivityItem,
  OrderLink, SeckillDb, SeckillErr, activity_not_found, activity_item_not_found,
  activity_state_conflict, activity_out_of_stock, activity_limit_exceeded,
}

abbrev pub find_activity : ℕ → SeckillDb → Option Activity
find_activity id db = find (λ a. a.id) id db.activities

abbrev pub find_item : ℕ → SeckillDb → Option ActivityItem
find_item id db = find (λ i. i.id) id db.items

-- The item with the id, if it belongs to the activity.
abbrev pub of_activity : ℕ → Option ActivityItem → Option ActivityItem
of_activity activity_id none = none
of_activity activity_id (some i) = if nat_beq i.activity_id activity_id then some i else none

-- An activity in which a purchase may be made at `now`.
abbrev pub open_for_purchase : ℕ → Activity → Bool
open_for_purchase now a =
    not (is_some a.deleted_at) && is_published a.status && leb a.start_at now && leb now a.end_at

abbrev pub item_allows : ℕ → ActivityItem → Bool
item_allows q i = is_enabled i.status && leb q i.available_stock && leb q i.max_qty_per_order

-- The `WHERE` of the reserving update, over the item joined with its activity.
abbrev pub admits : ℕ → ℕ → Option Activity → Option ActivityItem → Bool
admits q now (some a) (some i) = item_allows q i && open_for_purchase now a
admits q now _ _ = false

abbrev pub take_units : ℕ → ActivityItem → ActivityItem
take_units q i = record i { available_stock = i.available_stock - q; sold_stock = i.sold_stock + q }

abbrev pub classify_item : ℕ → Option ActivityItem → SeckillErr
classify_item q none = activity_item_not_found
classify_item q (some i) =
    if not (is_enabled i.status)
    then activity_item_not_found
    else if ltb i.max_qty_per_order q
    then activity_limit_exceeded
    else if ltb i.available_stock q
    then activity_out_of_stock
    else activity_state_conflict

abbrev pub classify_row : ℕ → ℕ → Option Activity → Option ActivityItem → SeckillErr
classify_row q now none item = activity_not_found
classify_row q now (some a) item =
    if is_some a.deleted_at
    then activity_not_found
    else if not (is_published a.status) || ltb now a.start_at || ltb a.end_at now
    then activity_state_conflict
    else classify_item q item

abbrev pub second : ℕ
second = 1000000000

abbrev pub closed_code : ℕ
closed_code = 90

abbrev pub completed : Text
completed = text "completed"

abbrev pub auto_completed : Text
auto_completed = text "auto_completed"

abbrev pub of_user : ℕ → ℕ → OrderLink → Bool
of_user activity_id user_id l = nat_beq l.activity_id activity_id && nat_beq l.user_id user_id

abbrev pub completed_since : ℕ → OrderLink → Bool
completed_since from l =
    nat_beq l.order_status closed_code
    && (text_beq l.close_reason completed || text_beq l.close_reason auto_completed)
    && leb from l.last_synced_at

-- `SELECT COALESCE(SUM(quantity), 0) FROM seckill_order_links WHERE …`
unfoldable pub sum_quantity : (OrderLink → Bool) → List OrderLink → ℕ
sum_quantity p [] = 0
sum_quantity p (l ∷ ls) = (if p l then l.quantity else 0) + sum_quantity p ls

-- The units that the user has bought, as the limit mode of the item counts them.
abbrev pub bought : ℕ → ℕ → ℕ → ActivityItem → List OrderLink → ℕ
bought activity_id user_id now i links = elim i.user_limit_mode [
  | window_completed ↦
      sum_quantity
        (λ l.
          of_user activity_id user_id l
          && completed_since (now - i.user_limit_window_sec * second) l)
        links
  | no_limit ↦ sum_quantity (of_user activity_id user_id) links
]

abbrev pub is_window : UserLimitMode → Bool
is_window window_completed = true
is_window no_limit = false
