-- ===== src/Seckill/Cache.antt =====
-- apps/seckill/rpc/internal/logic/purchase_cache.go: the Redis scripts of a purchase, as functions
-- of the values under the keys that a call names. Redis runs a script without interruption. Numbers
-- under the keys are never negative, as every writer of them writes one that is not; an expiry is
-- the second from which the key is gone. The scripts' `tonumber(…) or …` defaults stand for an
-- argument that Go never leaves out.
pub mod Limits
pub mod Undo
use flash_sale.Prelude.{
  ℕ, ℤ, positive, ◌+◌, ◌-◌, Bool, true, false, not, ◌&&◌, Option, none, some, List, [], ◌∷◌, ltb,
  leb, if◌then◌else◌, length, select,
}
use flash_sale.Errorx.{Code, seckill_out_of_stock, seckill_limit_exceeded, sys_bad_request}
use flash_sale.Seckill.Model.{UserLimitMode, no_limit, window_completed}

-- The values under the keys of one user's request for one item: the item's stock, the units that
-- the user has bought in the activity, the times of the units completed, and the expiries of the
-- request's key, of its release token and of an order's closing mark.
pub record Slot : Type 0 where
  pub stock : Option ℕ
  pub bought : Option ℕ
  pub completed : List ℕ
  pub request : Option ℕ
  pub release_token : Option ℕ
  pub close_mark : Option ℕ

-- `cacheReserve…Code`
pub data ReserveCode : Type 0 where
  success duplicate out_of_stock limit_exceeded invalid_request stock_key_not_ready : ReserveCode

abbrev pub Reply : Type 0
Reply = ReserveCode × ℕ × ℕ

-- `EXISTS`, of a key with an expiry.
abbrev pub live : ℕ → Option ℕ → Bool
live clock none = false
live clock (some expiry) = ltb clock expiry

-- `tonumber(GET … or "0")`
abbrev pub count_of : Option ℕ → ℕ
count_of none = 0
count_of (some n) = n

-- `ZREMRANGEBYSCORE … -inf now - window`: what stays has a time above the difference.
abbrev pub in_window : ℕ → ℕ → List ℕ → List ℕ
in_window now_ts window_sec = select (λ t. ltb now_ts (t + window_sec))

abbrev commit_reserve : ℕ → ℕ → ℕ → Slot → Reply × Slot
commit_reserve clock q stock slot = (
  (success, stock - q, 0),
  record slot {
    stock = some (stock - q);
    request = some (clock + 60);
    release_token = some (clock + 604800);
  },
)

abbrev limit_by_mode : ℕ → ℕ → UserLimitMode → ℕ → ℕ → ℕ → ℕ → Slot → Reply × Slot
limit_by_mode clock q no_limit limit window_sec now_ts stock slot =
    if ltb limit (count_of slot.bought + q)
    then ((limit_exceeded, stock, count_of slot.bought), slot)
    else commit_reserve clock q stock (record slot { bought = some (count_of slot.bought + q) })
limit_by_mode clock q window_completed limit window_sec now_ts stock slot =
    let kept = record slot { completed = in_window now_ts window_sec slot.completed } in
    if ltb limit (length kept.completed + q)
    then ((limit_exceeded, stock, length kept.completed), kept)
    else commit_reserve clock q stock kept

abbrev take_from : ℕ → ℕ → UserLimitMode → ℕ → ℕ → ℕ → Option ℕ → Slot → Reply × Slot
take_from clock q mode limit window_sec now_ts none slot = ((stock_key_not_ready, 0, 0), slot)
take_from clock q mode limit window_sec now_ts (some stock) slot =
    if ltb stock q
    then ((out_of_stock, stock, 0), slot)
    else if ltb 0 limit
    then limit_by_mode clock q mode limit window_sec now_ts stock slot
    else commit_reserve clock q stock slot

abbrev reserve_units : ℕ → Option ℕ → ℕ → UserLimitMode → ℕ → ℕ → ℕ → Slot → Reply × Slot
reserve_units clock none max_qty mode limit window_sec now_ts slot = ((invalid_request, 0, 0), slot)
reserve_units clock (some q) max_qty mode limit window_sec now_ts slot =
    if ltb 0 max_qty && ltb max_qty q
    then ((limit_exceeded, 0, 0), slot)
    else if live clock slot.request
    then ((duplicate, 0, 0), slot)
    else take_from clock q mode limit window_sec now_ts slot.stock slot

-- `reservePurchaseScript`, at the server's time `clock`.
unfoldable pub reserve_purchase_script : ℕ → ℤ → ℕ → UserLimitMode → ℕ → ℕ → ℕ → Slot → Reply × Slot
reserve_purchase_script clock quantity max_qty mode limit window_sec now_ts slot =
    reserve_units clock (positive quantity) max_qty mode limit window_sec now_ts slot

-- Under a limit by count, the units go off the user's number, down to 0.
abbrev uncount : ℕ → UserLimitMode → Option ℕ → Option ℕ
uncount q no_limit bought = some (count_of bought - q)
uncount q window_completed bought = bought

abbrev give_to_cache : ℕ → UserLimitMode → Slot → Slot
give_to_cache q mode slot = record slot {
  stock = some (count_of slot.stock + q);
  bought = uncount q mode slot.bought;
}

abbrev rollback_units : ℕ → Option ℕ → UserLimitMode → Slot → ℕ × Slot
rollback_units clock none mode slot = (0, slot)
rollback_units clock (some q) mode slot =
    if not (live clock slot.request)
    then (0, slot)
    else (1, give_to_cache q mode (record slot { request = none }))

-- `rollbackReserveScript`
unfoldable pub rollback_reserve_script : ℕ → ℤ → UserLimitMode → Slot → ℕ × Slot
rollback_reserve_script clock quantity mode slot =
    rollback_units clock (positive quantity) mode slot

abbrev release_units : ℕ → Option ℕ → UserLimitMode → ℕ → Slot → ℕ × Slot
release_units clock none mode ttl slot = (0, slot)
release_units clock (some q) mode ttl slot =
    if live clock slot.close_mark
    then (0, slot)
    else (1, give_to_cache q mode (record slot { close_mark = some (clock + ttl) }))

-- `releaseByCloseScript`
unfoldable pub release_by_close_script : ℕ → ℤ → UserLimitMode → ℕ → Slot → ℕ × Slot
release_by_close_script clock quantity mode ttl slot =
    release_units clock (positive quantity) mode ttl slot

-- What `reservePurchaseInCache` makes of a code: whether the cache has decided, and the error.
unfoldable pub cache_decision : ReserveCode → Bool × Option Code
cache_decision success = (true, none)
cache_decision duplicate = (false, none)
cache_decision out_of_stock = (true, some seckill_out_of_stock)
cache_decision limit_exceeded = (true, some seckill_limit_exceeded)
cache_decision invalid_request = (true, some sys_bad_request)
cache_decision stock_key_not_ready = (false, none)
