-- ===== src/Seckill.antt =====
-- The seckill service (apps/seckill/rpc): activities, their items, and the purchase of an item.
pub mod Model
pub mod Rules
pub mod Repository
pub mod Cache
pub mod Purchase
pub mod Consumers
