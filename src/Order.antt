-- ===== src/Order.antt =====
-- The order service (apps/order/rpc): its tables, its repository and its handlers.
pub mod Model
pub mod Updates
pub mod Repository
pub mod Service
