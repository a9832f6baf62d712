-- ===== src/Order/Service.antt =====
-- apps/order/rpc/internal/logic: the handlers of the order service and its jobs.
pub mod World
pub mod Input
pub mod Views
pub mod Steps
pub mod Buyer
pub mod Admin
pub mod Inversion
pub mod Cancellation
pub mod Creation
pub mod Jobs
pub mod Queries
pub mod Seckill
pub mod Consumer
pub mod Delivery
pub mod Timeliness
pub mod Numbers
pub mod History
pub mod Deeds
