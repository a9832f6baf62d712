-- ===== src/Witness.antt =====
-- Concrete runs of the components, at which the theorems apply.
mod Stock
mod Orders
mod Service
mod Purchases
mod Forms
mod Seckill
mod Errors
mod Cache
mod Catalog
mod Buying
mod Redelivery
mod Reviews
