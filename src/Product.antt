-- ===== src/Product.antt =====
-- The product service (apps/product/rpc): its tables, its repository and its stock operations.
pub mod Model
pub mod Repository
pub mod Catalog
pub mod Service
