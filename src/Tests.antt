-- ===== src/Tests.antt =====
-- Runs of the model on concrete data.
pub mod Checkout
pub mod OrderStore
pub mod Stock
pub mod Identity
pub mod Catalog
