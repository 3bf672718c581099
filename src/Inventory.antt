-- ===== src/Inventory.antt =====
-- services/inventory-adapter/internal/inventory: committing the stock of an order, once.
pub mod Domain
pub mod Tables
pub mod Transaction
pub mod Demand
pub mod Store
pub mod Service
