-- ===== src/Ordering/Store.antt =====
-- services/ordering/internal/ordering/adapters/postgres/store.go.
pub mod Tables
pub mod Transaction
pub mod Load
pub mod Place
pub mod Fulfil
pub mod Outbox
pub mod WellFormed
pub mod Reach
