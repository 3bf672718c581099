-- ===== src/Ordering.antt =====
-- services/ordering/internal/ordering: checkout, the order store, the outbox and its worker.
pub mod Domain
pub mod Store
pub mod Checkout
pub mod Service
pub mod Worker
