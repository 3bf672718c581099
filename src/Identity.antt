-- ===== src/Identity.antt =====
-- services/ordering/internal/identity: accounts, sessions, OAuth, cashiers and registration.
pub mod Domain
pub mod Tables
pub mod Transaction
pub mod Sessions
pub mod OAuth
pub mod Accounts
pub mod Cashiers
pub mod Registration
pub mod CashierRegistration
pub mod Ended
pub mod Reach
pub mod Service
