-- ===== src/Catalog.antt =====
-- services/ordering/internal/catalog: the products that customers see, and their synchronisation.
pub mod Domain
pub mod Store
pub mod Service
