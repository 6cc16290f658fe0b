-- ===== src/Categories.antt =====
-- internal/categories: shared lists of domains.
pub mod Hash
pub mod Store
