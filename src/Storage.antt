-- ===== src/Storage.antt =====
-- src/storage/
pub mod TokenStore
