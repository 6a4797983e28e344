-- ===== src/Storage.antt =====
-- app/storage: files under generated keys.
pub mod Names
pub mod Upload
