-- ===== src/Resources.antt =====
-- app/resources: who may do what to which rows.
pub mod Policy
pub mod Rbac
