-- ===== src/Tests.antt =====
-- Concrete runs of the models and, in the modules below, the theorems at concrete inputs.
mod Data
mod Local
mod Memory
mod Shim
mod Jobs
mod Resources
mod Union
mod Web
mod Placement
mod Wrappers
mod Cache
mod Accounts
mod Auth
mod Filters
mod Aggregates
mod Audit
mod Storage
