-- ===== src/Providers.antt =====
-- app/providers: the data sources, and the query language executed in Python.
pub mod Local
pub mod Base
pub mod Memory
pub mod Shim
pub mod Union
pub mod Sequence
pub mod Stamp
pub mod Audit
pub mod Composite
