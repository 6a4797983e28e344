-- ===== src/Core.antt =====
-- app/core: the data that every other part of the program speaks about.
pub mod Value
pub mod Query
pub mod Results
pub mod Placement
pub mod Texts
pub mod Aggregates
