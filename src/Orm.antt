-- ===== src/Orm.antt =====
-- data_access/orm/base and the orderings of list routes.
pub mod Ordering
pub mod Batches
pub mod Queries
mod Tests
