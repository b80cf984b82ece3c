-- ===== src/Filtering.antt =====
-- modules/filtering: the declaration of the filters of a list route, their validation, and their
-- translation into conditions on the rows of a table.
pub mod Values
pub mod Specs
pub mod Factories
pub mod Validator
pub mod Parser
pub mod Meta
pub mod Compiler
pub mod Wants
pub mod Query
pub mod Litestar
pub mod Tests
