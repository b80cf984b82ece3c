-- ===== src/Http.antt =====
-- The answers of src/app/api/http: what a request that ends in an exception is told.
pub mod Errors
pub mod Handler
mod Tests
