-- ===== src/Filtering/Litestar.antt =====
-- modules/filtering/litestar_integration.py: how a query model is bound to a request, and how its
-- fields are documented as parameters of the routes. Litestar, pydantic and `json.dumps` are not code
-- of this repository.
pub mod Annotations
pub mod Structured
pub mod OpenApi
pub mod Documented
pub mod Parameters
pub mod Excluded
pub mod Injected
pub mod Bound
pub mod Sources
mod Tests
