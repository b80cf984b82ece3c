-- ===== src/Kernel.antt =====
-- The shared kernel: what a Python call gives back, the error details, `Result`, texts and dicts.
pub mod Errors
pub mod Outcomes
pub mod Texts
pub mod Dicts
pub mod Result
mod Tests
