-- ===== src/Identity.antt =====
-- Identity: users, one-time codes, the flows that confirm an address and reset a password, and who a
-- request is served as.
pub mod Data
pub mod Passwords
pub mod Tokens
pub mod Session
pub mod Users
pub mod UserRepository
pub mod UserList
pub mod Auth
pub mod Access
pub mod Registration
pub mod Reset
pub mod Account
pub mod UserDetail
pub mod OtpRepository
pub mod Confirmation
mod Tests
mod AccountTests
mod AccessTests
mod ListTests
