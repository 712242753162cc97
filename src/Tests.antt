-- ===== src/Tests.antt =====
-- The theorems at concrete inputs, and runs of the definitions.
pub mod Paths
pub mod Headers
pub mod Tokens
pub mod Stores
pub mod Templates
pub mod Forms
pub mod Logins
pub mod Launches
pub mod Quotes
pub mod Errors
