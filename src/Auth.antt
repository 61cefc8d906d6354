-- ===== src/Auth.antt =====
-- The authentication service, auth_service/.
pub mod Tables
pub mod Database
pub mod Roles
pub mod Service
pub mod Refresh
pub mod Admin
pub mod Guard
pub mod Invariants
pub mod Revocation
pub mod Sessions
pub mod Accounts
pub mod Quiet
pub mod Replace
pub mod Rotation
pub mod Current
pub mod Outsider
