-- ===== src/Gateway.antt =====
-- gateway_service/src/main.cpp: HTTP routes in front of the authentication and messaging services.
pub mod Types
pub mod Http
pub mod Users
pub mod Cascade
pub mod Joined
pub mod Accounting
pub mod Accounts
pub mod Conversations
pub mod Rooms
pub mod Routes
pub mod Guard
pub mod Revoked
pub mod Limits
pub mod Answers
pub mod Access
pub mod Listing
pub mod Delivery
pub mod Logout
pub mod Service
pub mod Outsider
pub mod Barred
pub mod Admin
