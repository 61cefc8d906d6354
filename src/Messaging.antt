-- ===== src/Messaging.antt =====
-- services/messaging_service: its tables, `Database` and `MessagingServiceImpl`.
pub mod Tables
pub mod Database
pub mod Service
pub mod Rooms
pub mod Chat
pub mod Retry
pub mod Integrity
pub mod History
pub mod Delivery
pub mod Streams
pub mod Access
pub mod Reading
