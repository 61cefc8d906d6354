-- ===== src/Messaging/History.antt =====
-- What `getHistory` returns: order, bound, and the message that was inserted last.
pub mod Order
pub mod Ensured
pub mod Insert
