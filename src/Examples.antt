-- ===== src/Examples.antt =====
-- The theorems at concrete inputs, which meet their conditions.
mod Texts
mod Files
mod Sessions
mod Messages
mod Cloud
mod Gateway
mod Environment
