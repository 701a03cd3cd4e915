-- ===== src/Server.antt =====
-- internal/server: the host of the accounts.
pub mod Gc
pub mod Limits
pub mod Vacation
pub mod Delivery
pub mod Sending
