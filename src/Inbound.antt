-- ===== src/Inbound.antt =====
-- Mail that comes in: from other servers, with its authentication, and from the clients of the accounts.
pub mod EmailAuth
pub mod Smtp
pub mod Policy
pub mod Submission
