-- ===== src/Tests.antt =====
-- The theorems at concrete inputs.
mod Accounts
mod Logs
mod Views
mod Outbound
mod Checks
mod Mailboxes
mod Bodies
mod Hosts
