-- ===== src/Guards.antt =====
-- What stands beside the mail path: the scanners of received messages, the limit on sends, the limit on
-- failed logins, the deferred actions.
pub mod Snooze
pub mod Filter
pub mod Abuse
pub mod Authlimit
pub mod Recent
