-- ===== src/Imap.antt =====
-- adapters/imap: the UID view of an account and the session over it.
pub mod UidView
pub mod Session
