-- ===== src/Storage.antt =====
-- What keeps the bodies of the messages: internal/blob.
pub mod Blob
