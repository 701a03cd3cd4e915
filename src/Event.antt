-- ===== src/Event.antt =====
-- internal/event: the account mutations, one constructor for each struct.
pub mod Codec
pub mod Utf8
pub mod Size
use vulos_mail.Common.{ℕ, String, List, Bool}
use vulos_mail.Model.{MessageId, BlobRef, LabelId, Flag, LabelKind, Envelope}

pub record MessageIngested : Type 0 where
  pub message_id : MessageId
  pub blob_ref : BlobRef
  pub envelope : Envelope
  pub size : ℕ
  pub thread_id : MessageId
  pub initial_labels : List LabelId
  pub initial_flags : List Flag

pub data Event : Type 0 where
  message_ingested : MessageIngested → Event
  labeled : MessageId → LabelId → Event
  unlabeled : MessageId → LabelId → Event
  flag_set : MessageId → Flag → Bool → Event
  label_created : LabelId → String → LabelKind → Event
  label_renamed : LabelId → String → Event
  label_deleted : LabelId → Event
  message_expunged : MessageId → Event
  -- into, then from
  thread_merged : MessageId → MessageId → Event
