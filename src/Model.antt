-- ===== src/Model.antt =====
-- internal/model: the protocol-free domain types. Identifiers are texts; a time is a count of
-- nanoseconds; a size is the length of the stored body.
use vulos_mail.Common.{ℕ, String, List, [], ◌∷◌, Bool}
use vulos_mail.Common.Map.{Map}

abbrev pub MessageId : Type 0
MessageId = String

abbrev pub BlobRef : Type 0
BlobRef = String

abbrev pub LabelId : Type 0
LabelId = String

abbrev pub Flag : Type 0
Flag = String

abbrev pub LabelKind : Type 0
LabelKind = String

abbrev pub flag_seen : Flag
flag_seen = "seen"

abbrev pub flag_answered : Flag
flag_answered = "answered"

abbrev pub flag_flagged : Flag
flag_flagged = "flagged"

abbrev pub flag_draft : Flag
flag_draft = "draft"

abbrev pub flag_mdn_sent : Flag
flag_mdn_sent = "mdn-sent"

abbrev pub label_system : LabelKind
label_system = "system"

abbrev pub label_user : LabelKind
label_user = "user"

abbrev pub label_category : LabelKind
label_category = "category"

abbrev pub label_inbox : LabelId
label_inbox = "inbox"

abbrev pub label_trash : LabelId
label_trash = "trash"

abbrev pub label_spam : LabelId
label_spam = "spam"

pub record Envelope : Type 0 where
  pub from_addrs : List String
  pub from_name : String
  pub to_addrs : List String
  pub cc : List String
  pub subject : String
  pub date : ℕ
  pub message_id_header : String
  pub in_reply_to : String
  pub references : List String

pub record Message : Type 0 where
  pub id : MessageId
  pub blob_ref : BlobRef
  pub envelope : Envelope
  pub size : ℕ
  pub thread_id : MessageId
  pub labels : Map Bool
  pub flags : Map Bool

pub record Label : Type 0 where
  pub id : LabelId
  pub name : String
  pub kind : LabelKind

pub record Thread : Type 0 where
  pub id : MessageId
  pub message_ids : List MessageId

abbrev pub system_labels : List Label
system_labels =
    (record { id = label_inbox; name = "Inbox"; kind = label_system })
    ∷ (record { id = "archive"; name = "Archive"; kind = label_system })
    ∷ (record { id = "sent"; name = "Sent"; kind = label_system })
    ∷ (record { id = "drafts"; name = "Drafts"; kind = label_system })
    ∷ (record { id = label_trash; name = "Trash"; kind = label_system })
    ∷ (record { id = label_spam; name = "Spam"; kind = label_system })
    ∷ (record { id = "star"; name = "Starred"; kind = label_system })
    ∷ (record { id = "important"; name = "Important"; kind = label_system })
    ∷ (record { id = "snoozed"; name = "Snoozed"; kind = label_system })
    ∷ []
