-- ===== src/Imap/UidView.antt =====
-- adapters/imap/uidview.go: the fold of an account's log into a UID space for each mailbox. A UID
-- is a uint32, so that the next UID wraps at 2 ^ 32.
pub mod Mailboxes
pub mod Views
pub mod Reuse
pub mod Compaction
use vulos_mail.Common.{
  ℕ, ◌+◌, ◌%◌, ◌^◌, String, List, [], ◌∷◌, ◌++◌, Bool, true, false, Option, none, some, ◌==◌,
  if◌then◌else◌, length,
}
use vulos_mail.Common.Map.{Map, is_some, lookup, insert, erase, map_values}
use vulos_mail.Model.{MessageId, LabelId}
use vulos_mail.Event.{
  Event, MessageIngested, message_ingested, labeled, unlabeled, flag_set, label_created,
  label_renamed, label_deleted, message_expunged, thread_merged,
}
use vulos_mail.EventLog.{Record, Log}

abbrev pub default_uid_validity : ℕ
default_uid_validity = 1

pub record Entry : Type 0 where
  pub uid : ℕ
  pub msg : MessageId

pub record Mailbox : Type 0 where
  pub validity : ℕ
  pub uid_next : ℕ
  pub by_msg : Map ℕ
  pub order : List Entry

abbrev pub new_mailbox : Mailbox
new_mailbox = record { validity = default_uid_validity; uid_next = 1; by_msg = []; order = [] }

unfoldable pub assign : MessageId → Mailbox → Mailbox
assign msg mb = if is_some (lookup msg mb.by_msg) then mb else record mb {
  uid_next = (mb.uid_next + 1) % 2 ^ 32;
  by_msg = insert msg mb.uid_next mb.by_msg;
  order = mb.order ++ (record { uid = mb.uid_next; msg = msg }) ∷ [];
}

-- the loop that stops at the first slot of the message
unfoldable pub remove_entry : MessageId → List Entry → List Entry
remove_entry msg [] = []
remove_entry msg (e ∷ es) = let rest = remove_entry msg es in if e.msg == msg then es else e ∷ rest

unfoldable pub retire : MessageId → Mailbox → Mailbox
retire msg mb =
    if is_some (lookup msg mb.by_msg)
    then record mb { by_msg = erase msg mb.by_msg; order = remove_entry msg mb.order }
    else mb

pub record View : Type 0 where
  pub seq : ℕ
  pub mailboxes : Map Mailbox

unfoldable pub new_view : View
new_view = record { seq = 0; mailboxes = [] }

-- `mbox`: a label that is not known yet gets an empty mailbox
unfoldable pub mbox : LabelId → Map Mailbox → Mailbox
mbox label mbs = elim (lookup label mbs) [ none ↦ new_mailbox | some mb ↦ mb ]

unfoldable pub assign_in : MessageId → LabelId → Map Mailbox → Map Mailbox
unfolding assign mbox
assign_in msg label mbs = insert label (assign msg (mbox label mbs)) mbs

unfoldable pub assign_all : MessageId → List LabelId → Map Mailbox → Map Mailbox
assign_all msg [] mbs = mbs
assign_all msg (l ∷ ls) mbs = assign_all msg ls (assign_in msg l mbs)

unfoldable pub retire_in : MessageId → LabelId → Map Mailbox → Map Mailbox
unfolding retire
retire_in msg label mbs = elim (lookup label mbs) [
  | none ↦ mbs
  | some mb ↦ insert label (retire msg mb) mbs
]

unfoldable pub fold_event : Event → Map Mailbox → Map Mailbox
unfolding assign_all assign_in retire_in retire
fold_event (message_ingested e) mbs = assign_all e.message_id e.initial_labels mbs
fold_event (labeled msg l) mbs = assign_in msg l mbs
fold_event (unlabeled msg l) mbs = retire_in msg l mbs
fold_event (flag_set msg f v) mbs = mbs
fold_event (label_created l name kind) mbs = mbs
fold_event (label_renamed l name) mbs = mbs
fold_event (label_deleted l) mbs = erase l mbs
fold_event (message_expunged msg) mbs = map_values (retire msg) mbs
fold_event (thread_merged into from) mbs = mbs

unfoldable pub apply : View → Record → View
unfolding fold_event
apply v r = record { seq = r.seq; mailboxes = fold_event r.event v.mailboxes }

unfoldable pub apply_all : View → List Record → View
apply_all v [] = v
apply_all v (r ∷ rs) = apply_all (apply v r) rs

unfoldable pub view_from : List Record → View
unfolding apply_all new_view
view_from recs = apply_all new_view recs

unfoldable pub rebuild_view : (l : Log) → l.State → Option View
unfolding view_from
rebuild_view l log = elim (l.read_from log 1) [ none ↦ none | some recs ↦ some (view_from recs) ]

-- the queries
unfoldable pub uid_validity : View → LabelId → ℕ
uid_validity v label = elim (lookup label v.mailboxes) [
  | none ↦ default_uid_validity
  | some mb ↦ mb.validity
]

unfoldable pub uid_next : View → LabelId → ℕ
uid_next v label = elim (lookup label v.mailboxes) [ none ↦ 1 | some mb ↦ mb.uid_next ]

unfoldable pub count : View → LabelId → ℕ
count v label = elim (lookup label v.mailboxes) [ none ↦ 0 | some mb ↦ length mb.order ]

unfoldable pub entries : View → LabelId → List Entry
entries v label = elim (lookup label v.mailboxes) [ none ↦ [] | some mb ↦ mb.order ]

unfoldable pub uid_of : View → LabelId → MessageId → Option ℕ
uid_of v label msg = elim (lookup label v.mailboxes) [
  | none ↦ none
  | some mb ↦ lookup msg mb.by_msg
]
