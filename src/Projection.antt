-- ===== src/Projection.antt =====
-- internal/projection: the fold of an account's log into messages, labels and threads.
mod Threads
pub mod Invariant
pub mod Ingest
pub mod Expunge
pub mod Fold
pub mod Indexed
pub mod Snapshot
use vulos_mail.Common.{
  ℕ, zero, ◌≡◌, String, List, [], ◌∷◌, ◌++◌, Bool, true, false, not, ◌&&◌, ◌||◌, Option, none, some,
  ◌==◌, eqb, leb, if◌then◌else◌, keep,
}
use vulos_mail.Common.Map.{Map, is_some, lookup, insert, erase, map_values, filter_values}
use vulos_mail.Model.{
  MessageId, LabelId, Flag, Envelope, Message, Label, Thread, system_labels, label_trash,
  label_spam,
}
use vulos_mail.Event.{
  Event, MessageIngested, message_ingested, labeled, unlabeled, flag_set, label_created,
  label_renamed, label_deleted, message_expunged, thread_merged,
}
use vulos_mail.EventLog.{Record}

pub record Account : Type 0 where
  pub seq : ℕ
  pub messages : Map Message
  pub labels : Map Label
  pub threads : Map Thread
  pub order : List MessageId
  pub by_message_id : Map MessageId

seed_labels : List Label → Map Label → Map Label
seed_labels [] m = m
seed_labels (l ∷ ls) m = seed_labels ls (insert l.id l m)

unfoldable pub new : Account
unfolding seed_labels
new = record {
  seq = 0;
  messages = [];
  labels = seed_labels system_labels [];
  threads = [];
  order = [];
  by_message_id = [];
}

-- `none` is the pair ("", false)
unfoldable pub message_id_exists : Account → String → Option MessageId
message_id_exists a mid = if mid == "" then none else lookup mid a.by_message_id

-- the loops that fill the label and flag sets of a new message
unfoldable pub set_all : List String → Map Bool → Map Bool
set_all [] m = m
set_all (l ∷ ls) m = set_all ls (insert l true m)

unfoldable pub new_message : MessageIngested → Message
unfolding set_all
new_message e = record {
  id = e.message_id;
  blob_ref = e.blob_ref;
  envelope = e.envelope;
  size = e.size;
  thread_id = e.thread_id;
  labels = set_all e.initial_labels [];
  flags = set_all e.initial_flags [];
}

add_to_thread : MessageId → MessageId → Option Thread → Thread
add_to_thread tid msg none = record { id = tid; message_ids = msg ∷ [] }
add_to_thread tid msg (some t) = record t { message_ids = t.message_ids ++ msg ∷ [] }

unfoldable pub attach_to_thread : MessageId → MessageId → Map Thread → Map Thread
unfolding add_to_thread
attach_to_thread tid msg threads =
    if tid == "" then threads else insert tid (add_to_thread tid msg (lookup tid threads)) threads

-- the first message with a header keeps the entry
unfoldable pub index_header : String → MessageId → Map MessageId → Map MessageId
index_header mid msg index =
    if mid == "" then index else if is_some (lookup mid index) then index else insert mid msg index

unfoldable pub ingest : MessageIngested → Account → Account
unfolding new_message attach_to_thread index_header
ingest e a = if is_some (lookup e.message_id a.messages) then a else record a {
  messages = insert e.message_id (new_message e) a.messages;
  threads = attach_to_thread e.thread_id e.message_id a.threads;
  order = a.order ++ e.message_id ∷ [];
  by_message_id = index_header e.envelope.message_id_header e.message_id a.by_message_id;
}

-- `if m := a.Messages[id]; m != nil` and a write through the pointer
unfoldable pub on_message : MessageId → (Message → Message) → Map Message → Map Message
on_message id f ms = elim (lookup id ms) [ none ↦ ms | some m ↦ insert id (f m) ms ]

unfoldable pub add_label : LabelId → Message → Message
add_label l m = record m { labels = insert l true m.labels }

unfoldable pub drop_label : LabelId → Message → Message
drop_label l m = record m { labels = erase l m.labels }

unfoldable pub put_flag : Flag → Bool → Message → Message
put_flag f value m =
    if value
    then record m { flags = insert f true m.flags }
    else record m { flags = erase f m.flags }

unfoldable pub create_label : LabelId → Label → Map Label → Map Label
create_label id l ls = if is_some (lookup id ls) then ls else insert id l ls

unfoldable pub rename_label : LabelId → String → Map Label → Map Label
rename_label id name ls = elim (lookup id ls) [
  | none ↦ ls
  | some l ↦ insert id (record l { name = name }) ls
]

unfoldable pub remove_id : List MessageId → MessageId → List MessageId
remove_id ids id = keep (λ x. not (x == id)) ids

-- an emptied thread is deleted
unfoldable pub without_message : MessageId → Thread → Option Thread
without_message msg t = elim (remove_id t.message_ids msg) [
  | [] ↦ none
  | x ∷ xs ↦ some (record t { message_ids = x ∷ xs })
]

unfoldable pub detach_from_threads : MessageId → Map Thread → Map Thread
detach_from_threads msg = filter_values (without_message msg)

unfoldable pub remove_from_order : MessageId → List MessageId → List MessageId
remove_from_order id [] = []
remove_from_order id (x ∷ xs) =
    let rest = remove_from_order id xs in if x == id then xs else x ∷ rest

-- the entry of the header goes only if it names the message
unfoldable pub unindex_header : String → MessageId → Map MessageId → Map MessageId
unindex_header mid msg index = if mid == "" then index else elim (lookup mid index) [
  | none ↦ index
  | some id ↦ if id == msg then erase mid index else index
]

unfoldable pub expunge : MessageId → Account → Account
unfolding unindex_header remove_from_order detach_from_threads
expunge msg a = elim (lookup msg a.messages) [
  | none ↦ a
  | some m ↦ record a {
    messages = erase msg a.messages;
    threads = detach_from_threads msg a.threads;
    order = remove_from_order msg a.order;
    by_message_id = unindex_header m.envelope.message_id_header msg a.by_message_id;
  }
]

unfoldable pub move_to_thread : MessageId → Message → Message
move_to_thread tid m = record m { thread_id = tid }

-- the loop over `src.MessageIDs`, its part on the messages
unfoldable pub move_all : MessageId → List MessageId → Map Message → Map Message
move_all into [] ms = ms
move_all into (mid ∷ mids) ms = move_all into mids (on_message mid (move_to_thread into) ms)

thread_or_new : MessageId → Option Thread → Thread
thread_or_new tid none = record { id = tid; message_ids = [] }
thread_or_new tid (some t) = t

unfoldable pub join_threads : MessageId → MessageId → Thread → Map Thread → Map Thread
unfolding thread_or_new
join_threads into from src threads =
    let dst = thread_or_new into (lookup into threads) in
    erase from
      (insert into (record dst { message_ids = dst.message_ids ++ src.message_ids }) threads)

unfoldable pub merge_threads : MessageId → MessageId → Account → Account
unfolding move_all thread_or_new join_threads
merge_threads into from a =
    if (into == from || into == "") || from == "" then a else elim (lookup from a.threads) [
      | none ↦ a
      | some src ↦ record a {
        messages = move_all into src.message_ids a.messages;
        threads = join_threads into from src a.threads;
      }
    ]

-- the switch of `Apply`
unfoldable pub fold_event : Event → Account → Account
unfolding ingest on_message add_label drop_label put_flag create_label rename_label expunge
    merge_threads
fold_event (message_ingested e) a = ingest e a
fold_event (labeled msg l) a = record a { messages = on_message msg (add_label l) a.messages }
fold_event (unlabeled msg l) a = record a { messages = on_message msg (drop_label l) a.messages }
fold_event (flag_set msg f v) a = record a { messages = on_message msg (put_flag f v) a.messages }
fold_event (label_created l name kind) a = record a {
  labels = create_label l (record { id = l; name = name; kind = kind }) a.labels;
}
fold_event (label_renamed l name) a = record a { labels = rename_label l name a.labels }
fold_event (label_deleted l) a = record a {
  labels = erase l a.labels;
  messages = map_values (drop_label l) a.messages;
}
fold_event (message_expunged msg) a = expunge msg a
fold_event (thread_merged into from) a = merge_threads into from a

-- a record that is already folded is skipped
unfoldable pub apply : Account → Record → Account
apply a r =
    if not (eqb r.seq 0) && leb r.seq a.seq
    then a
    else record (fold_event r.event a) { seq = r.seq }

unfoldable pub apply_all : Account → List Record → Account
apply_all a [] = a
apply_all a (r ∷ rs) = apply_all (apply a r) rs

-- the queries
abbrev pub has : String → Map Bool → Bool
has k m = elim (lookup k m) [ none ↦ false | some b ↦ b ]

unfoldable pub with_label : LabelId → Map Message → List MessageId → List Message
with_label l ms [] = []
with_label l ms (id ∷ ids) =
    let rest = with_label l ms ids in
    elim (lookup id ms) [ none ↦ rest | some m ↦ if has l m.labels then m ∷ rest else rest ]

unfoldable pub messages_with_label : Account → LabelId → List Message
unfolding with_label
messages_with_label a l = with_label l a.messages a.order

unfoldable pub all_mail_from : Map Message → List MessageId → List Message
all_mail_from ms [] = []
all_mail_from ms (id ∷ ids) =
    let rest = all_mail_from ms ids in
    elim (lookup id ms) [
      | none ↦ rest
      | some m ↦ if has label_trash m.labels || has label_spam m.labels then rest else m ∷ rest
    ]

unfoldable pub all_mail : Account → List Message
unfolding all_mail_from
all_mail a = all_mail_from a.messages a.order
