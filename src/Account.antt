-- ===== src/Account.antt =====
-- internal/account/runtime.go: the single-writer runtime of one account, over any log (`l`), blob
-- store (`put`), id generator (`next`) and message parser (`parse`, go-message behind
-- mime.ParseEnvelope). A failed call is `none`. `notified` lists the records handed to `notify`.
pub mod Live
pub mod Dedup
pub mod Reads
pub mod Steps
pub mod Compact
pub mod Labels
use vulos_mail.Common.{
  ℕ, ◌≡◌, String, List, [], ◌∷◌, ◌++◌, Bool, true, false, Option, none, some, length, ◌==◌,
  if◌then◌else◌,
}
use vulos_mail.Common.Map.{Map}
use vulos_mail.Model.{MessageId, BlobRef, LabelId, Flag, LabelKind, Envelope, Message, Label}
use vulos_mail.Event.{
  Event, MessageIngested, message_ingested, labeled, unlabeled, flag_set, label_created,
  label_renamed, label_deleted, message_expunged,
}
use vulos_mail.EventLog.{Record, Log}
use vulos_mail.Projection
use vulos_mail.Projection.{message_id_exists, apply, apply_all}
use vulos_mail.Threading.{seed, resolve}

-- the raw bytes of a message
abbrev pub Raw : Type 0
Raw = List ℕ

-- what the runtime calls and does not implement
pub record Services : Type 1 where
  pub Store : Type 0
  pub Gen : Type 0
  pub parse : Raw → Option Envelope
  pub put : Store → Raw → Option BlobRef × Store
  pub next : Gen → String × Gen

pub record Runtime (l : Log) (s : Services) : Type 0 where
  pub log : l.State
  pub store : s.Store
  pub ids : s.Gen
  pub threader : Map MessageId
  pub proj : Projection.Account
  pub notified : List Record

-- `Rebuild`, where the log can be read
unfoldable pub rebuild : (l : Log) → l.State → Option Projection.Account
rebuild l log = elim (l.read_from log 1) [
  | none ↦ none
  | some recs ↦ some (apply_all Projection.new recs)
]

-- the Message-ID headers of the stored messages with their threads
unfoldable pub thread_seed : Map Message → Map MessageId
thread_seed [] = []
thread_seed ((id, m) ∷ ms) =
    let rest = thread_seed ms in
    if m.envelope.message_id_header == ""
    then rest
    else (m.envelope.message_id_header, m.thread_id) ∷ rest

-- the calls of the runtime that write
pub data Op : Type 0 where
  ingest : Raw → List LabelId → List Flag → Op
  label : MessageId → LabelId → Op
  unlabel : MessageId → LabelId → Op
  set_flag : MessageId → Flag → Bool → Op
  create_label : LabelId → String → LabelKind → Op
  expunge : MessageId → Op
  rename_label : LabelId → String → Op
  delete_label : LabelId → Op

module _ (l : Log) (s : Services) where
  -- `Open` on a log without snapshots
  unfoldable pub open_runtime : l.State → s.Store → s.Gen → Option (Runtime l s)
  open_runtime log store gen = elim (rebuild l log) [
    | none ↦ none
    | some proj ↦ some (record {
      log = log;
      store = store;
      ids = gen;
      threader = seed (thread_seed proj.messages) [];
      proj = proj;
      notified = [];
    })
  ]

  committed : Option Record → l.State → Runtime l s → Bool × Runtime l s
  committed none log' rt = (false, record rt { log = log' })
  committed (some r) log' rt =
      (true, record rt { log = log'; proj = apply rt.proj r; notified = rt.notified ++ r ∷ [] })

  -- the part of `Ingest` and of `appendApply` after the event is made
  unfoldable pub commit : ℕ → String → Event → Runtime l s → Bool × Runtime l s
  unfolding committed
  commit now actor e rt = let (res, log') = l.append rt.log now actor e in committed res log' rt

  -- a message that is not there yet: its thread, its id, its event
  add_message :
      ℕ
      → Raw
      → BlobRef
      → Envelope
      → List LabelId
      → List Flag
      → Runtime l s
      → Option MessageId × Runtime l s
  unfolding commit
  add_message now raw ref env labels flags rt =
      let (tid, threader', gen₁) = resolve s.next env rt.threader rt.ids in
      let (msg, gen₂) = s.next gen₁ in
      let rt₁ : Runtime l s = record rt { threader = threader'; ids = gen₂ } in
      let (done, rt₂) =
        commit now "ingest"
          (message_ingested (record {
            message_id = msg;
            blob_ref = ref;
            envelope = env;
            size = length raw;
            thread_id = tid;
            initial_labels = labels;
            initial_flags = flags;
          }))
          rt₁ in
      (if done then some msg else none, rt₂)

  -- after the body is stored
  deliver :
      ℕ
      → Raw
      → BlobRef
      → Envelope
      → List LabelId
      → List Flag
      → Runtime l s
      → Option MessageId × Runtime l s
  unfolding add_message
  deliver now raw ref env labels flags rt = elim (message_id_exists rt.proj env.message_id_header) [
    | some existing ↦ (some existing, rt)
    | none ↦ add_message now raw ref env labels flags rt
  ]

  unfoldable pub ingest_message :
      ℕ → Raw → List LabelId → List Flag → Runtime l s → Option MessageId × Runtime l s
  unfolding deliver
  ingest_message now raw labels flags rt = elim (s.parse raw) [
    | none ↦ (none, rt)
    | some env ↦
        let (res, store') = s.put rt.store raw in
        let rt' : Runtime l s = record rt { store = store' } in
        elim res [ none ↦ (none, rt') | some ref ↦ deliver now raw ref env labels flags rt' ]
  ]

  unfoldable pub append_apply : ℕ → String → Event → Runtime l s → Bool × Runtime l s
  unfolding commit
  append_apply now actor e rt = commit now actor e rt

  -- one call, at a time of the clock
  unfoldable pub step : ℕ → Op → Runtime l s → Runtime l s
  unfolding ingest_message append_apply
  step now (ingest raw labels flags) rt = (ingest_message now raw labels flags rt).1
  step now (label msg l') rt = (append_apply now "user" (labeled msg l') rt).1
  step now (unlabel msg l') rt = (append_apply now "user" (unlabeled msg l') rt).1
  step now (set_flag msg f v) rt = (append_apply now "user" (flag_set msg f v) rt).1
  step now (create_label l' name kind) rt =
      (append_apply now "user" (label_created l' name kind) rt).1
  step now (expunge msg) rt = (append_apply now "user" (message_expunged msg) rt).1
  step now (rename_label l' name) rt = (append_apply now "user" (label_renamed l' name) rt).1
  step now (delete_label l') rt = (append_apply now "user" (label_deleted l') rt).1

  -- calls in the order in which they take the writer's lock
  unfoldable pub run : List (ℕ × Op) → Runtime l s → Runtime l s
  run [] rt = rt
  run ((now, op) ∷ ops) rt = run ops (step now op rt)
