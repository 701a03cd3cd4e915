-- ===== src/Account/Compact.antt =====
-- Compaction and reopening of internal/account/runtime.go over the file log: `openProjection`, `Compact`.
-- The log of the runtime is a file whose appends either reach stable storage or write nothing, as a list of outcomes
-- says; where the list is empty they succeed. Beside it stands the history, the records that appends returned.
pub mod Reopen
use vulos_mail.Common.{
  ℕ, ◌+◌, ◌%◌, ◌^◌, String, List, [], ◌∷◌, Bool, true, false, Option, none, some, ◌++◌,
  if◌then◌else◌, ◌>>=◌,
}
use vulos_mail.Event.{Event}
use vulos_mail.EventLog.{Record, Log}
use vulos_mail.EventLog.File
use vulos_mail.EventLog.File.{
  File, SnapWire, SaveOutcome, synced, unwritten, open_file, load_snapshot, save_snapshot, file_log,
}
use vulos_mail.Projection
use vulos_mail.Projection.{apply_all}
use vulos_mail.Projection.Snapshot.{Snapshot, snapshot, restore}
use vulos_mail.Threading.{seed}
use vulos_mail.Account.{Services, Runtime, Op, rebuild, thread_seed, step}

unfoldable pub next_ok : List Bool → Bool
next_ok [] = true
next_ok (ok ∷ oks) = ok

unfoldable pub other_oks : List Bool → List Bool
other_oks [] = []
other_oks (ok ∷ oks) = oks

-- the log file, the outcomes to come, and the history
abbrev pub Logged : Type 0
Logged = File Snapshot × List Bool × List Record

unfoldable pub append_by : Logged → ℕ → String → Event → Option Record × Logged
append_by d now actor e =
    let (res, f') = File.append (if next_ok d.1 then synced else unwritten) d.0 now actor e in
    (res, (f', other_oks d.1, elim res [ none ↦ d.2 | some r ↦ d.2 ++ r ∷ [] ]))

abbrev pub disk_log : Log
disk_log = record {
  State = Logged;
  append = append_by;
  read_from = λ d seq. File.read_from d.0 seq;
  len = λ d. File.len d.0;
}

-- `openProjection`; the second argument is `LoadSnapshot`, where the log has it
unfoldable pub open_projection_of :
    (l : Log)
    → Option (l.State → Option (Option (SnapWire Snapshot)))
    → l.State
    → Option Projection.Account
open_projection_of l snaps log =
    let full = rebuild l log in
    elim snaps [
      | none ↦ full
      | some load ↦ elim (load log) [
        | none ↦ full
        | some found ↦ elim found [
          | none ↦ full
          | some w ↦ elim (l.read_from log ((w.seq + 1) % 2 ^ 64)) [
            | none ↦ none
            | some recs ↦ some (apply_all (restore w.content) recs)
          ]
        ]
      ]
    ]

abbrev pub open_projection : File Snapshot → Option Projection.Account
open_projection f = open_projection_of (file_log Snapshot) (some load_snapshot) f

-- what a restart has of the disk: `OpenFile`, then `openProjection`
unfoldable pub reopen : File Snapshot → Option (File Snapshot × Projection.Account)
reopen f = do f' ← open_file f.disk; a ← open_projection f'; some (f', a)

-- a call of the runtime, or a compaction that comes as far as its outcome says
pub data Call : Type 0 where
  called : ℕ → Op → Call
  compacted : SaveOutcome → Call

module _ (s : Services) where
  -- `Compact`
  unfoldable pub compact : SaveOutcome → Runtime disk_log s → Bool × Runtime disk_log s
  compact outcome rt =
      let (done, f') = save_snapshot outcome rt.proj.seq (snapshot rt.proj) rt.log.0 in
      (done, record rt { log = (f', rt.log.1, rt.log.2) })

  unfoldable pub call : Call → Runtime disk_log s → Runtime disk_log s
  unfolding compact
  call (called now op) rt = step disk_log s now op rt
  call (compacted outcome) rt = (compact outcome rt).1

  unfoldable pub run_calls : List Call → Runtime disk_log s → Runtime disk_log s
  unfolding call
  run_calls [] rt = rt
  run_calls (c ∷ cs) rt = run_calls cs (call c rt)

-- `Open`, with the snapshot of a log that has one
unfoldable pub open_account :
    (l : Log) (s : Services)
    → Option (l.State → Option (Option (SnapWire Snapshot)))
    → l.State
    → s.Store
    → s.Gen
    → Option (Runtime l s)
unfolding open_projection_of thread_seed seed
open_account l s snaps log store gen = elim (open_projection_of l snaps log) [
  | none ↦ none
  | some proj ↦ some (record {
    log = log;
    store = store;
    ids = gen;
    threader = seed (thread_seed proj.messages) [];
    proj = proj;
    notified = [];
  })
]
