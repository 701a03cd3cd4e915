-- ===== src/EventLog/File.antt =====
-- `File` of internal/eventlog/eventlog.go: the durable JSONL log with its snapshot. The disk holds
-- the lines of the log and the snapshot; what the system calls do is an argument of each operation.
-- Only the last line can be without its end of line, and what is written after it joins it. A log whose handle
-- could not be reopened is one whose later writes have the outcome `unwritten`. `D` is the data of a
-- snapshot. The number of a record is a uint64.
pub mod Recovery
pub mod Faults
use vulos_mail.Common.{
  ℕ, ◌+◌, ◌%◌, ◌^◌, ◌≡◌, String, List, [], ◌∷◌, ◌++◌, Bool, true, false, Option, none, some, leb,
  ltb, keep, if◌then◌else◌, ◌>>=◌,
}
use vulos_mail.Event.{Event}
use vulos_mail.Event.Utf8.{to_valid}
use vulos_mail.Event.Codec.{Json, num, time, str, obj, end, field, encode, decode, year_10000}
use vulos_mail.Event.Size.{json_size}
use vulos_mail.EventLog.{Record, Log, seq_ge}

pub record WireRecord : Type 0 where
  pub seq : ℕ
  pub time : ℕ
  pub actor : String
  pub event : Json

unfoldable pub to_wire : Record → Option WireRecord
to_wire r = do
  j ← encode r.event
  some (record { seq = r.seq; time = r.time; actor = r.actor; event = j })

-- `toWire` and `json.Marshal`, which refuses a time that cannot be written
unfoldable pub line_of : Record → Option WireRecord
unfolding to_wire
line_of r = do w ← to_wire r; if ltb w.time year_10000 then some w else none

-- the text is read as JSON reads it
unfoldable pub from_wire : WireRecord → Option Record
from_wire w = do
  e ← decode w.event
  some (record { seq = w.seq; time = w.time; actor = to_valid w.actor; event = e })

-- the bytes of a line, without its end
unfoldable pub line_size : WireRecord → ℕ
line_size w = json_size (
    obj (
      field "seq" (num w.seq)
        (field "time" (time w.time) (field "actor" (str w.actor) (field "event" w.event end)))))

-- the longest line that the scanner reads has one byte less
abbrev pub buffer_size : ℕ
buffer_size = 16777216

-- a line of a record, one that lacks its end only, the beginning of one, and one that is made of two writes
pub data Line : Type 0 where
  entry unended : WireRecord → Line
  torn garbled : Line

pub record SnapWire (D : Type 0) : Type 0 where
  pub seq : ℕ
  pub content : D

-- the file of the snapshot
pub data SnapFile (D : Type 0) : Type 0 where
  absent unreadable : SnapFile D
  readable : SnapWire D → SnapFile D

pub record Disk (D : Type 0) : Type 0 where
  pub lines : List Line
  pub snap : SnapFile D

-- an open log: the disk and the last number
pub record File (D : Type 0) : Type 0 where
  pub disk : Disk D
  pub seq : ℕ

-- how the write of a line ends: on stable storage, with no byte written, cut short, with all but the end of the
-- line, or written with a failed fsync
pub data WriteOutcome : Type 0 where
  synced unwritten cut_short without_end unsynced : WriteOutcome

-- how far a compaction comes: not to the new snapshot, not to the new log, not to a new handle, or to its end
pub data SaveOutcome : Type 0 where
  snap_failed log_failed reopen_failed saved : SaveOutcome

-- what a write makes of a line that lacks its end
unfoldable pub joined : Line → Line
joined (entry w) = garbled
joined _ = torn

unfoldable pub write_line : List Line → Line → List Line
unfolding joined
write_line [] l = l ∷ []
write_line (torn ∷ []) l = joined l ∷ []
write_line (unended w ∷ []) l = joined l ∷ []
write_line (x ∷ ls) l = x ∷ write_line ls l

unfoldable pub read_line : WireRecord → Option Record
unfolding line_size from_wire
read_line w = if ltb (line_size w) buffer_size then from_wire w else none

unfoldable pub read_all : List Line → Option (List Record)
unfolding read_line
read_all [] = some []
read_all (torn ∷ ls) = none
read_all (garbled ∷ ls) = none
read_all (entry w ∷ ls) =
    let rest = read_all ls in
    elim (read_line w) [
      | none ↦ none
      | some r ↦ elim rest [ none ↦ none | some rs ↦ some (r ∷ rs) ]
    ]
read_all (unended w ∷ ls) =
    let rest = read_all ls in
    elim (read_line w) [
      | none ↦ none
      | some r ↦ elim rest [ none ↦ none | some rs ↦ some (r ∷ rs) ]
    ]

unfoldable pub last_seq : ℕ → List Record → ℕ
last_seq n [] = n
last_seq n (r ∷ rs) = last_seq r.seq rs

-- the `through` of the snapshot, 0 if there is none that can be read
abbrev pub through : {D : Type 0} → Disk D → ℕ
through d = elim d.snap [ absent ↦ 0 | unreadable ↦ 0 | readable s ↦ s.seq ]

-- the lines of the compacted log
unfoldable pub tail_lines : ℕ → List Record → Option (List Line)
unfolding line_of
tail_lines n [] = some []
tail_lines n (r ∷ rs) =
    let rest = tail_lines n rs in
    if leb r.seq n then rest else elim (line_of r) [
      | none ↦ none
      | some w ↦ elim rest [ none ↦ none | some ls ↦ some (entry w ∷ ls) ]
    ]

module _ {D : Type 0} where
  -- `OpenFile`; an error of the snapshot is ignored
  unfoldable pub open_file : Disk D → Option (File D)
  unfolding last_seq
  open_file d = do
    recs ← read_all d.lines
    let seq = last_seq 0 recs
    some (record { disk = d; seq = if ltb seq (through d) then through d else seq })

  -- the record that an append makes
  abbrev pub next_record : File D → ℕ → String → Event → Record
  next_record f now actor e = record {
    seq = (f.seq + 1) % 2 ^ 64;
    time = now;
    actor = actor;
    event = e;
  }

  unfoldable pub with_line : File D → Line → File D
  unfolding write_line
  with_line f l = record f { disk = record (f.disk) { lines = write_line f.disk.lines l } }

  unfoldable pub append : WriteOutcome → File D → ℕ → String → Event → Option Record × File D
  unfolding with_line line_of
  append outcome f now actor e =
      let r = next_record f now actor e in
      elim (line_of r) [
        | none ↦ (none, f)
        | some w ↦ elim outcome [
          | synced ↦ (some r, record (with_line f (entry w)) { seq = r.seq })
          | unwritten ↦ (none, f)
          | cut_short ↦ (none, with_line f torn)
          | without_end ↦ (none, with_line f (unended w))
          | unsynced ↦ (none, with_line f (entry w))
        ]
      ]

  unfoldable pub read_from : File D → ℕ → Option (List Record)
  read_from f seq = do recs ← read_all f.disk.lines; some (keep (seq_ge seq) recs)

  unfoldable pub len : File D → ℕ
  len f = f.seq

  -- `none` for an error, `some none` for no snapshot
  unfoldable pub load_snapshot : File D → Option (Option (SnapWire D))
  load_snapshot f = elim (f.disk.snap) [
    | absent ↦ some none
    | unreadable ↦ none
    | readable s ↦ some (some s)
  ]

  compacted : ℕ → Disk D → Bool × Disk D
  unfolding tail_lines
  compacted n d = elim (read_all d.lines) [
    | none ↦ (false, d)
    | some recs ↦ elim (tail_lines n recs) [
      | none ↦ (false, d)
      | some ls ↦ (true, record d { lines = ls })
    ]
  ]

  -- The snapshot is in place before the log is rewritten. Neither file is synced, so that both are on stable
  -- storage only if the power stays on.
  unfoldable pub save_snapshot : SaveOutcome → ℕ → D → File D → Bool × File D
  unfolding compacted
  save_snapshot outcome n content f =
      let d : Disk D = record (f.disk) {
        snap = readable (record { seq = n; content = content });
      } in
      let (done, d') = compacted n d in
      elim outcome [
        | snap_failed ↦ (false, f)
        | log_failed ↦ (false, record f { disk = d })
        | reopen_failed ↦ (false, record f { disk = d' })
        | saved ↦ (done, record f { disk = d' })
      ]

-- the log of a disk that does not fail
abbrev pub file_log : Type 0 → Log
file_log D = record { State = File D; append = append synced; read_from = read_from; len = len }
