-- ===== src/EventLog/Mem.antt =====
-- `Mem` of internal/eventlog/eventlog.go, the in-memory log. Its length is a Go int, so that the
-- next number does not wrap.
use vulos_mail.Common.{ℕ, ◌+◌, refl, String, List, [], ◌∷◌, ◌++◌, Option, some, arith, length, keep}
use vulos_mail.Event.{Event}
use vulos_mail.EventLog.{Record, Log, IsLawful, seq_ge}

pub record Mem : Type 0 where
  pub recs : List Record

abbrev pub empty : Mem
empty = record { recs = [] }

unfoldable pub append : Mem → ℕ → String → Event → Option Record × Mem
append m now actor e =
    let r : Record = record { seq = length m.recs + 1; time = now; actor = actor; event = e } in
    (some r, record { recs = m.recs ++ r ∷ [] })

unfoldable pub read_from : Mem → ℕ → Option (List Record)
read_from m seq = some (keep (seq_ge seq) m.recs)

unfoldable pub len : Mem → ℕ
len m = length m.recs

abbrev pub mem_log : Log
mem_log = record { State = Mem; append = append; read_from = read_from; len = len }

-- The in-memory log meets the contract of a log.
pub mem_log-IsLawful : IsLawful mem_log
unfolding append read_from len
mem_log-IsLawful = record {
  records = λ m. m.recs;
  read = λ m seq. refl;
  appended = λ s now actor e r h. ground arith;
  refused = λ s now actor e h. ground arith;
  counted = λ s. refl;
}
