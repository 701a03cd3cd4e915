-- ===== src/EventLog.antt =====
-- internal/eventlog: the records of the append-only log and the interface of its backends.
-- The clock is an argument of `append`, which may fail; a failed read is `none`.
pub mod Mem
pub mod File
use vulos_mail.Common.{
  ℕ, ◌+◌, ◌≡◌, String, List, [], ◌∷◌, ◌++◌, Bool, Option, none, some, leb, length, keep,
}
use vulos_mail.Event.{Event}

pub record Record : Type 0 where
  pub seq : ℕ
  pub time : ℕ
  pub actor : String
  pub event : Event

-- `Seq >= seq`
abbrev pub seq_ge : ℕ → Record → Bool
seq_ge seq r = leb seq r.seq

-- the interface `Log`
pub record Log : Type 1 where
  pub State : Type 0
  pub append : State → ℕ → String → Event → Option Record × State
  pub read_from : State → ℕ → Option (List Record)
  pub len : State → ℕ

-- What the users of a log rely on: a successful append adds one record with the next number, a
-- failed one adds none, and a read returns the records from a number on.
pub record IsLawful (l : Log) : Type 0 where
  pub records : l.State → List Record
  pub read : (s : l.State) (seq : ℕ) → l.read_from s seq ≡ some (keep (seq_ge seq) (records s))
  pub appended :
      (s : l.State) (now : ℕ) (actor : String) (e : Event) (r : Record)
      → (l.append s now actor e).0 ≡ some r
      → (records (l.append s now actor e).1 ≡ records s ++ r ∷ [])
        × (r.seq ≡ length (records s) + 1)
        × (r.event ≡ e)
  pub refused :
      (s : l.State) (now : ℕ) (actor : String) (e : Event)
      → (l.append s now actor e).0 ≡ none
      → records (l.append s now actor e).1 ≡ records s
  pub counted : (s : l.State) → l.len s ≡ length (records s)
