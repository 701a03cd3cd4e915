-- ===== src/EventLog/File/Faults.antt =====
-- Failed writes of the file log of internal/eventlog/eventlog.go, and what the code leaves to chance.
use vulos_mail.Common.{
  ℕ, ◌+◌, ◌^◌, ◌≤◌, ◌<◌, ◌≡◌, refl, ap, ◌∙◌, String, List, [], ◌∷◌, ◌++◌, not, true, false, none,
  some, leb, ltb, keep, length, arith, Option-cases, inl, inr,
}
use vulos_mail.Event.{Event}
use vulos_mail.EventLog.{Record}
use vulos_mail.Projection
use vulos_mail.Projection.{apply, apply_all}
use vulos_mail.Projection.Fold.{seq-apply, apply_old}
use vulos_mail.EventLog.File.{
  WireRecord, line_of, line_size, buffer_size, read_line, Line, entry, unended, torn, garbled, Disk,
  unreadable, File, synced, unsynced, saved, write_line, read_all, next_record, with_line,
  open_file, append, save_snapshot, last_seq,
}
use vulos_mail.EventLog.File.Recovery.{
  IsStored, IsPlain, ends, read_all-write_line, append_synced-plain, save-read_all, Numbered-tail,
}

skipped :
    (a : Projection.Account) (r r' : Record)
    → r.seq ≡ a.seq + 1
    → r'.seq ≡ r.seq
    → apply_all a (r ∷ r' ∷ []) ≡ apply a r
unfolding apply_all
skipped a r r' next same =
    apply_old (apply a r) r' (omega arith) (omega (arith, seq-apply a r next))

-- a line that is too long to be read
too_long-read_all :
    (ls : List Line) (w : WireRecord) (rs : List Record)
    → ltb (line_size w) buffer_size ≡ false
    → read_all ls ≡ some rs
    → ends ls ≡ true
    → read_all (write_line ls (entry w)) ≡ none
unfolding read_all write_line ends read_line
too_long-read_all [] w rs long h u = rw (read_all, read_line, long) refl
too_long-read_all (torn ∷ ls) w rs long h u = absurd (cc h)
too_long-read_all (garbled ∷ ls) w rs long h u = absurd (cc h)
too_long-read_all (unended x ∷ ls) w rs long h u = absurd (cc u)
too_long-read_all (entry x ∷ ls) w rs long h u = elim (Option-cases (read_line x)) [
  | inl bad ↦ ground (arith, bad)
  | inr (r, e) ↦ elim (Option-cases (read_all ls)) [
    | inl bad ↦ absurd (ground (arith, h, e, bad))
    | inr (rest, g) ↦ ground (arith, e, too_long-read_all ls w rest long g u)
  ]
]

nil_of_length : (rs : List Record) → length rs ≡ 0 → rs ≡ []
nil_of_length [] h = refl
nil_of_length (r ∷ rs) h = absurd (omega arith)

-- the disk after a loss of power that the snapshot, which was not synced, did not survive
unfoldable pub lose_snapshot : {D : Type 0} → Disk D → Disk D
lose_snapshot d = record d { snap = unreadable }

module _ {D : Type 0} where
  -- On a stored log, an append that reaches stable storage, of a record whose line is 16 MiB or longer, is acknowledged
  -- with the event, and then the log cannot be opened.
  pub open-too_long :
      (f : File D) (base : ℕ) (rs : List Record) (now : ℕ) (actor : String) (e : Event)
      (w : WireRecord)
      → IsStored f base rs
      → line_of (next_record f now actor e) ≡ some w
      → buffer_size ≤ line_size w
      → ((append synced f now actor e).0 ≡ some (next_record f now actor e))
        × (open_file (append synced f now actor e).1.disk ≡ none)
  unfolding append with_line open_file
  open-too_long f base rs now actor e w s written long =
      rw (append, written)
        (
          refl,
          rw (open_file, too_long-read_all f.disk.lines w rs (ground (arith, long)) s.reads s.ended)
              refl,
        )

  -- A stored log is compacted through its last number. If the power is then lost and with it the snapshot, the
  -- log opens without an error, with no record, and counts from 1 again.
  pub open-lost_snapshot :
      (f : File D) (base : ℕ) (rs : List Record) (content : D)
      → IsStored f base rs
      → let d = lose_snapshot (save_snapshot saved f.seq content f).1.disk in
        (open_file d ≡ some (record { disk = d; seq = 0 })) × (read_all d.lines ≡ some [])
  unfolding lose_snapshot open_file
  open-lost_snapshot f base rs content s =
      let empty : read_all (save_snapshot saved f.seq content f).1.disk.lines ≡ some [] =
        save-read_all f base f.seq rs content s
        ∙ ap some (
            nil_of_length (keep (λ r. not (leb r.seq f.seq)) rs) (
              omega (
                arith,
                s.last,
                (Numbered-tail base f.seq rs s.numbered (omega (arith, s.last))
                    (omega (arith, s.last))).1,
              ))) in
      (rw (empty, open_file) (unfold last_seq in refl), empty)

  append_unsynced-plain :
      (f : File D) (now : ℕ) (actor : String) (e : Event) (p : IsPlain (next_record f now actor e))
      → append unsynced f now actor e ≡ (none, with_line f (entry p.wire))
  unfolding append
  append_unsynced-plain f now actor e p = rw (append, p.written) refl

  -- On a stored log, an append of a plain record whose fsync fails is reported as failed, and leaves its record on
  -- the disk under the number that the next append takes too. Replay applies the refused record and skips
  -- the second, although the second was acknowledged, if it is plain as well.
  pub append-after_unsynced :
      (f : File D) (base : ℕ) (rs : List Record) (a : Projection.Account) (now : ℕ) (actor : String)
      (e : Event) (now' : ℕ) (actor' : String) (e' : Event)
      → IsStored f base rs
      → f.seq + 1 < 2 ^ 64
      → a.seq ≡ f.seq
      → IsPlain (next_record f now actor e)
      → IsPlain (next_record f now' actor' e')
      → let f' = (append unsynced f now actor e).1 in
        ((append unsynced f now actor e).0 ≡ none)
        × ((r r' : Record) × ((append synced f' now' actor' e').0 ≡ some r')
            × (r.event ≡ e)
            × (r'.event ≡ e')
            × (r'.seq ≡ r.seq)
            × (read_all (append synced f' now' actor' e').1.disk.lines
                ≡ some ((rs ++ r ∷ []) ++ r' ∷ []))
            × (apply_all a (r ∷ r' ∷ []) ≡ apply a r))
  unfolding with_line
  append-after_unsynced f base rs a now actor e now' actor' e' s room same p p' =
      let r = next_record f now actor e in
      let r' = next_record f now' actor' e' in
      let first = read_all-write_line f.disk.lines r rs p s.ended s.reads in
      let second =
        read_all-write_line (write_line f.disk.lines (entry p.wire)) r' (rs ++ r ∷ []) p' first.1
          first.0 in
      let f' = with_line f (entry p.wire) in
      let done = append_synced-plain f' now' actor' e' p' in
      rw (append_unsynced-plain f now actor e p) (
        refl,
        (
          r,
          r',
          ap (λ x. x.0) done,
          refl,
          refl,
          refl,
          rw done second.0,
          skipped a r r' (omega (arith, same)) refl,
        ),
      )
