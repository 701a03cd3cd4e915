-- ===== src/EventLog/File/Recovery.antt =====
-- Opening, appending and compacting the file log of internal/eventlog/eventlog.go.
use vulos_mail.Common.{
  ℕ, ◌+◌, ◌%◌, ◌^◌, ◌≤◌, ◌<◌, ◌≡◌, refl, sym, ap, ◌∙◌, String, List, [], ◌∷◌, ◌++◌, Bool, true,
  false, not, leb→le, leb_false→lt, lt→leb_false, none, some, leb, ltb, keep, if◌then◌else◌, ◌>>=◌,
  arith, length, length-append, Bool-cases, Option-cases, inl, inr, subst, All,
}
use vulos_mail.Event.{Event}
use vulos_mail.Event.Utf8.{to_valid}
use vulos_mail.Event.Codec.{Json, encode, decode, is_dated, valid_event, year_10000, decode-encode}
use vulos_mail.EventLog.{Record}
use vulos_mail.Projection.Fold.{Numbered, Numbered-snoc}
use vulos_mail.EventLog.File.{
  WireRecord, to_wire, line_of, from_wire, line_size, buffer_size, read_line, Line, entry, unended,
  torn, garbled, Disk, readable, File, synced, unwritten, SaveOutcome, snap_failed, log_failed,
  reopen_failed, saved, write_line, read_all, last_seq, through, next_record, with_line, open_file,
  append, tail_lines, compacted, save_snapshot,
}

-- a record with its texts as JSON reads them
abbrev pub valid_record : Record → Record
valid_record r = record r { actor = to_valid r.actor; event = valid_event r.event }

-- The record can be written, its texts are UTF-8, and its line is short enough to be read.
pub record IsPlain (r : Record) : Type 0 where
  pub wire : WireRecord
  pub written : line_of r ≡ some wire
  pub valid : valid_record r ≡ r
  pub short : ltb (line_size wire) buffer_size ≡ true

encode-late : (e : Event) → is_dated e ≡ false → encode e ≡ none
unfolding encode
encode-late e late = rw late refl

event_read : (e : Event) (j : Json) → encode e ≡ some j → decode j ≡ some (valid_event e)
event_read e j h = elim (Bool-cases (is_dated e)) [
  | inl dated ↦
      let read : (do k ← encode e; decode k) ≡ some (valid_event e) =
        decode-encode e ∙ rw dated refl in
      rw h at read
  | inr late ↦ absurd (ground (arith, encode-late e late, h))
]

from_wire-line_of :
    (r : Record) (w : WireRecord) → line_of r ≡ some w → from_wire w ≡ some (valid_record r)
unfolding line_of to_wire from_wire
from_wire-line_of r w h = elim (Option-cases (encode r.event)) [
  | inl failed ↦ absurd (ground (arith, h, failed))
  | inr (j, ok) ↦ elim (Bool-cases (ltb r.time year_10000)) [
    | inl timed ↦
        let w' : WireRecord = record { seq = r.seq; time = r.time; actor = r.actor; event = j } in
        let same : some w' ≡ some w = ground (arith, h, ok, timed) in
        let one : w' ≡ w = cc in rw (sym one) (rw (event_read r.event j ok) refl)
    | inr late ↦ absurd (ground (arith, h, ok, late))
  ]
]

read_line-plain : (r : Record) (p : IsPlain r) → read_line p.wire ≡ some r
unfolding read_line
read_line-plain r p =
    rw (read_line, p.short) (from_wire-line_of r p.wire p.written ∙ ap some p.valid)

-- no line lacks its end only
unfoldable pub ends : List Line → Bool
ends [] = true
ends (unended w ∷ ls) = false
ends (x ∷ ls) = ends ls

read_all-cons :
    (w : WireRecord) (ls : List Line) (r : Record) (rs : List Record)
    → read_line w ≡ some r
    → read_all ls ≡ some rs
    → read_all (entry w ∷ ls) ≡ some (r ∷ rs)
unfolding read_all
read_all-cons w ls r rs e h = ground (arith, e, h)

read_all_inv :
    (w : WireRecord) (ls : List Line) (rs : List Record)
    → read_all (entry w ∷ ls) ≡ some rs
    → (r : Record) × (rest : List Record) × (read_line w ≡ some r)
      × (read_all ls ≡ some rest)
      × (rs ≡ r ∷ rest)
unfolding read_all
read_all_inv w ls rs h = elim (Option-cases (read_line w)) [
  | inl bad ↦ absurd (ground (arith, h, bad))
  | inr (r, e) ↦ elim (Option-cases (read_all ls)) [
    | inl bad ↦ absurd (ground (arith, h, e, bad))
    | inr (rest, g) ↦ (r, rest, e, g, ground (arith, h, e, g))
  ]
]

nothing : (rs : List Record) → read_all [] ≡ some rs → [] ≡ rs
unfolding read_all
nothing rs h = cc

pub read_all-write_line :
    (ls : List Line) (r : Record) (rs : List Record) (p : IsPlain r)
    → ends ls ≡ true
    → read_all ls ≡ some rs
    → (read_all (write_line ls (entry p.wire)) ≡ some (rs ++ r ∷ []))
      × (ends (write_line ls (entry p.wire)) ≡ true)
unfolding write_line ends
read_all-write_line [] r rs p u h = (
  read_all-cons p.wire [] r [] (read_line-plain r p) (unfold read_all in refl)
      ∙ ap (λ (xs : List Record). some (xs ++ r ∷ [])) (nothing rs h),
  refl,
)
read_all-write_line (torn ∷ ls) r rs p u h = absurd (unfold read_all in cc h)
read_all-write_line (garbled ∷ ls) r rs p u h = absurd (unfold read_all in cc h)
read_all-write_line (unended w ∷ ls) r rs p u h = absurd (cc u)
read_all-write_line (entry w ∷ ls) r rs p u h =
    let (x, rest, e, g, s) = read_all_inv w ls rs h in
    let ih = read_all-write_line ls r rest p u g in
    (
      read_all-cons w (write_line ls (entry p.wire)) x (rest ++ r ∷ []) e ih.0
          ∙ ap (λ (xs : List Record). some (xs ++ r ∷ [])) (sym s),
      ih.1,
    )

-- what a compaction writes of plain records reads as those after the number
read_all-tail_lines :
    (n : ℕ) (rs : List Record)
    → All IsPlain rs
    → (ls : List Line) × (tail_lines n rs ≡ some ls)
      × (read_all ls ≡ some (keep (λ r. not (leb r.seq n)) rs))
      × (ends ls ≡ true)
      × All IsPlain (keep (λ r. not (leb r.seq n)) rs)
unfolding tail_lines keep ends
read_all-tail_lines n [] p = ([], refl, unfold read_all in refl, refl, tt)
read_all-tail_lines n (r ∷ rs) (p, ps) =
    let (ls, out, reads, ended, plain) = read_all-tail_lines n rs ps in
    elim (Bool-cases (leb r.seq n)) [
      | inl old ↦ rw old (ls, out, reads, ended, plain)
      | inr new ↦ rw new (
        entry p.wire ∷ ls,
        rw (p.written, out) refl,
        read_all-cons p.wire ls r _ (read_line-plain r p) reads,
        ended,
        (p, plain),
      )
    ]

-- the lines that `rs` reads from, `rs` being numbered from `base + 1`
pub record IsStored {D : Type 0} (f : File D) (base : ℕ) (rs : List Record) : Type 0 where
  pub reads : read_all f.disk.lines ≡ some rs
  pub ended : ends f.disk.lines ≡ true
  pub plain : All IsPlain rs
  pub numbered : Numbered base rs
  pub last : f.seq ≡ base + length rs
  pub snapped : base ≤ through f.disk
  pub covered : through f.disk ≤ f.seq

pub last_seq-Numbered : (n : ℕ) (rs : List Record) → Numbered n rs → last_seq n rs ≡ n + length rs
unfolding last_seq
last_seq-Numbered n [] h = omega arith
last_seq-Numbered n (r ∷ rs) h = rw h.0 (last_seq-Numbered (n + 1) rs h.1 ∙ omega arith)

last_seq_zero :
    (n : ℕ) (rs : List Record) → Numbered n rs → 0 < length rs → last_seq 0 rs ≡ n + length rs
unfolding last_seq
last_seq_zero n [] h p = absurd (omega arith)
last_seq_zero n (r ∷ rs) h p = rw h.0 (last_seq-Numbered (n + 1) rs h.1 ∙ omega arith)

keep_all :
    (m n : ℕ) (rs : List Record) → Numbered m rs → n ≤ m → keep (λ r. not (leb r.seq n)) rs ≡ rs
unfolding keep
keep_all m n [] h le = refl
keep_all m n (r ∷ rs) h le =
    rw (keep_all (m + 1) n rs h.1 (omega arith), lt→leb_false r.seq n (omega arith)) refl

-- what a compaction through `n` keeps: the numbers after `n`
pub Numbered-tail :
    (base n : ℕ) (rs : List Record)
    → Numbered base rs
    → base ≤ n
    → n ≤ base + length rs
    → Numbered n (keep (λ r. not (leb r.seq n)) rs)
      × (n + length (keep (λ r. not (leb r.seq n)) rs) ≡ base + length rs)
unfolding keep
Numbered-tail base n [] h le hi = (tt, omega arith)
Numbered-tail base n (r ∷ rs) h le hi = elim (Bool-cases (leb r.seq n)) [
  | inl old ↦
      let ih =
        Numbered-tail (base + 1) n rs h.1 (omega (arith, leb→le r.seq n old)) (omega arith) in
      rw old (ih.0, omega (arith, ih.1))
  | inr new ↦
      let at_base : n ≡ base = omega (arith, leb_false→lt r.seq n new) in
      rw (new, keep_all (base + 1) n rs h.1 (omega arith))
        ((omega arith, subst (λ (k : ℕ). Numbered (k + 1) rs) (sym at_base) h.1), omega arith)
]

open_seq :
    (t base seq : ℕ) (rs : List Record)
    → Numbered base rs
    → seq ≡ base + length rs
    → base ≤ t
    → t ≤ seq
    → (if ltb (last_seq 0 rs) t then t else last_seq 0 rs) ≡ seq
open_seq t base seq [] n e lo hi = unfold last_seq in ground arith
open_seq t base seq (r ∷ rs) n e lo hi =
    rw (last_seq_zero base (r ∷ rs) n (omega arith)) (ground arith)

-- the number up to which the log has no records
abbrev pub base_after : SaveOutcome → ℕ → ℕ → ℕ
base_after saved base n = n
base_after reopen_failed base n = n
base_after _ base n = base

All-snoc-IsPlain :
    (rs : List Record) (r : Record) → All IsPlain rs → IsPlain r → All IsPlain (rs ++ r ∷ [])
All-snoc-IsPlain [] r ps p = (p, tt)
All-snoc-IsPlain (x ∷ rs) r ps p = (ps.0, All-snoc-IsPlain rs r ps.1 p)

module _ {D : Type 0} where
  -- Opening the disk of a stored log gives the log back, its last number included.
  pub open-disk :
      (f : File D) (base : ℕ) (rs : List Record) → IsStored f base rs → open_file f.disk ≡ some f
  unfolding open_file
  open-disk f base rs s =
      rw (s.reads, open_file)
        (ap (λ (n : ℕ). some (let g : File D = record { disk = f.disk; seq = n } in g))
          (open_seq (through f.disk) base f.seq rs s.numbered s.last s.snapped s.covered))

  -- the log after an append that reached stable storage
  abbrev pub with_next : (f : File D) → WireRecord → File D
  with_next f w = record (with_line f (entry w)) { seq = (f.seq + 1) % 2 ^ 64 }

  pub append_synced-plain :
      (f : File D) (now : ℕ) (actor : String) (e : Event) (p : IsPlain (next_record f now actor e))
      → append synced f now actor e ≡ (some (next_record f now actor e), with_next f p.wire)
  unfolding append
  append_synced-plain f now actor e p = rw (append, p.written) refl

  pub with_next-IsStored :
      (f : File D) (base : ℕ) (rs : List Record) (now : ℕ) (actor : String) (e : Event)
      (p : IsPlain (next_record f now actor e))
      → IsStored f base rs
      → f.seq + 1 < 2 ^ 64
      → IsStored (with_next f p.wire) base (rs ++ next_record f now actor e ∷ [])
  unfolding with_line
  with_next-IsStored f base rs now actor e p s room =
      let r = next_record f now actor e in
      let written = read_all-write_line f.disk.lines r rs p s.ended s.reads in
      record {
        reads = written.0;
        ended = written.1;
        plain = All-snoc-IsPlain rs r s.plain p;
        numbered = Numbered-snoc base rs r s.numbered (omega (arith, s.last));
        last = omega (arith, s.last, length-append {0} rs (r ∷ []));
        snapped = s.snapped;
        covered = omega (arith, s.covered);
      }

  -- On a stored log whose next number fits a uint64, an append that reaches stable storage, of a record that can be
  -- written, whose texts are UTF-8 and whose line is below 16 MiB, is acknowledged with the next number and the
  -- event, and the log is stored with that record at its end.
  pub append_synced :
      (f : File D) (base : ℕ) (rs : List Record) (now : ℕ) (actor : String) (e : Event)
      → IsStored f base rs
      → f.seq + 1 < 2 ^ 64
      → IsPlain (next_record f now actor e)
      → (r : Record) × ((append synced f now actor e).0 ≡ some r)
        × (r.seq ≡ f.seq + 1)
        × (r.event ≡ e)
        × IsStored (append synced f now actor e).1 base (rs ++ r ∷ [])
  append_synced f base rs now actor e s room p = rw (append_synced-plain f now actor e p) (
    next_record f now actor e,
    refl,
    omega arith,
    refl,
    with_next-IsStored f base rs now actor e p s room,
  )

  -- an append that writes nothing
  pub append_unwritten :
      (f : File D) (now : ℕ) (actor : String) (e : Event)
      → append unwritten f now actor e ≡ (none, f)
  unfolding append
  append_unwritten f now actor e = elim (Option-cases (line_of (next_record f now actor e))) [
    | inl failed ↦ rw (append, failed) refl
    | inr (w, written) ↦ rw (append, written) refl
  ]

  compacted-snap : (n : ℕ) (d : Disk D) → (compacted n d).1.snap ≡ d.snap
  unfolding compacted
  compacted-snap n d = elim (Option-cases (read_all d.lines)) [
    | inl bad ↦ rw (compacted, bad) refl
    | inr (rs, e) ↦ elim (Option-cases (tail_lines n rs)) [
      | inl bad ↦ rw (compacted, e, bad) refl
      | inr (ls, g) ↦ rw (compacted, e, g) refl
    ]
  ]

  -- the snapshot after a compaction that came to the new log
  pub snap-save_snapshot :
      (n : ℕ) (content : D) (f : File D)
      → ((save_snapshot saved n content f).1.disk.snap
          ≡ readable (record { seq = n; content = content }))
        × ((save_snapshot reopen_failed n content f).1.disk.snap
            ≡ readable (record { seq = n; content = content }))
  unfolding save_snapshot
  snap-save_snapshot n content f =
      let d : Disk D = record (f.disk) {
        snap = readable (record { seq = n; content = content });
      } in
      (compacted-snap n d, compacted-snap n d)

  compacted-IsStored :
      (f : File D) (base n : ℕ) (rs : List Record) (content : D)
      → IsStored f base rs
      → through f.disk ≤ n
      → n ≤ f.seq
      → IsStored (save_snapshot saved n content f).1 n (keep (λ r. not (leb r.seq n)) rs)
  unfolding save_snapshot
  compacted-IsStored f base n rs content s lo hi =
      let tail =
        Numbered-tail base n rs s.numbered (omega (arith, s.snapped)) (omega (arith, s.last)) in
      let (ls, out, reads, ended, plain) = read_all-tail_lines n rs s.plain in
      rw (s.reads, compacted)
        (rw out (record {
          reads = reads;
          ended = ended;
          plain = plain;
          numbered = tail.0;
          last = omega (arith, s.last, tail.1);
          snapped = omega arith;
          covered = hi;
        }))

  -- A compaction through a number that the snapshot and the log allow keeps the log stored, whichever of
  -- its calls fails, while the power stays on. If it comes to the new log this holds the records after that
  -- number, and otherwise all of them.
  pub save-IsStored :
      (f : File D) (base n : ℕ) (rs : List Record) (content : D) (outcome : SaveOutcome)
      → IsStored f base rs
      → through f.disk ≤ n
      → n ≤ f.seq
      → IsStored
          (save_snapshot outcome n content f).1
          (base_after outcome base n)
          (keep (λ r. not (leb r.seq (base_after outcome base n))) rs)
  unfolding save_snapshot
  save-IsStored f base n rs content snap_failed s lo hi =
      rw (keep_all base base rs s.numbered (omega arith)) s
  save-IsStored f base n rs content log_failed s lo hi =
      rw (keep_all base base rs s.numbered (omega arith)) (record {
        reads = s.reads;
        ended = s.ended;
        plain = s.plain;
        numbered = s.numbered;
        last = s.last;
        snapped = omega (arith, s.snapped);
        covered = hi;
      })
  save-IsStored f base n rs content reopen_failed s lo hi =
      let k = compacted-IsStored f base n rs content s lo hi in
      record {
        reads = k.reads;
        ended = k.ended;
        plain = k.plain;
        numbered = k.numbered;
        last = k.last;
        snapped = k.snapped;
        covered = k.covered;
      }
  save-IsStored f base n rs content saved s lo hi = compacted-IsStored f base n rs content s lo hi

  -- the records of the compacted log
  pub save-read_all :
      (f : File D) (base n : ℕ) (rs : List Record) (content : D)
      → IsStored f base rs
      → read_all (save_snapshot saved n content f).1.disk.lines
        ≡ some (keep (λ r. not (leb r.seq n)) rs)
  unfolding save_snapshot
  save-read_all f base n rs content s =
      let (ls, out, reads, ended, plain) = read_all-tail_lines n rs s.plain in
      rw (s.reads, compacted) (rw out reads)
