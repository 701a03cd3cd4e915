-- ===== src/Account/Compact/Reopen.antt =====
-- A restart of internal/account/runtime.go after calls and compactions, and the account that it has.
use vulos_mail.Common.{
  ℕ, ◌+◌, ◌%◌, ◌^◌, ◌≤◌, ◌<◌, ◌≡◌, ◌⊎◌, refl, sym, ap, ◌∙◌, subst, String, List, [], ◌∷◌, ◌++◌, not,
  All, none, some, leb, keep, keep-append, length, arith, Option-cases, Bool-cases, inl, inr,
  lt→leb_false,
}
use vulos_mail.Common.Map.Keys.{Once}
use vulos_mail.Event.{Event}
use vulos_mail.EventLog.{Record, seq_ge}
use vulos_mail.EventLog.File
use vulos_mail.EventLog.File.{
  File, SnapWire, SnapFile, absent, unreadable, readable, SaveOutcome, snap_failed, log_failed,
  reopen_failed, saved, synced, unwritten, line_of, next_record, with_line, read_all, through,
  open_file, load_snapshot, save_snapshot,
}
use vulos_mail.EventLog.File.Recovery.{
  IsStored, IsPlain, ends, open-disk, with_next, append_synced-plain, with_next-IsStored,
  append_unwritten, save-IsStored, snap-save_snapshot, base_after,
}
use vulos_mail.Projection
use vulos_mail.Projection.{apply, apply_all}
use vulos_mail.Projection.Invariant.{IsValid, IsValid-new}
use vulos_mail.Projection.Fold.{Numbered, apply-IsValid, apply_all-append, seq-apply}
use vulos_mail.Projection.Indexed.{IsIndexed, IsIndexed-new, IsNew, apply-IsIndexed}
use vulos_mail.Projection.Snapshot.{Snapshot, snapshot, restore, index_of}
use vulos_mail.Projection.Snapshot.Index.{lookup-index_of}
use vulos_mail.Projection.Snapshot.Same.{Same, Same-refl, apply-Same, apply-Once}
use vulos_mail.Account.{Services, Runtime, commit, rebuild}
use vulos_mail.Account.Steps.{step-keeps}
use vulos_mail.Account.Compact.{
  append_by, next_ok, Logged, disk_log, open_projection_of, open_projection, reopen, Call, called,
  compacted, compact, call, run_calls,
}

-- what a restart begins with, and the number of the first record that it reads
first_account : SnapFile Snapshot → Projection.Account
first_account (readable w) = restore w.content
first_account _ = Projection.new

first_seq : SnapFile Snapshot → ℕ
first_seq (readable w) = (w.seq + 1) % 2 ^ 64
first_seq _ = 1

-- the account that a restart has, where the lines read as `rs`
restarted : SnapFile Snapshot → List Record → Projection.Account
unfolding first_account first_seq
restarted snap rs = apply_all (first_account snap) (keep (seq_ge (first_seq snap)) rs)

SnapFile-cases :
    {D : Type 0} (o : SnapFile D)
    → (o ≡ absent) ⊎ ((o ≡ unreadable) ⊎ ((w : SnapWire D) × (o ≡ readable w)))
SnapFile-cases absent = inl refl
SnapFile-cases unreadable = inr (inl refl)
SnapFile-cases (readable w) = inr (inr (w, refl))

open_projection-reads :
    (f : File Snapshot) (rs : List Record)
    → read_all f.disk.lines ≡ some rs
    → open_projection f ≡ some (restarted f.disk.snap rs)
unfolding open_projection_of load_snapshot rebuild restarted File.read_from
open_projection-reads f rs e = elim (SnapFile-cases f.disk.snap) [
  | inl none_yet ↦
      rw (open_projection_of, load_snapshot, restarted, none_yet, rebuild, File.read_from, e) refl
  | inr (inl bad) ↦
      rw (open_projection_of, load_snapshot, restarted, bad, rebuild, File.read_from, e) refl
  | inr (inr (w, snap)) ↦
      rw (open_projection_of, load_snapshot, restarted, snap, File.read_from, e) refl
]

-- no record of a log is numbered past its last number
keep_none :
    (base n : ℕ) (rs : List Record)
    → Numbered base rs
    → base + length rs < n
    → keep (seq_ge n) rs ≡ []
unfolding keep
keep_none base n [] h lt = refl
keep_none base n (r ∷ rs) h lt =
    ground (arith, h.0, keep_none (base + 1) n rs h.1, lt→leb_false n r.seq)

record IsKept (f : File Snapshot) (a : Projection.Account) : Type 0 where
  base : ℕ
  rs : List Record
  stored : IsStored f base rs
  same : Same (restarted f.disk.snap rs) a
  seq : a.seq ≡ f.seq
  valid : IsValid a
  indexed : IsIndexed a
  once : Once a.messages

first_seq_le :
    (o : SnapFile Snapshot) (n : ℕ)
    → (elim o [ absent ↦ 0 | unreadable ↦ 0 | readable w ↦ w.seq ]) ≤ n
    → n + 1 < 2 ^ 64
    → first_seq o ≤ n + 1
unfolding first_seq
first_seq_le absent n h room = omega arith
first_seq_le unreadable n h room = omega arith
first_seq_le (readable w) n h room = omega arith

keep_one : (n : ℕ) (r : Record) → n ≤ r.seq → keep (seq_ge n) (r ∷ []) ≡ r ∷ []
unfolding keep
keep_one n r h = ground arith

restarted-snoc :
    (o : SnapFile Snapshot) (rs : List Record) (r : Record)
    → first_seq o ≤ r.seq
    → restarted o (rs ++ r ∷ []) ≡ apply (restarted o rs) r
unfolding restarted apply_all
restarted-snoc o rs r h =
    ap (apply_all (first_account o)) (
      keep-append (seq_ge (first_seq o)) rs (r ∷ [])
      ∙ ap (λ xs. keep (seq_ge (first_seq o)) rs ++ xs) (keep_one (first_seq o) r h))
    ∙ apply_all-append (first_account o) (keep (seq_ge (first_seq o)) rs) (r ∷ [])

synced-IsKept :
    (f : File Snapshot) (a : Projection.Account) (now : ℕ) (actor : String) (e : Event)
    (p : IsPlain (next_record f now actor e))
    → IsKept f a
    → IsNew a e
    → f.seq + 1 < 2 ^ 64
    → IsKept (with_next f p.wire) (apply a (next_record f now actor e))
unfolding with_line
synced-IsKept f a now actor e p k new room =
    let r = next_record f now actor e in
    let same_r : apply (restarted f.disk.snap k.rs) r ≡ restarted f.disk.snap (k.rs ++ r ∷ []) =
      sym (
        restarted-snoc f.disk.snap k.rs r
          (omega (arith, first_seq_le f.disk.snap f.seq k.stored.covered room))) in
    record {
      base = k.base;
      rs = k.rs ++ r ∷ [];
      stored = with_next-IsStored f k.base k.rs now actor e p k.stored room;
      same =
          subst (λ x. Same x (apply a r)) same_r
            (apply-Same (restarted f.disk.snap k.rs) a r k.same);
      seq = seq-apply a r (omega (arith, k.seq)) ∙ omega (arith, k.seq, room);
      valid = apply-IsValid a r k.valid;
      indexed = apply-IsIndexed a r new k.indexed;
      once = apply-Once a r k.once;
    }

-- a restart from the snapshot of the account itself, with no record to read
Same-snapshot :
    (a : Projection.Account)
    → IsValid a
    → IsIndexed a
    → Once a.messages
    → Same (restore (snapshot a)) a
unfolding restore snapshot
Same-snapshot a v x o = record {
  index = index_of a.messages;
  rest = refl;
  agree = λ h. lookup-index_of a h v x o;
}

snapped-IsKept :
    (f f' : File Snapshot) (a : Projection.Account) (base : ℕ) (rs : List Record)
    → IsKept f a
    → f.seq + 1 < 2 ^ 64
    → IsStored f' base rs
    → f'.seq ≡ f.seq
    → f'.disk.snap ≡ readable (record { seq = a.seq; content = snapshot a })
    → IsKept f' a
unfolding first_account first_seq restarted apply_all
snapped-IsKept f f' a base rs k room stored same_seq snap =
    let from : first_seq f'.disk.snap ≡ f.seq + 1 =
      rw (snap, first_seq) (omega (arith, k.seq, room)) in
    let none_left : keep (seq_ge (first_seq f'.disk.snap)) rs ≡ [] =
      rw from
        (keep_none base (f.seq + 1) rs stored.numbered (omega (arith, stored.last, same_seq))) in
    let begins : restarted f'.disk.snap rs ≡ restore (snapshot a) =
      ap (apply_all (first_account f'.disk.snap)) none_left ∙ ap first_account snap in
    record {
      base = base;
      rs = rs;
      stored = stored;
      same = subst (λ x. Same x a) (sym begins) (Same-snapshot a k.valid k.indexed k.once);
      seq = k.seq ∙ sym same_seq;
      valid = k.valid;
      indexed = k.indexed;
      once = k.once;
    }

saved-IsKept :
    (f : File Snapshot) (a : Projection.Account) (outcome : SaveOutcome)
    → f.seq + 1 < 2 ^ 64
    → IsKept f a
    → IsKept (save_snapshot outcome a.seq (snapshot a) f).1 a
unfolding save_snapshot
saved-IsKept f a outcome room k = go outcome
  where
    stored :
        (o : SaveOutcome)
        → IsStored
            (save_snapshot o a.seq (snapshot a) f).1
            (base_after o k.base a.seq)
            (keep (λ r. not (leb r.seq (base_after o k.base a.seq))) k.rs)
    stored o =
        save-IsStored f k.base a.seq k.rs (snapshot a) o k.stored
          (omega (arith, k.seq, k.stored.covered)) (omega (arith, k.seq))

    go : (o : SaveOutcome) → IsKept (save_snapshot o a.seq (snapshot a) f).1 a
    go snap_failed = k
    go log_failed = snapped-IsKept f _ a _ _ k room (stored log_failed) refl refl
    go reopen_failed =
        let snap = (snap-save_snapshot a.seq (snapshot a) f).1 in
        snapped-IsKept f _ a _ _ k room (stored reopen_failed) refl snap
    go saved =
        let snap = (snap-save_snapshot a.seq (snapshot a) f).0 in
        snapped-IsKept f _ a _ _ k room (stored saved) refl snap

seq-save :
    (f : File Snapshot) (a : Projection.Account) (outcome : SaveOutcome)
    → (save_snapshot outcome a.seq (snapshot a) f).1.seq ≡ f.seq
unfolding save_snapshot
seq-save f a snap_failed = refl
seq-save f a log_failed = refl
seq-save f a reopen_failed = refl
seq-save f a saved = refl

All-init : (rs : List Record) (r : Record) → All IsPlain (rs ++ r ∷ []) → All IsPlain rs × IsPlain r
All-init [] r h = (tt, h.0)
All-init (x ∷ rs) r h = let ih = All-init rs r h.1 in ((h.0, ih.0), ih.1)

-- what an append to a disk that does not fail does: nothing, where the record cannot be written, or it answers
-- with the record
append_synced-cases :
    (f : File Snapshot) (now : ℕ) (actor : String) (e : Event)
    → (File.append synced f now actor e ≡ (none, f))
      ⊎ (((File.append synced f now actor e).0 ≡ some (next_record f now actor e))
          × ((File.append synced f now actor e).1.seq ≡ (f.seq + 1) % 2 ^ 64))
unfolding File.append with_line
append_synced-cases f now actor e = elim (Option-cases (line_of (next_record f now actor e))) [
  | inl failed ↦ inl (rw (File.append, failed) refl)
  | inr (w, written) ↦ inr (rw (File.append, written) (refl, refl))
]

module _ (s : Services) where
  -- the log is kept while the records of the history are plain, and its number is at most `n`
  record Fits (n : ℕ) (d : Logged) (a : Projection.Account) : Type 0 where
    kept : All IsPlain d.2 → IsKept d.0 a
    room : d.0.seq ≤ n

  commit-Fits :
      (n now : ℕ) (actor : String) (e : Event) (rt : Runtime disk_log s)
      → n + 1 < 2 ^ 64
      → IsNew rt.proj e
      → Fits n rt.log rt.proj
      → Fits
          (n + 1)
          (commit disk_log s now actor e rt).1.log
          (commit disk_log s now actor e rt).1.proj
  unfolding commit append_by
  commit-Fits n now actor e rt fit new k = elim (Bool-cases (next_ok rt.log.1)) [
    | inl ok ↦ elim (append_synced-cases rt.log.0 now actor e) [
      | inl refused ↦
          rw (commit, append_by, ok, refused)
            (record { kept = k.kept; room = omega (arith, k.room) })
      | inr (done, at) ↦
          rw (commit, append_by, ok, done)
            (record {
              kept = λ h.
                  let (old, p) = All-init rt.log.2 (next_record rt.log.0 now actor e) h in
                  subst (λ x. IsKept x.1 (apply rt.proj (next_record rt.log.0 now actor e)))
                    (sym (append_synced-plain rt.log.0 now actor e p))
                    (synced-IsKept rt.log.0 rt.proj now actor e p (k.kept old) new
                      (omega (arith, k.room)));
              room = omega (arith, at, k.room);
            })
    ]
    | inr failed ↦
        rw (commit, append_by, failed)
          (rw unwritten_same (record { kept = k.kept; room = omega (arith, k.room) }))
  ]
    where
      unwritten_same : File.append unwritten rt.log.0 now actor e ≡ (none, rt.log.0)
      unwritten_same = append_unwritten rt.log.0 now actor e

  call-Fits :
      (n : ℕ) (c : Call) (rt : Runtime disk_log s)
      → n + 1 < 2 ^ 64
      → Fits n rt.log rt.proj
      → Fits (n + 1) (call s c rt).log (call s c rt).proj
  unfolding call compact
  call-Fits n (called now op) rt fit k =
      step-keeps disk_log s (Fits n) (Fits (n + 1))
        (λ d a h. record { kept = h.kept; room = omega (arith, h.room) })
        (λ now actor e rt new h. commit-Fits n now actor e rt fit new h) now op rt k
  call-Fits n (compacted outcome) rt fit k = record {
    kept = λ h. saved-IsKept rt.log.0 rt.proj outcome (omega (arith, k.room)) (k.kept h);
    room = omega (arith, seq-save rt.log.0 rt.proj outcome, k.room);
  }

  run_calls-Fits :
      (n : ℕ) (cs : List Call) (rt : Runtime disk_log s)
      → n + length cs < 2 ^ 64
      → Fits n rt.log rt.proj
      → Fits (n + length cs) (run_calls s cs rt).log (run_calls s cs rt).proj
  unfolding run_calls
  run_calls-Fits n [] rt fit k = record { kept = k.kept; room = omega (arith, k.room) }
  run_calls-Fits n (c ∷ cs) rt fit k =
      let h =
        run_calls-Fits (n + 1) cs (call s c rt) (omega arith) (call-Fits n c rt (omega arith) k) in
      record { kept = h.kept; room = omega (arith, h.room) }

-- a log file that was just created
abbrev pub new_file : File Snapshot
new_file = record { disk = record { lines = []; snap = absent }; seq = 0 }

new-IsKept : IsKept new_file Projection.new
unfolding restarted first_account Projection.new read_all keep apply_all
new-IsKept = record {
  base = 0;
  rs = [];
  stored = record {
    reads = refl;
    ended = unfold ends in refl;
    plain = tt;
    numbered = tt;
    last = refl;
    snapped = omega arith;
    covered = omega arith;
  };
  same = Same-refl Projection.new;
  seq = refl;
  valid = IsValid-new;
  indexed = IsIndexed-new;
  once = tt;
}

-- A runtime begins with an empty log file. After any calls, of which some may fail to write, and any compactions, of
-- which each may stop at any of its calls, fewer than 2 ^ 64 in all: if every record that was appended has texts in
-- UTF-8 and a line below 16 MiB, a restart opens the same log with an account that agrees with the live projection,
-- in everything but the layout of its Message-ID index, and in every lookup of that.
pub reopen-run_calls :
    (s : Services) (rt : Runtime disk_log s) (cs : List Call)
    → rt.log.0 ≡ new_file
    → rt.proj ≡ Projection.new
    → length cs < 2 ^ 64
    → All IsPlain (run_calls s cs rt).log.2
    → (b : Projection.Account) × (reopen (run_calls s cs rt).log.0
        ≡ some ((run_calls s cs rt).log.0, b))
      × Same b (run_calls s cs rt).proj
unfolding reopen
reopen-run_calls s rt cs empty new fit plain =
    let start : Fits s 0 rt.log rt.proj = record {
      kept = λ h.
          subst (λ f. IsKept f rt.proj) (sym empty) (subst (IsKept new_file) (sym new) new-IsKept);
      room = subst (λ (f : File Snapshot). f.seq ≤ 0) (sym empty) (omega arith);
    } in
    let rt' = run_calls s cs rt in
    let k = (run_calls-Fits s 0 cs rt (omega arith) start).kept plain in
    (
      restarted rt'.log.0.disk.snap k.rs,
      rw
          (
            reopen,
            open-disk rt'.log.0 k.base k.rs k.stored,
            open_projection-reads rt'.log.0 k.rs k.stored.reads,
          )
          refl,
      k.same,
    )
