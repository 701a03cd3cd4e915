-- ===== src/Projection/Fold.antt =====
-- Whole logs applied to an account of internal/projection/projection.go.
use vulos_mail.Common.{
  ℕ, ◌+◌, ◌≤◌, ◌<◌, ◌≡◌, refl, ◌∙◌, List, [], ◌∷◌, ◌++◌, true, false, not, ◌&&◌, eqb, arith, length,
  leb, keep, Bool-cases, inl, inr,
}
use vulos_mail.Event.{
  Event, message_ingested, labeled, unlabeled, flag_set, label_created, label_renamed,
  label_deleted, message_expunged, thread_merged,
}
use vulos_mail.EventLog.{Record, seq_ge}
use vulos_mail.Projection.{Account, add_label, drop_label, put_flag, fold_event, apply, apply_all}
use vulos_mail.Projection.Invariant.{
  IsValid, on_message-IsValid, map_values-IsValid, merge_threads-IsValid,
}
use vulos_mail.Projection.Ingest.{ingest-IsValid}
use vulos_mail.Projection.Expunge.{expunge-IsValid}

fold_event-IsValid : (e : Event) (a : Account) → IsValid a → IsValid (fold_event e a)
unfolding fold_event
fold_event-IsValid (message_ingested e) a v = ingest-IsValid e a v
fold_event-IsValid (labeled msg l) a v =
    on_message-IsValid a msg (add_label l) (λ m. (refl, refl)) (λ m. refl) v
fold_event-IsValid (unlabeled msg l) a v =
    on_message-IsValid a msg (drop_label l) (λ m. (refl, refl)) (λ m. refl) v
fold_event-IsValid (flag_set msg f true) a v =
    on_message-IsValid a msg (put_flag f true) (λ m. (refl, refl)) (λ m. refl) v
fold_event-IsValid (flag_set msg f false) a v =
    on_message-IsValid a msg (put_flag f false) (λ m. (refl, refl)) (λ m. refl) v
fold_event-IsValid (label_created l name kind) a v = record {
  listed = v.listed;
  once = v.once;
  keyed = v.keyed;
  grouped = v.grouped;
  indexed = v.indexed;
  unnamed = v.unnamed;
}
fold_event-IsValid (label_renamed l name) a v = record {
  listed = v.listed;
  once = v.once;
  keyed = v.keyed;
  grouped = v.grouped;
  indexed = v.indexed;
  unnamed = v.unnamed;
}
fold_event-IsValid (label_deleted l) a v =
    let v' = map_values-IsValid a (drop_label l) (λ m. (refl, refl)) (λ m. refl) v in
    record {
      listed = v'.listed;
      once = v'.once;
      keyed = v'.keyed;
      grouped = v'.grouped;
      indexed = v'.indexed;
      unnamed = v'.unnamed;
    }
fold_event-IsValid (message_expunged msg) a v = expunge-IsValid msg a v
fold_event-IsValid (thread_merged into from) a v = merge_threads-IsValid into from a v

set_seq-IsValid : (a : Account) (n : ℕ) → IsValid a → IsValid (record a { seq = n })
set_seq-IsValid a n v = record {
  listed = v.listed;
  once = v.once;
  keyed = v.keyed;
  grouped = v.grouped;
  indexed = v.indexed;
  unnamed = v.unnamed;
}

pub apply-IsValid : (a : Account) (r : Record) → IsValid a → IsValid (apply a r)
unfolding apply
apply-IsValid a r v = elim (Bool-cases (not (eqb r.seq 0) && leb r.seq a.seq)) [
  | inl old ↦ rw old v
  | inr fresh ↦
      rw fresh (set_seq-IsValid (fold_event r.event a) r.seq (fold_event-IsValid r.event a v))
]

-- Whatever records are applied to a valid account, in whatever order, it stays valid.
pub apply_all-IsValid : (a : Account) (rs : List Record) → IsValid a → IsValid (apply_all a rs)
unfolding apply_all
apply_all-IsValid a [] v = v
apply_all-IsValid a (r ∷ rs) v = apply_all-IsValid (apply a r) rs (apply-IsValid a r v)

pub apply_all-append :
    (a : Account) (rs ss : List Record) → apply_all a (rs ++ ss) ≡ apply_all (apply_all a rs) ss
unfolding apply_all
apply_all-append a [] ss = refl
apply_all-append a (r ∷ rs) ss = apply_all-append (apply a r) rs ss

-- `Seq` runs from `n + 1` without gaps, as the logs number their records.
abbrev pub Numbered : ℕ → List Record → Type 0
Numbered n [] = Unit
Numbered n (r ∷ rs) = (r.seq ≡ n + 1) × Numbered (n + 1) rs

pub Numbered-snoc :
    (n : ℕ) (rs : List Record) (r : Record)
    → Numbered n rs
    → r.seq ≡ n + length rs + 1
    → Numbered n (rs ++ r ∷ [])
Numbered-snoc n [] r h e = (omega arith, tt)
Numbered-snoc n (x ∷ rs) r h e = (h.0, Numbered-snoc (n + 1) rs r h.1 (omega arith))

pub seq-apply : (a : Account) (r : Record) → r.seq ≡ a.seq + 1 → (apply a r).seq ≡ a.seq + 1
unfolding apply
seq-apply a r e = ground arith

pub seq-apply_all :
    (a : Account) (rs : List Record) → Numbered a.seq rs → (apply_all a rs).seq ≡ a.seq + length rs
unfolding apply_all
seq-apply_all a [] h = omega arith
seq-apply_all a (r ∷ rs) h =
    let s = seq-apply a r h.0 in seq-apply_all (apply a r) rs (rw s h.1) ∙ omega (arith, s)

pub apply_old : (a : Account) (r : Record) → 0 < r.seq → r.seq ≤ a.seq → apply a r ≡ a
unfolding apply
apply_old a r h k = ground arith

-- Records that are numbered from n + 1, all up to the number of the account, change nothing.
pub apply_all_old :
    (a : Account) (n : ℕ) (rs : List Record)
    → Numbered n rs
    → n + length rs ≤ a.seq
    → apply_all a rs ≡ a
unfolding apply_all
apply_all_old a n [] h k = refl
apply_all_old a n (r ∷ rs) h k =
    rw (apply_old a r (omega arith) (omega arith)) (apply_all_old a (n + 1) rs h.1 (omega arith))

-- All numbers are at least 1, so that a read from 1 returns everything.
pub keep-Numbered : (n : ℕ) (rs : List Record) → Numbered n rs → keep (seq_ge 1) rs ≡ rs
unfolding keep
keep-Numbered n [] h = refl
keep-Numbered n (r ∷ rs) h = ground (arith, keep-Numbered (n + 1) rs h.1)
