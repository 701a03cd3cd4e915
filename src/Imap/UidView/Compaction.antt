-- ===== src/Imap/UidView/Compaction.antt =====
-- The UID view of adapters/imap/uidview.go over a compacted log.
use vulos_mail.Common.{ℕ, ◌≡◌, refl, ap, ◌∙◌, List, [], ◌∷◌, not, some, leb, keep, arith, length}
use vulos_mail.Common.Map.{lookup}
use vulos_mail.Model.{LabelId}
use vulos_mail.EventLog.{Record}
use vulos_mail.EventLog.File.{File, saved, save_snapshot, read_from, read_all, file_log}
use vulos_mail.EventLog.File.Recovery.{IsStored, Numbered-tail, save-read_all}
use vulos_mail.Imap.UidView.{View, rebuild_view, view_from, new_view, apply_all, count, uid_next}

nil_of_length : (rs : List Record) → length rs ≡ 0 → rs ≡ []
nil_of_length [] h = refl
nil_of_length (r ∷ rs) h = absurd (omega arith)

module _ {D : Type 0} where
  -- Once a stored log is compacted through its last number, the UID view that is rebuilt from it has
  -- no message and the next UID 1 in every mailbox, whatever messages and UIDs the mailboxes had.
  pub rebuild_view-compacted :
      (f : File D) (base : ℕ) (rs : List Record) (content : D) (label : LabelId)
      → IsStored f base rs
      → let f' = (save_snapshot saved f.seq content f).1 in
        (v : View) × (rebuild_view (file_log D) f' ≡ some v)
        × (count v label ≡ 0)
        × (uid_next v label ≡ 1)
  rebuild_view-compacted f base rs content label s =
      let empty : read_all (save_snapshot saved f.seq content f).1.disk.lines ≡ some [] =
        save-read_all f base f.seq rs content s
        ∙ ap some (
            nil_of_length (keep (λ r. not (leb r.seq f.seq)) rs) (
              omega (
                arith,
                s.last,
                (Numbered-tail base f.seq rs s.numbered (omega (arith, s.last))
                    (omega (arith, s.last))).1,
              ))) in
      (
        new_view,
        unfold rebuild_view read_from in
            rw (empty, rebuild_view, read_from) (unfold keep view_from apply_all in refl),
        unfold count new_view lookup in refl,
        unfold uid_next new_view lookup in refl,
      )
