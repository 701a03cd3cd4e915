-- ===== src/Tests/Views.antt =====
-- The UIDs of a small log.
use vulos_mail.Common.{ℕ, ◌+◌, ◌^◌, ◌≡◌, ◌<◌, ◌≤◌, ◌⊎◌, List, [], ◌∷◌, ◌++◌, some, arith}
use vulos_mail.Model.{MessageId}
use vulos_mail.Event.{Event, labeled, unlabeled, message_expunged}
use vulos_mail.EventLog.{Record}
use vulos_mail.Imap.UidView.{view_from, uid_next, uid_of, entries}
use vulos_mail.Imap.UidView.Mailboxes.{Ascending, find_uid}
use vulos_mail.Imap.UidView.Views.{view_from-Ascending, weights, weight}
use vulos_mail.Imap.UidView.Reuse.{uid_of-not_reused}

abbrev at : ℕ → Event → Record
at n e = record { seq = n; time = n; actor = "user"; event = e }

abbrev before : List Record
before = at 1 (labeled "a" "l") ∷ at 2 (labeled "b" "l") ∷ at 3 (unlabeled "a" "l") ∷ []

abbrev after : List Record
after = at 4 (labeled "a" "l") ∷ at 5 (message_expunged "b") ∷ []

room : 1 + weights before + weights after < 2 ^ 32
unfolding weights weight
room = omega arith

room_before : 1 + weights before < 2 ^ 32
unfolding weights weight
room_before = omega arith

view_from-Ascending_example :
    Ascending 1 (uid_next (view_from before) "l") (entries (view_from before) "l")
    × ((msg : MessageId)
        → uid_of (view_from before) "l" msg ≡ find_uid msg (entries (view_from before) "l"))
view_from-Ascending_example = view_from-Ascending before "l" room_before

uid_of-not_reused_example :
    (uid_next (view_from before) "l" ≤ uid_next (view_from (before ++ after)) "l")
    × ((msg : MessageId) (uid : ℕ)
        → uid_of (view_from (before ++ after)) "l" msg ≡ some uid
        → (uid_of (view_from before) "l" msg ≡ some uid) ⊎ (uid_next (view_from before) "l" ≤ uid))
uid_of-not_reused_example = uid_of-not_reused before after "l" room (tt, (tt, tt))
