-- ===== src/Imap/UidView/Views.antt =====
-- The mailboxes of a whole view, adapters/imap/uidview.go.
use mathlib.Core.Option
use vulos_mail.Common.{
  ℕ, suc, ◌+◌, ◌^◌, ◌≤◌, ◌<◌, ◌≡◌, refl, List, [], ◌∷◌, Bool, true, false, Option, none, some, ◌==◌,
  arith, if◌then◌else◌, length, Option-cases, inl, inr,
}
use vulos_mail.Common.Map.{
  Map, lookup, insert, erase, map_values, lookup-insert, lookup-erase, lookup-map_values,
}
use vulos_mail.Model.{MessageId, LabelId}
use vulos_mail.Event.{Event, message_ingested, labeled, unlabeled, label_deleted, message_expunged}
use vulos_mail.EventLog.{Record}
use vulos_mail.Imap.UidView.{
  Mailbox, View, new_mailbox, assign, retire, mbox, assign_in, assign_all, retire_in, fold_event,
  apply, apply_all, new_view, view_from, uid_next, uid_of, entries,
}
use vulos_mail.Imap.UidView.Mailboxes.{
  IsValid, IsValid-new, Ascending, find_uid, assign-IsValid, retire-IsValid,
}

-- how many UIDs an event may use up in one mailbox
unfoldable pub weight : Event → ℕ
weight (message_ingested e) = length e.initial_labels
weight (labeled msg l) = 1
weight _ = 0

unfoldable pub weights : List Record → ℕ
weights [] = 0
weights (r ∷ rs) = weight r.event + weights rs

abbrev pub Fits : ℕ → Mailbox → Type 0
Fits n mb = IsValid mb × (mb.uid_next ≤ n)

abbrev pub FitsAt : ℕ → Option Mailbox → Type 0
FitsAt n none = Unit
FitsAt n (some mb) = Fits n mb

-- every mailbox is valid and has used up at most `n` UIDs
abbrev pub AllFit : ℕ → Map Mailbox → Type 0
AllFit n mbs = (label : LabelId) → FitsAt n (lookup label mbs)

FitsAt-weaken : (n k : ℕ) (o : Option Mailbox) → n ≤ k → FitsAt n o → FitsAt k o
FitsAt-weaken n k none le f = tt
FitsAt-weaken n k (some mb) le f = (f.0, omega (arith, f.1))

uid_next-assign-le : (msg : MessageId) (mb : Mailbox) → (assign msg mb).uid_next ≤ mb.uid_next + 1
unfolding assign
uid_next-assign-le msg mb = ground arith

uid_next-retire : (msg : MessageId) (mb : Mailbox) → (retire msg mb).uid_next ≡ mb.uid_next
unfolding retire
uid_next-retire msg mb = ground arith

pub mbox-Fits :
    (n : ℕ) (label : LabelId) (mbs : Map Mailbox) → 1 ≤ n → AllFit n mbs → Fits n (mbox label mbs)
unfolding mbox
mbox-Fits n label mbs pos f = go (lookup label mbs) (f label)
  where
    go : (o : Option Mailbox) → FitsAt n o → Fits n (elim o [ none ↦ new_mailbox | some mb ↦ mb ])
    go none g = (IsValid-new, pos)
    go (some mb) g = g

assign-Fits :
    (n : ℕ) (msg : MessageId) (mb : Mailbox)
    → n + 1 < 2 ^ 32
    → Fits n mb
    → Fits (n + 1) (assign msg mb)
assign-Fits n msg mb room f =
    (assign-IsValid msg mb (omega (arith, f.1)) f.0, omega (arith, f.1, uid_next-assign-le msg mb))

retire-Fits : (n : ℕ) (msg : MessageId) (mb : Mailbox) → Fits n mb → Fits n (retire msg mb)
retire-Fits n msg mb f = (retire-IsValid msg mb f.0, omega (arith, f.1, uid_next-retire msg mb))

insert-AllFit :
    (n : ℕ) (label : LabelId) (mb : Mailbox) (mbs : Map Mailbox)
    → Fits n mb
    → AllFit n mbs
    → AllFit n (insert label mb mbs)
insert-AllFit n label mb mbs f g j = rw lookup-insert (go (label == j))
  where
    go : (b : Bool) → FitsAt n (if b then some mb else lookup j mbs)
    go true = f
    go false = g j

pub assign_in-AllFit :
    (n : ℕ) (msg : MessageId) (label : LabelId) (mbs : Map Mailbox)
    → 1 ≤ n
    → n + 1 < 2 ^ 32
    → AllFit n mbs
    → AllFit (n + 1) (assign_in msg label mbs)
unfolding assign_in
assign_in-AllFit n msg label mbs pos room f =
    insert-AllFit (n + 1) label (assign msg (mbox label mbs)) mbs
      (assign-Fits n msg (mbox label mbs) room (mbox-Fits n label mbs pos f))
      (λ j. FitsAt-weaken n (n + 1) (lookup j mbs) (omega arith) (f j))

assign_all-AllFit :
    (n : ℕ) (msg : MessageId) (ls : List LabelId) (mbs : Map Mailbox)
    → 1 ≤ n
    → n + length ls < 2 ^ 32
    → AllFit n mbs
    → AllFit (n + length ls) (assign_all msg ls mbs)
unfolding assign_all
assign_all-AllFit n msg [] mbs pos room f =
    λ j. FitsAt-weaken n (n + 0) (lookup j mbs) (omega arith) (f j)
assign_all-AllFit n msg (l ∷ ls) mbs pos room f = λ j.
    FitsAt-weaken (n + 1 + length ls) (n + suc (length ls))
      (lookup j (assign_all msg ls (assign_in msg l mbs))) (omega arith)
      (assign_all-AllFit (n + 1) msg ls (assign_in msg l mbs) (omega arith) (omega arith)
        (assign_in-AllFit n msg l mbs pos (omega arith) f) j)

retire_in-AllFit :
    (n : ℕ) (msg : MessageId) (label : LabelId) (mbs : Map Mailbox)
    → AllFit n mbs
    → AllFit n (retire_in msg label mbs)
unfolding retire_in
retire_in-AllFit n msg label mbs f = elim (Option-cases (lookup label mbs)) [
  | inl absent ↦ λ j. rw (absent, retire_in) (f j)
  | inr (mb, there) ↦ λ j.
      rw (there, retire_in)
        (insert-AllFit n label (retire msg mb) mbs (retire-Fits n msg mb (rw there at (f label))) f
          j)
]

FitsAt-map :
    (n : ℕ) (msg : MessageId) (o : Option Mailbox)
    → FitsAt n o
    → FitsAt n (Option.map (retire msg) o)
FitsAt-map n msg none f = tt
FitsAt-map n msg (some mb) f = retire-Fits n msg mb f

FitsAt-if : (n : ℕ) (b : Bool) (o : Option Mailbox) → FitsAt n o → FitsAt n (if b then none else o)
FitsAt-if n true o f = tt
FitsAt-if n false o f = f

AllFit-add_zero : (n : ℕ) (mbs : Map Mailbox) → AllFit n mbs → AllFit (n + 0) mbs
AllFit-add_zero n mbs f j = FitsAt-weaken n (n + 0) (lookup j mbs) (omega arith) (f j)

pub fold_event-AllFit :
    (n : ℕ) (e : Event) (mbs : Map Mailbox)
    → 1 ≤ n
    → n + weight e < 2 ^ 32
    → AllFit n mbs
    → AllFit (n + weight e) (fold_event e mbs)
unfolding fold_event weight
fold_event-AllFit n (message_ingested e) mbs pos room f =
    assign_all-AllFit n e.message_id e.initial_labels mbs pos room f
fold_event-AllFit n (labeled msg l) mbs pos room f = assign_in-AllFit n msg l mbs pos room f
fold_event-AllFit n (unlabeled msg l) mbs pos room f =
    AllFit-add_zero n (retire_in msg l mbs) (retire_in-AllFit n msg l mbs f)
fold_event-AllFit n (label_deleted l) mbs pos room f =
    AllFit-add_zero n (erase l mbs)
      (λ j. rw lookup-erase (FitsAt-if n (l == j) (lookup j mbs) (f j)))
fold_event-AllFit n (message_expunged msg) mbs pos room f =
    AllFit-add_zero n (map_values (retire msg) mbs)
      (λ j. rw lookup-map_values (FitsAt-map n msg (lookup j mbs) (f j)))
fold_event-AllFit n _ mbs pos room f = AllFit-add_zero n mbs f

pub apply_all-AllFit :
    (n : ℕ) (v : View) (rs : List Record)
    → 1 ≤ n
    → n + weights rs < 2 ^ 32
    → AllFit n v.mailboxes
    → AllFit (n + weights rs) (apply_all v rs).mailboxes
unfolding apply_all apply weights
apply_all-AllFit n v [] pos room f = AllFit-add_zero n v.mailboxes f
apply_all-AllFit n v (r ∷ rs) pos room f = λ j.
    FitsAt-weaken (n + weight r.event + weights rs) (n + (weight r.event + weights rs))
      (lookup j (apply_all (apply v r) rs).mailboxes) (omega arith)
      (apply_all-AllFit (n + weight r.event) (apply v r) rs (omega arith) (omega arith)
        (fold_event-AllFit n r.event v.mailboxes pos (omega arith) f) j)

pub AllFit-new : AllFit 1 new_view.mailboxes
unfolding new_view lookup
AllFit-new j = tt

queries_fit :
    (n : ℕ) (v : View) (label : LabelId)
    → AllFit n v.mailboxes
    → Ascending 1 (uid_next v label) (entries v label)
      × ((msg : MessageId) → uid_of v label msg ≡ find_uid msg (entries v label))
unfolding uid_next entries uid_of find_uid
queries_fit n v label f = go (lookup label v.mailboxes) (f label)
  where
    go :
        (o : Option Mailbox)
        → FitsAt n o
        → Ascending 1
            (elim o [ none ↦ 1 | some mb ↦ mb.uid_next ])
            (elim o [ none ↦ [] | some mb ↦ mb.order ])
          × ((msg : MessageId)
              → (elim o [ none ↦ none | some mb ↦ lookup msg mb.by_msg ])
                ≡ find_uid msg (elim o [ none ↦ [] | some mb ↦ mb.order ]))
    go none g = (omega arith, λ msg. refl)
    go (some mb) g = (g.0.ascending, g.0.agrees)

-- In the view of any log whose records assign fewer than 2 ^ 32 - 1 UIDs, the slots of each mailbox
-- ascend strictly in their UIDs, from 1 and below the next UID, and the UID of a message is that of its slot.
pub view_from-Ascending :
    (recs : List Record) (label : LabelId)
    → 1 + weights recs < 2 ^ 32
    → Ascending 1 (uid_next (view_from recs) label) (entries (view_from recs) label)
      × ((msg : MessageId)
          → uid_of (view_from recs) label msg ≡ find_uid msg (entries (view_from recs) label))
unfolding view_from
view_from-Ascending recs label room =
    queries_fit (1 + weights recs) (apply_all new_view recs) label
      (apply_all-AllFit 1 new_view recs (omega arith) room AllFit-new)
