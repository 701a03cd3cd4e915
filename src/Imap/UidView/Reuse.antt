-- ===== src/Imap/UidView/Reuse.antt =====
-- UIDs over time, adapters/imap/uidview.go.
use mathlib.Core.Option
use vulos_mail.Common.{
  ℕ, ◌+◌, ◌^◌, ◌≤◌, ◌<◌, ◌≡◌, ◌⊎◌, refl, sym, ◌∙◌, List, [], ◌∷◌, ◌++◌, false, Option, none, some,
  ◌==◌, arith, if◌then◌else◌, length, Option-cases, String-cases, inl, inr, str_eq_refl, All,
}
use vulos_mail.Common.Map.{
  Map, lookup, insert, erase, map_values, lookup-insert, lookup-erase, lookup-map_values,
}
use vulos_mail.Model.{MessageId, LabelId}
use vulos_mail.Event.{Event, message_ingested, labeled, unlabeled, label_deleted, message_expunged}
use vulos_mail.EventLog.{Record}
use vulos_mail.Imap.UidView.{
  Mailbox, View, default_uid_validity, new_mailbox, assign, retire, mbox, assign_in, assign_all,
  retire_in, fold_event, apply, apply_all, new_view, view_from, uid_validity, uid_next, uid_of,
}
use vulos_mail.Imap.UidView.Views.{
  AllFit, weight, weights, mbox-Fits, assign_in-AllFit, fold_event-AllFit, apply_all-AllFit,
  AllFit-new,
}

-- A later state of a mailbox: each slot is an old one or has a UID from the old next UID on.
pub record Grows (mb mb' : Mailbox) : Type 0 where
  pub next : mb.uid_next ≤ mb'.uid_next
  pub slots :
      (msg : MessageId) (uid : ℕ)
      → lookup msg mb'.by_msg ≡ some uid
      → (lookup msg mb.by_msg ≡ some uid) ⊎ (mb.uid_next ≤ uid)

Grows-refl : (mb : Mailbox) → Grows mb mb
Grows-refl mb = record { next = omega arith; slots = λ msg uid h. inl h }

Grows-trans : (a b c : Mailbox) → Grows a b → Grows b c → Grows a c
Grows-trans a b c g h = record {
  next = omega (arith, g.next, h.next);
  slots = λ msg uid p. go msg uid (h.slots msg uid p);
}
  where
    go :
        (msg : MessageId) (uid : ℕ)
        → (lookup msg b.by_msg ≡ some uid) ⊎ (b.uid_next ≤ uid)
        → (lookup msg a.by_msg ≡ some uid) ⊎ (a.uid_next ≤ uid)
    go msg uid (inl p) = g.slots msg uid p
    go msg uid (inr le) = inr (omega (arith, g.next))

assign-Grows :
    (msg : MessageId) (mb : Mailbox) → mb.uid_next + 1 < 2 ^ 32 → Grows mb (assign msg mb)
unfolding assign
assign-Grows msg mb room = record {
  next = ground arith;
  slots = λ k uid p. ground (arith, lookup-insert msg k mb.uid_next mb.by_msg);
}

retire-Grows : (msg : MessageId) (mb : Mailbox) → Grows mb (retire msg mb)
unfolding retire
retire-Grows msg mb = record {
  next = ground arith;
  slots = λ k uid p. ground (arith, lookup-erase msg k mb.by_msg);
}

-- what happens at one label
mbox-insert :
    (label j : LabelId) (mb : Mailbox) (mbs : Map Mailbox)
    → mbox j (insert label mb mbs) ≡ (if label == j then mb else mbox j mbs)
unfolding mbox
mbox-insert label j mb mbs = ground (arith, lookup-insert label j mb mbs)

mbox-erase_ne :
    (label j : LabelId) (mbs : Map Mailbox)
    → (label == j) ≡ false
    → mbox j (erase label mbs) ≡ mbox j mbs
unfolding mbox
mbox-erase_ne label j mbs ne = ground (arith, lookup-erase label j mbs)

mbox-some :
    (label : LabelId) (mb : Mailbox) (mbs : Map Mailbox)
    → lookup label mbs ≡ some mb
    → mbox label mbs ≡ mb
unfolding mbox
mbox-some label mb mbs e = rw (e, mbox)

insert-Grows :
    (label j : LabelId) (mb : Mailbox) (mbs : Map Mailbox)
    → Grows (mbox label mbs) mb
    → Grows (mbox j mbs) (mbox j (insert label mb mbs))
insert-Grows label j mb mbs g = rw mbox-insert (go (String-cases label j))
  where
    go :
        (label ≡ j) ⊎ ((label == j) ≡ false)
        → Grows (mbox j mbs) (if label == j then mb else mbox j mbs)
    go (inl same) = rw (← same) (rw (str_eq_refl label) g)
    go (inr ne) = rw ne (Grows-refl (mbox j mbs))

assign_in-Grows :
    (n : ℕ) (msg : MessageId) (label j : LabelId) (mbs : Map Mailbox)
    → 1 ≤ n
    → n + 1 < 2 ^ 32
    → AllFit n mbs
    → Grows (mbox j mbs) (mbox j (assign_in msg label mbs))
unfolding assign_in
assign_in-Grows n msg label j mbs pos room f =
    insert-Grows label j (assign msg (mbox label mbs)) mbs
      (assign-Grows msg (mbox label mbs) (omega (arith, (mbox-Fits n label mbs pos f).1)))

assign_all-Grows :
    (n : ℕ) (msg : MessageId) (ls : List LabelId) (j : LabelId) (mbs : Map Mailbox)
    → 1 ≤ n
    → n + length ls < 2 ^ 32
    → AllFit n mbs
    → Grows (mbox j mbs) (mbox j (assign_all msg ls mbs))
unfolding assign_all
assign_all-Grows n msg [] j mbs pos room f = Grows-refl (mbox j mbs)
assign_all-Grows n msg (l ∷ ls) j mbs pos room f =
    Grows-trans (mbox j mbs) (mbox j (assign_in msg l mbs))
      (mbox j (assign_all msg ls (assign_in msg l mbs)))
      (assign_in-Grows n msg l j mbs pos (omega arith) f)
      (assign_all-Grows (n + 1) msg ls j (assign_in msg l mbs) (omega arith) (omega arith)
        (assign_in-AllFit n msg l mbs pos (omega arith) f))

retire_in-Grows :
    (msg : MessageId) (label j : LabelId) (mbs : Map Mailbox)
    → Grows (mbox j mbs) (mbox j (retire_in msg label mbs))
unfolding retire_in
retire_in-Grows msg label j mbs = elim (Option-cases (lookup label mbs)) [
  | inl absent ↦ rw (absent, retire_in) (Grows-refl (mbox j mbs))
  | inr (mb, there) ↦
      rw (there, retire_in)
        (insert-Grows label j (retire msg mb) mbs
          (rw (mbox-some label mb mbs there) (retire-Grows msg mb)))
]

map-Grows :
    (msg : MessageId) (j : LabelId) (mbs : Map Mailbox)
    → Grows (mbox j mbs) (mbox j (map_values (retire msg) mbs))
unfolding mbox
map-Grows msg j mbs = rw (lookup-map_values, mbox) (go (lookup j mbs))
  where
    go :
        (o : Option Mailbox)
        → Grows
            (elim o [ none ↦ new_mailbox | some mb ↦ mb ])
            (elim (Option.map (retire msg) o) [ none ↦ new_mailbox | some mb ↦ mb ])
    go none = Grows-refl new_mailbox
    go (some mb) = retire-Grows msg mb

-- the event is not the deletion of the label
abbrev pub Spares : LabelId → Event → Type 0
Spares label (label_deleted l) = (l == label) ≡ false
Spares label _ = Unit

fold_event-Grows :
    (n : ℕ) (e : Event) (j : LabelId) (mbs : Map Mailbox)
    → 1 ≤ n
    → n + weight e < 2 ^ 32
    → Spares j e
    → AllFit n mbs
    → Grows (mbox j mbs) (mbox j (fold_event e mbs))
unfolding fold_event weight
fold_event-Grows n (message_ingested e) j mbs pos room spared f =
    assign_all-Grows n e.message_id e.initial_labels j mbs pos room f
fold_event-Grows n (labeled msg l) j mbs pos room spared f =
    assign_in-Grows n msg l j mbs pos room f
fold_event-Grows n (unlabeled msg l) j mbs pos room spared f = retire_in-Grows msg l j mbs
fold_event-Grows n (label_deleted l) j mbs pos room spared f =
    rw (mbox-erase_ne l j mbs spared) (Grows-refl (mbox j mbs))
fold_event-Grows n (message_expunged msg) j mbs pos room spared f = map-Grows msg j mbs
fold_event-Grows n _ j mbs pos room spared f = Grows-refl (mbox j mbs)

abbrev pub AllSpare : LabelId → List Record → Type 0
AllSpare label = All (λ (r : Record). Spares label r.event)

apply_all-Grows :
    (n : ℕ) (v : View) (rs : List Record) (j : LabelId)
    → 1 ≤ n
    → n + weights rs < 2 ^ 32
    → AllSpare j rs
    → AllFit n v.mailboxes
    → Grows (mbox j v.mailboxes) (mbox j (apply_all v rs).mailboxes)
unfolding apply_all apply weights
apply_all-Grows n v [] j pos room spared f = Grows-refl (mbox j v.mailboxes)
apply_all-Grows n v (r ∷ rs) j pos room spared f =
    Grows-trans (mbox j v.mailboxes) (mbox j (apply v r).mailboxes)
      (mbox j (apply_all (apply v r) rs).mailboxes)
      (fold_event-Grows n r.event j v.mailboxes pos (omega arith) spared.0 f)
      (apply_all-Grows (n + weight r.event) (apply v r) rs j (omega arith) (omega arith) spared.1
        (fold_event-AllFit n r.event v.mailboxes pos (omega arith) f))

uid_next-mbox : (v : View) (label : LabelId) → uid_next v label ≡ (mbox label v.mailboxes).uid_next
unfolding uid_next mbox
uid_next-mbox v label = ground arith

uid_of-mbox :
    (v : View) (label : LabelId) (msg : MessageId)
    → uid_of v label msg ≡ lookup msg (mbox label v.mailboxes).by_msg
unfolding uid_of mbox lookup
uid_of-mbox v label msg = ground arith

-- the same of any view
uid_of-later :
    (n : ℕ) (v : View) (rs : List Record) (label : LabelId)
    → 1 ≤ n
    → n + weights rs < 2 ^ 32
    → AllSpare label rs
    → AllFit n v.mailboxes
    → (uid_next v label ≤ uid_next (apply_all v rs) label)
      × ((msg : MessageId) (uid : ℕ)
          → uid_of (apply_all v rs) label msg ≡ some uid
          → (uid_of v label msg ≡ some uid) ⊎ (uid_next v label ≤ uid))
uid_of-later n v rs label pos room spared f =
    let g = apply_all-Grows n v rs label pos room spared f in
    (
      rw (uid_next-mbox v label, uid_next-mbox (apply_all v rs) label) g.next,
      λ msg uid h.
          rw (uid_of-mbox v label msg, uid_next-mbox v label)
            (g.slots msg uid (sym (uid_of-mbox (apply_all v rs) label msg) ∙ h)),
    )

uid_of-inserted :
    (label : LabelId) (msg : MessageId) (mb : Mailbox) (mbs : Map Mailbox) (n : ℕ)
    → uid_of (record { seq = n; mailboxes = insert label mb mbs }) label msg ≡ lookup msg mb.by_msg
unfolding uid_of
uid_of-inserted label msg mb mbs n =
    ground (arith, lookup-insert label label mb mbs, str_eq_refl label)

uid_validity-inserted :
    (label : LabelId) (mb : Mailbox) (mbs : Map Mailbox) (n : ℕ)
    → uid_validity (record { seq = n; mailboxes = insert label mb mbs }) label ≡ mb.validity
unfolding uid_validity
uid_validity-inserted label mb mbs n =
    ground (arith, lookup-insert label label mb mbs, str_eq_refl label)

mbox-erase_self : (label : LabelId) (mbs : Map Mailbox) → mbox label (erase label mbs) ≡ new_mailbox
unfolding mbox
mbox-erase_self label mbs = ground (arith, lookup-erase label label mbs, str_eq_refl label)

apply_all-append :
    (v : View) (rs ss : List Record) → apply_all v (rs ++ ss) ≡ apply_all (apply_all v rs) ss
unfolding apply_all
apply_all-append v [] ss = refl
apply_all-append v (r ∷ rs) ss = apply_all-append (apply v r) rs ss

-- A log grows by records that do not delete a label, and assigns fewer than 2 ^ 32 - 1 UIDs in all. Then the
-- next UID of the label does not fall, and the UID that a message has at the end is the one that it
-- had before, or is not below the next UID of before: a UID never moves to another message.
pub uid_of-not_reused :
    (before after : List Record) (label : LabelId)
    → 1 + weights before + weights after < 2 ^ 32
    → AllSpare label after
    → let old = view_from before in
      let now = view_from (before ++ after) in
      (uid_next old label ≤ uid_next now label)
      × ((msg : MessageId) (uid : ℕ)
          → uid_of now label msg ≡ some uid
          → (uid_of old label msg ≡ some uid) ⊎ (uid_next old label ≤ uid))
unfolding view_from
uid_of-not_reused before after label room spared = rw (apply_all-append new_view before after) (
    uid_of-later (1 + weights before) (apply_all new_view before) after label (omega arith) room
      spared (apply_all-AllFit 1 new_view before (omega arith) (omega arith) AllFit-new))

-- If a message gets a label right after the label was deleted, it has UID 1 under the default
-- UIDVALIDITY.
pub uid_of-deleted_label :
    (v : View) (d r : Record) (label : LabelId) (msg : MessageId)
    → d.event ≡ label_deleted label
    → r.event ≡ labeled msg label
    → let v' = apply_all v (d ∷ r ∷ []) in
      (uid_of v' label msg ≡ some 1) × (uid_validity v' label ≡ default_uid_validity)
unfolding apply_all apply fold_event assign_in
uid_of-deleted_label v d r label msg p q =
    rw (q, p)
      (rw (uid_of-inserted, uid_validity-inserted, mbox-erase_self)
        (unfold assign lookup insert in rw (str_eq_refl msg) (refl, refl)))
