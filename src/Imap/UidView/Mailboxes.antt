-- ===== src/Imap/UidView/Mailboxes.antt =====
-- One mailbox of adapters/imap/uidview.go: the order of its slots and its index.
use vulos_mail.Common.{
  ℕ, ◌+◌, ◌%◌, ◌^◌, ◌≤◌, ◌<◌, ◌≡◌, refl, ap, ◌∙◌, List, [], ◌∷◌, ◌++◌, true, Option, none, some,
  ◌==◌, arith, eq_iff, map, if◌then◌else◌, elem, distinct, distinct-snoc, Option-cases, Bool-cases,
  inl, inr,
}
use vulos_mail.Common.Map.{is_some, lookup, insert, lookup-insert, lookup-erase}
use vulos_mail.Model.{MessageId}
use vulos_mail.Imap.UidView.{Entry, Mailbox, new_mailbox, assign, remove_entry, retire}

-- UIDs from `lo` on, strictly ascending, below `hi`
abbrev pub Ascending : ℕ → ℕ → List Entry → Type 0
Ascending lo hi [] = lo ≤ hi
Ascending lo hi (e ∷ es) = (lo ≤ e.uid) × Ascending (e.uid + 1) hi es

-- the UID of a message by its slot
unfoldable pub find_uid : MessageId → List Entry → Option ℕ
find_uid msg [] = none
find_uid msg (e ∷ es) = if e.msg == msg then some e.uid else find_uid msg es

pub record IsValid (mb : Mailbox) : Type 0 where
  pub ascending : Ascending 1 mb.uid_next mb.order
  pub agrees : (msg : MessageId) → lookup msg mb.by_msg ≡ find_uid msg mb.order
  pub once : distinct (map (λ (e : Entry). e.msg) mb.order) ≡ true

pub IsValid-new : IsValid new_mailbox
unfolding lookup find_uid distinct
IsValid-new = record { ascending = omega arith; agrees = λ msg. refl; once = refl }

Ascending-snoc :
    (lo hi : ℕ) (msg : MessageId) (es : List Entry)
    → Ascending lo hi es
    → Ascending lo (hi + 1) (es ++ (record { uid = hi; msg = msg }) ∷ [])
Ascending-snoc lo hi msg [] h = (h, omega arith)
Ascending-snoc lo hi msg (e ∷ es) h = (h.0, Ascending-snoc (e.uid + 1) hi msg es h.1)

Ascending-weaken :
    (lo lo' hi : ℕ) (es : List Entry) → lo ≤ lo' → Ascending lo' hi es → Ascending lo hi es
Ascending-weaken lo lo' hi [] k h = omega arith
Ascending-weaken lo lo' hi (e ∷ es) k h = (omega arith, h.1)

Ascending-remove :
    (lo hi : ℕ) (msg : MessageId) (es : List Entry)
    → Ascending lo hi es
    → Ascending lo hi (remove_entry msg es)
unfolding remove_entry
Ascending-remove lo hi msg [] h = h
Ascending-remove lo hi msg (e ∷ es) h = elim (Bool-cases (e.msg == msg)) [
  | inl here ↦ rw here (Ascending-weaken lo (e.uid + 1) hi es (omega arith) h.1)
  | inr later ↦ rw later (h.0, Ascending-remove (e.uid + 1) hi msg es h.1)
]

abbrev pub msgs : List Entry → List MessageId
msgs = map (λ (e : Entry). e.msg)

find_uid-snoc :
    (k msg : MessageId) (uid : ℕ) (es : List Entry)
    → find_uid k (es ++ (record { uid = uid; msg = msg }) ∷ [])
      ≡ (if is_some (find_uid k es) then find_uid k es else if msg == k then some uid else none)
unfolding find_uid
find_uid-snoc k msg uid [] = refl
find_uid-snoc k msg uid (e ∷ es) = ground (arith, find_uid-snoc k msg uid es)

elem-find_uid : (k : MessageId) (es : List Entry) → elem k (msgs es) ≡ is_some (find_uid k es)
unfolding find_uid elem
elem-find_uid k [] = refl
elem-find_uid k (e ∷ es) = ground (arith, elem-find_uid k es)

find_uid-remove :
    (k msg : MessageId) (es : List Entry)
    → distinct (msgs es) ≡ true
    → find_uid k (remove_entry msg es) ≡ (if msg == k then none else find_uid k es)
unfolding find_uid remove_entry distinct
find_uid-remove k msg [] d = ground arith
find_uid-remove k msg (e ∷ es) d = ground (
  arith,
  find_uid-remove k msg es,
  elem-find_uid k es,
  eq_iff e.msg msg,
  eq_iff e.msg k,
  eq_iff msg k,
)

distinct-remove :
    (msg : MessageId) (es : List Entry)
    → distinct (msgs es) ≡ true
    → distinct (msgs (remove_entry msg es)) ≡ true
unfolding remove_entry distinct
distinct-remove msg [] d = refl
distinct-remove msg (e ∷ es) d = ground (
  arith,
  distinct-remove msg es,
  elem-find_uid e.msg es,
  elem-find_uid e.msg (remove_entry msg es),
  find_uid-remove e.msg msg es,
)

msgs-snoc : (es : List Entry) (e : Entry) → msgs (es ++ e ∷ []) ≡ msgs es ++ e.msg ∷ []
msgs-snoc [] e = refl
msgs-snoc (x ∷ es) e = ap (◌∷◌ x.msg) (msgs-snoc es e)

-- what `assign` writes for a message that has no slot
added :
    (msg : MessageId) (mb : Mailbox)
    → lookup msg mb.by_msg ≡ none
    → assign msg mb ≡ (record mb {
      uid_next = (mb.uid_next + 1) % 2 ^ 32;
      by_msg = insert msg mb.uid_next mb.by_msg;
      order = mb.order ++ (record { uid = mb.uid_next; msg = msg }) ∷ [];
    })
unfolding assign
added msg mb new = rw (new, assign)

pub assign-IsValid :
    (msg : MessageId) (mb : Mailbox)
    → mb.uid_next + 1 < 2 ^ 32
    → IsValid mb
    → IsValid (assign msg mb)
assign-IsValid msg mb room v = elim (Option-cases (lookup msg mb.by_msg)) [
  | inl new ↦ rw (added msg mb new) (record {
    ascending = rw (wrap mb.uid_next room) (Ascending-snoc 1 mb.uid_next msg mb.order v.ascending);
    agrees = λ k.
        rw (lookup-insert, find_uid-snoc)
          (ground (arith, new, v.agrees msg, v.agrees k, eq_iff msg k));
    once = rw msgs-snoc (
        distinct-snoc msg (msgs mb.order)
          (elem-find_uid msg mb.order ∙ ground (arith, new, v.agrees msg)) v.once);
  })
  | inr (uid, old) ↦ unfold assign in rw (old, assign) v
]
  where
    wrap : (n : ℕ) → n + 1 < 2 ^ 32 → (n + 1) % 2 ^ 32 ≡ n + 1
    wrap n h = omega arith

pub retire-IsValid : (msg : MessageId) (mb : Mailbox) → IsValid mb → IsValid (retire msg mb)
retire-IsValid msg mb v = elim (Option-cases (lookup msg mb.by_msg)) [
  | inl absent ↦ unfold retire in rw (absent, retire) v
  | inr (uid, there) ↦
      unfold retire in
      rw (there, retire)
        (record {
          ascending = Ascending-remove 1 mb.uid_next msg mb.order v.ascending;
          agrees = λ k.
              rw lookup-erase
                (rw (find_uid-remove k msg mb.order v.once) (ground (arith, v.agrees k)));
          once = distinct-remove msg mb.order v.once;
        })
]
