-- ===== src/Projection/Expunge.antt =====
-- The removal of a message in internal/projection/projection.go, and the invariant.
use vulos_mail.Common.{
  ◌≡◌, refl, String, List, [], ◌∷◌, Bool, true, false, not, ◌&&◌, Option, none, some, arith, ◌==◌,
  eq_iff, if◌then◌else◌, elem, distinct, Option-cases, inl, inr,
}
use vulos_mail.Common.Map.{Map, lookup, erase, lookup-erase}
use vulos_mail.Model.{MessageId, Message}
use vulos_mail.Projection.{Account, expunge, remove_from_order, detach_from_threads, unindex_header}
use vulos_mail.Projection.Threads.{elem-detach}
use vulos_mail.Projection.Invariant.{IsValid, entry_fits}

-- Each id stands once, so the loop that stops at the first match removes the id.
pub elem-remove_from_order :
    (id msg : MessageId) (ids : List MessageId)
    → distinct ids ≡ true
    → elem id (remove_from_order msg ids) ≡ (not (msg == id) && elem id ids)
unfolding remove_from_order distinct
elem-remove_from_order id msg [] d = ground arith
elem-remove_from_order id msg (x ∷ xs) d =
    ground (arith, elem-remove_from_order id msg xs, eq_iff x msg, eq_iff x id, eq_iff msg id)

distinct-remove_from_order :
    (msg : MessageId) (ids : List MessageId)
    → distinct ids ≡ true
    → distinct (remove_from_order msg ids) ≡ true
unfolding remove_from_order distinct
distinct-remove_from_order msg [] d = refl
distinct-remove_from_order msg (x ∷ xs) d =
    ground (arith, distinct-remove_from_order msg xs, elem-remove_from_order x msg xs)

abbrev pub names : MessageId → Option MessageId → Bool
names msg none = false
names msg (some id) = id == msg

pub lookup-unindex_header :
    (h mid : String) (msg : MessageId) (index : Map MessageId)
    → lookup h (unindex_header mid msg index) ≡ (
        if not (mid == "") && (mid == h && names msg (lookup h index))
        then none
        else lookup h index)
unfolding unindex_header
lookup-unindex_header h mid msg index = ground (arith, lookup-erase mid h index, eq_iff mid h)

pub removed :
    (msg : MessageId) (m : Message) (a : Account)
    → lookup msg a.messages ≡ some m
    → expunge msg a ≡ (record a {
      messages = erase msg a.messages;
      threads = detach_from_threads msg a.threads;
      order = remove_from_order msg a.order;
      by_message_id = unindex_header m.envelope.message_id_header msg a.by_message_id;
    })
unfolding expunge
removed msg m a old = rw (old, expunge)

module _ (msg : MessageId) (m : Message) (a : Account) (old : lookup msg a.messages ≡ some m)
    (v : IsValid a) where
  -- an entry that is left does not name the message
  expunge-indexed :
      (h : String) (o : Option MessageId)
      → lookup h a.by_message_id ≡ o
      → entry_fits (erase msg a.messages) h (
          if not (m.envelope.message_id_header == "")
            && (m.envelope.message_id_header == h && names msg o)
          then none
          else o)
        ≡ true
  expunge-indexed h none e = ground arith
  expunge-indexed h (some id) e = ground (
    arith,
    e,
    old,
    v.indexed h,
    v.unnamed,
    lookup-erase msg id a.messages,
    eq_iff id msg,
    eq_iff msg id,
    eq_iff m.envelope.message_id_header "",
    eq_iff m.envelope.message_id_header h,
  )

  removed-IsValid : IsValid (expunge msg a)
  removed-IsValid = rw (removed msg m a old) (record {
    listed = λ id. ground (
      arith,
      v.listed id,
      elem-remove_from_order id msg a.order,
      v.once,
      lookup-erase msg id a.messages,
    );
    once = distinct-remove_from_order msg a.order v.once;
    keyed = λ id. ground (arith, v.keyed id, lookup-erase msg id a.messages);
    grouped = λ tid id. rw (elem-detach, lookup-erase) (ground (arith, v.grouped tid id));
    indexed = λ h. rw lookup-unindex_header (expunge-indexed h (lookup h a.by_message_id) refl);
    unnamed = rw lookup-unindex_header (ground (arith, v.unnamed));
  })

pub kept : (msg : MessageId) (a : Account) → lookup msg a.messages ≡ none → expunge msg a ≡ a
unfolding expunge
kept msg a absent = rw (absent, expunge)

pub expunge-IsValid : (msg : MessageId) (a : Account) → IsValid a → IsValid (expunge msg a)
expunge-IsValid msg a v = elim (Option-cases (lookup msg a.messages)) [
  | inl absent ↦ rw (kept msg a absent) v
  | inr (m, old) ↦ removed-IsValid msg m a old v
]
