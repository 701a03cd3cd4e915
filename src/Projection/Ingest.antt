-- ===== src/Projection/Ingest.antt =====
-- The case of a new message in internal/projection/projection.go, and the invariant.
use vulos_mail.Common.{
  ◌≡◌, refl, String, [], ◌∷◌, ◌++◌, Bool, true, false, not, ◌&&◌, Option, none, some, arith, ◌==◌,
  eq_iff, if◌then◌else◌, elem, elem-snoc, distinct, distinct-snoc, Option-cases, Bool-cases, inl,
  inr, ◌⊎◌, str_eq_refl,
}
use vulos_mail.Common.Map.{Map, is_some, lookup, insert, lookup-insert}
use vulos_mail.Model.{MessageId, Message}
use vulos_mail.Event.{MessageIngested}
use vulos_mail.Projection.{Account, new_message, ingest, attach_to_thread, index_header}
use vulos_mail.Projection.Threads.{members, has_thread, elem-attach}
use vulos_mail.Projection.Invariant.{IsValid, has_header, entry_fits}

pub lookup-index_header :
    (h mid : String) (msg : MessageId) (index : Map MessageId)
    → lookup h (index_header mid msg index) ≡ (
        if not (mid == "") && (not (is_some (lookup mid index)) && mid == h)
        then some msg
        else lookup h index)
unfolding index_header
lookup-index_header h mid msg index = ground (arith, lookup-insert mid h msg index)

has_header-insert :
    (h : String) (id msg : MessageId) (m : Message) (ms : Map Message)
    → lookup msg ms ≡ none
    → has_header h (lookup id ms) ≡ true
    → has_header h (lookup id (insert msg m ms)) ≡ true
has_header-insert h id msg m ms new p =
    ground (arith, new, lookup-insert msg id m ms, eq_iff msg id)

entry_fits-insert :
    (h : String) (msg : MessageId) (m : Message) (ms : Map Message) (o : Option MessageId)
    → lookup msg ms ≡ none
    → entry_fits ms h o ≡ true
    → entry_fits (insert msg m ms) h o ≡ true
entry_fits-insert h msg m ms none new p = refl
entry_fits-insert h msg m ms (some id) new p = has_header-insert h id msg m ms new p

module _ (e : MessageIngested) (a : Account) (new : lookup e.message_id a.messages ≡ none)
    (v : IsValid a) where
  ingest-indexed :
      (h : String)
      → entry_fits
          (insert e.message_id (new_message e) a.messages)
          h
          (lookup h (index_header e.envelope.message_id_header e.message_id a.by_message_id))
        ≡ true
  unfolding new_message
  ingest-indexed h = rw lookup-index_header (
      go (Bool-cases (not (mid == "") && (not (is_some (lookup mid a.by_message_id)) && mid == h))))
    where
      mid : String
      mid = e.envelope.message_id_header

      test : Bool
      test = not (mid == "") && (not (is_some (lookup mid a.by_message_id)) && mid == h)

      go :
          (test ≡ true) ⊎ (test ≡ false)
          → entry_fits
              (insert e.message_id (new_message e) a.messages)
              h
              (if test then some e.message_id else lookup h a.by_message_id)
            ≡ true
      go (inl p) = rw (p, lookup-insert, str_eq_refl e.message_id) (ground arith)
      go (inr p) = rw p (
          entry_fits-insert h e.message_id (new_message e) a.messages (lookup h a.by_message_id) new
            (v.indexed h))

  ingest-once : distinct (a.order ++ e.message_id ∷ []) ≡ true
  ingest-once = distinct-snoc e.message_id a.order (ground (arith, v.listed e.message_id)) v.once

  ingest-grouped :
      (tid id : MessageId)
      → elem id (members tid (attach_to_thread e.thread_id e.message_id a.threads)) ≡ (
          not (tid == "")
          && has_thread tid (lookup id (insert e.message_id (new_message e) a.messages)))
  unfolding new_message
  ingest-grouped tid id =
      rw (elem-attach, lookup-insert)
        (ground (arith, v.grouped tid id, eq_iff e.message_id id, eq_iff e.thread_id tid))

  added-IsValid : IsValid (ingest e a)
  unfolding ingest
  added-IsValid = rw new (record {
    listed = λ id. ground (
      arith,
      v.listed id,
      elem-snoc id e.message_id a.order,
      lookup-insert e.message_id id (new_message e) a.messages,
    );
    once = ingest-once;
    keyed = λ id. ground (
      arith,
      v.keyed id,
      eq_iff e.message_id id,
      lookup-insert e.message_id id (new_message e) a.messages,
    );
    grouped = ingest-grouped;
    indexed = ingest-indexed;
    unnamed =
        rw lookup-index_header (ground (arith, v.unnamed, eq_iff e.envelope.message_id_header ""));
  })

pub ingest-IsValid : (e : MessageIngested) (a : Account) → IsValid a → IsValid (ingest e a)
ingest-IsValid e a v = elim (Option-cases (lookup e.message_id a.messages)) [
  | inl new ↦ added-IsValid e a new v
  | inr (m, old) ↦ unfold ingest in rw old v
]
