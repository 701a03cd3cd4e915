-- ===== src/Projection/Indexed.antt =====
-- The completeness of the Message-ID index of internal/projection/projection.go.
use vulos_mail.Common.{
  ◌≡◌, refl, String, true, false, not, ◌&&◌, ◌||◌, Option, none, some, arith, sym, subst, ◌==◌,
  eq_iff, Option-cases, Bool-cases, inl, inr, eqb, leb,
}
use vulos_mail.Common.Map.{
  Map, lookup, erase, lookup-insert, lookup-erase, map_values, lookup-map_values,
}
use vulos_mail.Model.{MessageId, Message}
use vulos_mail.Event.{
  Event, MessageIngested, message_ingested, labeled, unlabeled, flag_set, label_created,
  label_renamed, label_deleted, message_expunged, thread_merged,
}
use vulos_mail.EventLog.{Record}
use vulos_mail.Projection.{
  Account, new, new_message, ingest, add_label, drop_label, put_flag, on_message, fold_event, apply,
  expunge, merge_threads, move_all, unindex_header, message_id_exists,
}
use vulos_mail.Projection.Invariant.{
  merged, merge_same, merge_absent, has_header, SameShape, SameShape-on_message, SameShape-move_all,
  KeepsShape, SameShape-map,
}
use vulos_mail.Projection.Ingest.{lookup-index_header}
use vulos_mail.Projection.Expunge.{lookup-unindex_header, removed, kept}

-- Every message with a header is the one that the index gives for it.
abbrev pub IsIndexed : Account → Type 0
IsIndexed a =
    (h : String) (id : MessageId)
    → (h == "") ≡ false
    → has_header h (lookup id a.messages) ≡ true
    → lookup h a.by_message_id ≡ some id

-- So no two messages carry one header.
pub header-injective :
    (a : Account) (h : String) (i j : MessageId)
    → IsIndexed a
    → (h == "") ≡ false
    → has_header h (lookup i a.messages) ≡ true
    → has_header h (lookup j a.messages) ≡ true
    → i ≡ j
header-injective a h i j x ne p q = cc (x h i ne p, x h j ne q)

-- what an event may bring in: a header that the index does not have
abbrev pub IsNew : Account → Event → Type 0
IsNew a (message_ingested e) = message_id_exists a e.envelope.message_id_header ≡ none
IsNew a _ = Unit

has_header-shape :
    (h : String) (o q : Option Message)
    → SameShape o q
    → has_header h q ≡ true
    → has_header h o ≡ true
has_header-shape h none none s p = p
has_header-shape h none (some q) s p = absurd s
has_header-shape h (some o) none s p = absurd s
has_header-shape h (some m) (some n) s p = ground arith

reshape-IsIndexed :
    (a : Account) (ms : Map Message)
    → ((id : MessageId) → SameShape (lookup id a.messages) (lookup id ms))
    → IsIndexed a
    → IsIndexed (record a { messages = ms })
reshape-IsIndexed a ms same x h id ne p =
    x h id ne (has_header-shape h (lookup id a.messages) (lookup id ms) (same id) p)

ingest-IsIndexed :
    (e : MessageIngested) (a : Account)
    → message_id_exists a e.envelope.message_id_header ≡ none
    → IsIndexed a
    → IsIndexed (ingest e a)
unfolding ingest message_id_exists new_message
ingest-IsIndexed e a fresh x h id ne p = elim (Option-cases (lookup e.message_id a.messages)) [
  | inl absent ↦ ground (
    arith,
    absent,
    x h id ne,
    lookup-insert e.message_id id (new_message e) a.messages,
    lookup-index_header h e.envelope.message_id_header e.message_id a.by_message_id,
    eq_iff e.message_id id,
    eq_iff e.envelope.message_id_header h,
    eq_iff e.envelope.message_id_header "",
  )
  | inr (m, there) ↦ ground (arith, there, x h id ne)
]

removed-IsIndexed :
    (msg : MessageId) (m : Message) (a : Account)
    → IsIndexed a
    → lookup msg a.messages ≡ some m
    → IsIndexed (record a {
      messages = erase msg a.messages;
      by_message_id = unindex_header m.envelope.message_id_header msg a.by_message_id;
    })
removed-IsIndexed msg m a x there h id ne p =
    rw lookup-unindex_header
      (ground (arith, rw lookup-erase at p, x h id ne, eq_iff id msg, eq_iff msg id))

expunge-IsIndexed : (msg : MessageId) (a : Account) → IsIndexed a → IsIndexed (expunge msg a)
expunge-IsIndexed msg a x = elim (Option-cases (lookup msg a.messages)) [
  | inl absent ↦ subst IsIndexed (sym (kept msg a absent)) x
  | inr (m, there) ↦
      subst IsIndexed (sym (removed msg m a there))
        (λ h id ne p. removed-IsIndexed msg m a x there h id ne p)
]

merge_threads-IsIndexed :
    (into from : MessageId) (a : Account) → IsIndexed a → IsIndexed (merge_threads into from a)
merge_threads-IsIndexed into from a x =
    elim (Bool-cases ((into == from || into == "") || from == "")) [
      | inl same ↦ subst IsIndexed (sym (merge_same into from a same)) x
      | inr apart ↦ elim (Option-cases (lookup from a.threads)) [
        | inl absent ↦ subst IsIndexed (sym (merge_absent into from a apart absent)) x
        | inr (src, there) ↦ subst IsIndexed (sym (merged into from a src apart there)) (
            reshape-IsIndexed a (move_all into src.message_ids a.messages)
              (λ id. SameShape-move_all into id src.message_ids a.messages) x)
      ]
    ]

on_message-IsIndexed :
    (a : Account) (msg : MessageId) (f : Message → Message)
    → KeepsShape f
    → IsIndexed a
    → IsIndexed (record a { messages = on_message msg f a.messages })
on_message-IsIndexed a msg f keeps =
    reshape-IsIndexed a (on_message msg f a.messages)
      (λ id. SameShape-on_message msg id f a.messages keeps)

fold_event-IsIndexed :
    (e : Event) (a : Account) → IsNew a e → IsIndexed a → IsIndexed (fold_event e a)
unfolding fold_event
fold_event-IsIndexed (message_ingested e) a n x = ingest-IsIndexed e a n x
fold_event-IsIndexed (labeled msg l) a n x =
    on_message-IsIndexed a msg (add_label l) (λ m. (refl, refl)) x
fold_event-IsIndexed (unlabeled msg l) a n x =
    on_message-IsIndexed a msg (drop_label l) (λ m. (refl, refl)) x
fold_event-IsIndexed (flag_set msg f true) a n x =
    on_message-IsIndexed a msg (put_flag f true) (λ m. (refl, refl)) x
fold_event-IsIndexed (flag_set msg f false) a n x =
    on_message-IsIndexed a msg (put_flag f false) (λ m. (refl, refl)) x
fold_event-IsIndexed (label_created l name kind) a n x = x
fold_event-IsIndexed (label_renamed l name) a n x = x
fold_event-IsIndexed (label_deleted l) a n x =
    reshape-IsIndexed a (map_values (drop_label l) a.messages)
      (λ id.
        rw lookup-map_values
          (SameShape-map (drop_label l) (λ m. (refl, refl)) (lookup id a.messages)))
      x
fold_event-IsIndexed (message_expunged msg) a n x = expunge-IsIndexed msg a x
fold_event-IsIndexed (thread_merged into from) a n x = merge_threads-IsIndexed into from a x

pub apply-IsIndexed :
    (a : Account) (r : Record) → IsNew a r.event → IsIndexed a → IsIndexed (apply a r)
unfolding apply
apply-IsIndexed a r n x = elim (Bool-cases (not (eqb r.seq 0) && leb r.seq a.seq)) [
  | inl old ↦ rw old x
  | inr fresh ↦ rw fresh (fold_event-IsIndexed r.event a n x)
]

pub IsIndexed-new : IsIndexed new
unfolding new lookup
IsIndexed-new h id ne p = cc
