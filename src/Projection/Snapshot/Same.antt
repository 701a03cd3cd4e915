-- ===== src/Projection/Snapshot/Same.antt =====
-- Accounts of internal/projection/projection.go that differ at most in the layout of the Message-ID
-- index, and the keys of the messages.
use vulos_mail.Common.{
  ℕ, ap, ◌≡◌, refl, sym, subst, String, List, [], ◌∷◌, not, ◌&&◌, ◌||◌, arith, ◌==◌, Option-cases,
  Bool-cases, inl, inr, leb, eqb,
}
use vulos_mail.Common.Map.{Map, is_some, lookup}
use vulos_mail.Common.Map.Keys.{Once, Once-insert, Once-erase, Once-map_values}
use vulos_mail.Model.{MessageId, Message}
use vulos_mail.Event.{
  Event, MessageIngested, message_ingested, labeled, unlabeled, flag_set, label_created,
  label_renamed, label_deleted, message_expunged, thread_merged,
}
use vulos_mail.EventLog.{Record}
use vulos_mail.Projection.{
  Account, ingest, on_message, expunge, move_all, move_to_thread, merge_threads, fold_event, apply,
  new_message, index_header, unindex_header, add_label, drop_label, put_flag,
}
use vulos_mail.Projection.Ingest.{lookup-index_header}
use vulos_mail.Projection.Expunge.{lookup-unindex_header}

pub record Same (b a : Account) : Type 0 where
  pub index : Map MessageId
  pub rest : b ≡ record a { by_message_id = index }
  pub agree : (h : String) → lookup h index ≡ lookup h a.by_message_id

pub Same-refl : (a : Account) → Same a a
Same-refl a = record { index = a.by_message_id; rest = refl; agree = λ h. refl }

module _ (a : Account) (i : Map MessageId)
    (agree : (h : String) → lookup h i ≡ lookup h a.by_message_id) where
  ingest-Same :
      (e : MessageIngested) → Same (ingest e (record a { by_message_id = i })) (ingest e a)
  unfolding ingest
  ingest-Same e = elim (Bool-cases (is_some (lookup e.message_id a.messages))) [
    | inl old ↦ rw old (record { index = i; rest = refl; agree = agree })
    | inr fresh ↦ rw fresh (record {
      index = index_header e.envelope.message_id_header e.message_id i;
      rest = refl;
      agree = λ h. ground (
        arith,
        agree h,
        agree e.envelope.message_id_header,
        lookup-index_header h e.envelope.message_id_header e.message_id i,
        lookup-index_header h e.envelope.message_id_header e.message_id a.by_message_id,
      );
    })
  ]

  expunge-Same :
      (msg : MessageId) → Same (expunge msg (record a { by_message_id = i })) (expunge msg a)
  unfolding expunge
  expunge-Same msg = elim (Option-cases (lookup msg a.messages)) [
    | inl absent ↦ rw (expunge, absent) (record { index = i; rest = refl; agree = agree })
    | inr (m, stored) ↦
        rw (expunge, stored)
          (record {
            index = unindex_header m.envelope.message_id_header msg i;
            rest = refl;
            agree = λ h. ground (
              arith,
              agree h,
              lookup-unindex_header h m.envelope.message_id_header msg i,
              lookup-unindex_header h m.envelope.message_id_header msg a.by_message_id,
            );
          })
  ]

  merge-Same :
      (into from : MessageId)
      → Same (merge_threads into from (record a { by_message_id = i })) (merge_threads into from a)
  unfolding merge_threads
  merge-Same into from = elim (Bool-cases ((into == from || into == "") || from == "")) [
    | inl skip ↦ rw (merge_threads, skip) (record { index = i; rest = refl; agree = agree })
    | inr go ↦ elim (Option-cases (lookup from a.threads)) [
      | inl absent ↦
          rw (merge_threads, go, absent) (record { index = i; rest = refl; agree = agree })
      | inr (src, found) ↦
          rw (merge_threads, go, found) (record { index = i; rest = refl; agree = agree })
    ]
  ]

  fold_event-Same :
      (e : Event) → Same (fold_event e (record a { by_message_id = i })) (fold_event e a)
  unfolding fold_event
  fold_event-Same (message_ingested e) = ingest-Same e
  fold_event-Same (message_expunged msg) = expunge-Same msg
  fold_event-Same (thread_merged into from) = merge-Same into from
  fold_event-Same _ = record { index = i; rest = refl; agree = agree }

seq-Same : (b a : Account) (n : ℕ) → Same b a → Same (record b { seq = n }) (record a { seq = n })
seq-Same b a n s = record {
  index = s.index;
  rest = ap (λ (x : Account). let y : Account = record x { seq = n } in y) s.rest;
  agree = s.agree;
}

pub apply-Same : (b a : Account) (r : Record) → Same b a → Same (apply b r) (apply a r)
unfolding apply
apply-Same b a r s = subst (λ (x : Account). Same (apply x r) (apply a r)) (sym s.rest) go
  where
    go : Same (apply (record a { by_message_id = s.index }) r) (apply a r)
    go = elim (Bool-cases (not (eqb r.seq 0) && leb r.seq a.seq)) [
      | inl old ↦ rw (apply, old) (record { index = s.index; rest = refl; agree = s.agree })
      | inr fresh ↦
          rw (apply, fresh) (seq-Same _ _ r.seq (fold_event-Same a s.index s.agree r.event))
    ]

on_message-Once :
    (id : MessageId) (f : Message → Message) (ms : Map Message)
    → Once ms
    → Once (on_message id f ms)
unfolding on_message
on_message-Once id f ms o = elim (Option-cases (lookup id ms)) [
  | inl absent ↦ rw (on_message, absent) o
  | inr (m, found) ↦ rw (on_message, found) (Once-insert id (f m) ms o)
]

move_all-Once :
    (into : MessageId) (ids : List MessageId) (ms : Map Message)
    → Once ms
    → Once (move_all into ids ms)
unfolding move_all
move_all-Once into [] ms o = o
move_all-Once into (id ∷ ids) ms o =
    move_all-Once into ids _ (on_message-Once id (move_to_thread into) ms o)

fold_event-Once : (e : Event) (a : Account) → Once a.messages → Once (fold_event e a).messages
unfolding fold_event ingest expunge merge_threads
fold_event-Once (message_ingested e) a o =
    elim (Bool-cases (is_some (lookup e.message_id a.messages))) [
      | inl old ↦ rw old o
      | inr fresh ↦ rw fresh (Once-insert e.message_id (new_message e) a.messages o)
    ]
fold_event-Once (labeled msg l) a o = on_message-Once msg (add_label l) a.messages o
fold_event-Once (unlabeled msg l) a o = on_message-Once msg (drop_label l) a.messages o
fold_event-Once (flag_set msg f v) a o = on_message-Once msg (put_flag f v) a.messages o
fold_event-Once (label_created l name kind) a o = o
fold_event-Once (label_renamed l name) a o = o
fold_event-Once (label_deleted l) a o = Once-map_values (drop_label l) a.messages o
fold_event-Once (message_expunged msg) a o = elim (Option-cases (lookup msg a.messages)) [
  | inl absent ↦ rw (expunge, absent) o
  | inr (m, stored) ↦ rw (expunge, stored) (Once-erase msg a.messages o)
]
fold_event-Once (thread_merged into from) a o =
    elim (Bool-cases ((into == from || into == "") || from == "")) [
      | inl skip ↦ rw (merge_threads, skip) o
      | inr go ↦ elim (Option-cases (lookup from a.threads)) [
        | inl absent ↦ rw (merge_threads, go, absent) o
        | inr (src, found) ↦
            rw (merge_threads, go, found) (move_all-Once into src.message_ids a.messages o)
      ]
    ]

pub apply-Once : (a : Account) (r : Record) → Once a.messages → Once (apply a r).messages
unfolding apply
apply-Once a r o = elim (Bool-cases (not (eqb r.seq 0) && leb r.seq a.seq)) [
  | inl old ↦ rw old o
  | inr fresh ↦ rw fresh (fold_event-Once r.event a o)
]
