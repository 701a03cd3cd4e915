-- ===== src/Account/Labels.antt =====
-- The mail under a label that a delivery does not give: `Ingest` of internal/account/runtime.go.
use vulos_mail.Common.{
  ℕ, ◌≡◌, refl, ◌∙◌, String, List, [], ◌∷◌, ◌++◌, Bool, true, false, not, ◌&&◌, eqb, leb, elem,
  arith, eq_iff, Bool-cases, Option-cases, inl, inr, str_eq_refl,
}
use vulos_mail.Common.Map.{Map, lookup, insert, lookup-insert, is_some}
use vulos_mail.Model.{MessageId, LabelId, Flag, Message}
use vulos_mail.Event.{MessageIngested, message_ingested}
use vulos_mail.EventLog.{Record, Log, IsLawful}
use vulos_mail.Projection
use vulos_mail.Projection.{
  has, with_label, messages_with_label, set_all, new_message, apply, fold_event,
  ingest as ingest_event, message_id_exists,
}
use vulos_mail.Projection.Invariant.{IsValid}
use vulos_mail.Account.{
  Raw, Services, Runtime, commit, committed, deliver, add_message, ingest_message,
}

has-set_all :
    (l : LabelId) (ls : List String) (m : Map Bool)
    → elem l ls ≡ false
    → has l (set_all ls m) ≡ has l m
unfolding set_all elem
has-set_all l [] m h = refl
has-set_all l (x ∷ ls) m h =
    has-set_all l ls (insert x true m) (ground (arith, h))
    ∙ ground (arith, h, lookup-insert x l true m, eq_iff x l)

with_label-snoc :
    (l : LabelId) (id : MessageId) (m : Message) (ms : Map Message) (ids : List MessageId)
    → elem id ids ≡ false
    → has l m.labels ≡ false
    → with_label l (insert id m ms) (ids ++ id ∷ []) ≡ with_label l ms ids
unfolding with_label elem
with_label-snoc l id m ms [] absent other =
    rw (with_label, lookup-insert, str_eq_refl id, other) refl
with_label-snoc l id m ms (i ∷ ids) absent other = ground (
  arith,
  absent,
  lookup-insert id i m ms,
  eq_iff id i,
  eq_iff i id,
  with_label-snoc l id m ms ids,
  other,
)

messages_with_label-ingest :
    (e : MessageIngested) (a : Projection.Account) (l : LabelId)
    → IsValid a
    → elem l e.initial_labels ≡ false
    → messages_with_label (ingest_event e a) l ≡ messages_with_label a l
unfolding messages_with_label ingest_event new_message lookup
messages_with_label-ingest e a l v other =
    elim (Bool-cases (is_some (lookup e.message_id a.messages))) [
      | inl known ↦ rw known refl
      | inr new ↦ rw new (
          with_label-snoc l e.message_id (new_message e) a.messages a.order
            (v.listed e.message_id ∙ new) (has-set_all l e.initial_labels [] other))
    ]

messages_with_label-apply :
    (a : Projection.Account) (r : Record) (e : MessageIngested) (l : LabelId)
    → r.event ≡ message_ingested e
    → IsValid a
    → elem l e.initial_labels ≡ false
    → messages_with_label (apply a r) l ≡ messages_with_label a l
unfolding apply fold_event
messages_with_label-apply a r e l ev v other =
    elim (Bool-cases (not (eqb r.seq 0) && leb r.seq a.seq)) [
      | inl folded ↦ rw folded refl
      | inr fresh ↦
          rw (fresh, ev) (unfold messages_with_label in messages_with_label-ingest e a l v other)
    ]

module _ (l : Log) (law : IsLawful l) (s : Services) (dest : LabelId) where
  -- what a delivery keeps
  Keeps : Projection.Account → Runtime l s → Type 0
  Keeps a rt = messages_with_label rt.proj dest ≡ messages_with_label a dest

  messages_with_label-commit :
      (now : ℕ) (actor : String) (e : MessageIngested) (rt : Runtime l s)
      → IsValid rt.proj
      → elem dest e.initial_labels ≡ false
      → Keeps rt.proj (commit l s now actor (message_ingested e) rt).1
  unfolding commit committed Keeps
  messages_with_label-commit now actor e rt v other =
      elim (Option-cases (l.append rt.log now actor (message_ingested e)).0) [
        | inl no_record ↦ rw (commit, no_record) refl
        | inr (r, appended) ↦
            rw (commit, appended)
              (messages_with_label-apply rt.proj r e dest
                (law.appended rt.log now actor (message_ingested e) r appended).2 v other)
      ]

  -- A delivery that does not give a label leaves the mail under that label as it is.
  pub messages_with_label-ingest_message :
      (now : ℕ) (raw : Raw) (labels : List LabelId) (flags : List Flag) (rt : Runtime l s)
      → IsValid rt.proj
      → elem dest labels ≡ false
      → messages_with_label (ingest_message l s now raw labels flags rt).1.proj dest
        ≡ messages_with_label rt.proj dest
  unfolding ingest_message deliver add_message Keeps
  messages_with_label-ingest_message now raw labels flags rt v other =
      elim (Option-cases (s.parse raw)) [
        | inl bad ↦ rw (ingest_message, bad) refl
        | inr (env, parsed) ↦ elim (Option-cases (s.put rt.store raw).0) [
          | inl failed ↦ rw (ingest_message, parsed) (rw failed refl)
          | inr (ref, stored) ↦
              rw (ingest_message, parsed)
                (rw stored (elim (Option-cases (message_id_exists rt.proj env.message_id_header)) [
                  | inl new ↦
                      rw (deliver, new) (messages_with_label-commit now "ingest" _ _ v other)
                  | inr (id, known) ↦ rw (deliver, known) refl
                ]))
        ]
      ]
