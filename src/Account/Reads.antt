-- ===== src/Account/Reads.antt =====
-- The reads of internal/account/runtime.go. A copy of a message is the message.
use vulos_mail.Common.{
  ℕ, ◌+◌, ◌%◌, ◌^◌, ◌≡◌, refl, ◌∙◌, List, [], ◌∷◌, Bool, true, false, ◌&&◌, Option, none, some,
  eq_iff, elem, arith, Option-cases, inl, inr,
}
use vulos_mail.Common.Map.{Map, lookup, is_some}
use vulos_mail.Model.{MessageId, LabelId, BlobRef, Message}
use vulos_mail.EventLog.{Record, Log}
use vulos_mail.Projection
use vulos_mail.Projection.{with_label, messages_with_label, all_mail, has}
use vulos_mail.Projection.Invariant.{IsValid, has_id}
use vulos_mail.Account.{Services, Runtime}

-- the sum of the sizes, an int64 that is never negative
unfoldable pub total_size : List Message → ℕ
total_size [] = 0
total_size (m ∷ ms) = m.size + total_size ms

unfoldable pub blob_refs : Map Message → List BlobRef
blob_refs [] = []
blob_refs ((id, m) ∷ ms) = m.blob_ref ∷ blob_refs ms

module _ {l : Log} {s : Services} where
  unfoldable pub highest_seq : Runtime l s → ℕ
  highest_seq rt = rt.proj.seq

  unfoldable pub labeled_mail : Runtime l s → LabelId → List Message
  labeled_mail rt label = messages_with_label rt.proj label

  unfoldable pub listed_mail : Runtime l s → List Message
  listed_mail rt = all_mail rt.proj

  unfoldable pub mailbox_bytes : Runtime l s → ℕ
  unfolding total_size
  mailbox_bytes rt = total_size (all_mail rt.proj) % 2 ^ 64

  unfoldable pub message : Runtime l s → MessageId → Option Message
  message rt id = lookup id rt.proj.messages

  unfoldable pub live_blob_refs : Runtime l s → List BlobRef
  unfolding blob_refs
  live_blob_refs rt = blob_refs rt.proj.messages

  unfoldable pub log_records : Runtime l s → Option (List Record)
  log_records rt = l.read_from rt.log 1

unfoldable pub ids_of_mail : List Message → List MessageId
ids_of_mail [] = []
ids_of_mail (m ∷ ms) = m.id ∷ ids_of_mail ms

unfoldable pub carries : LabelId → Option Message → Bool
carries l none = false
carries l (some m) = has l m.labels

elem-with_label :
    (l : LabelId) (ms : Map Message) (ids : List MessageId) (id : MessageId)
    → ((i : MessageId) → has_id i (lookup i ms) ≡ true)
    → elem id (ids_of_mail (with_label l ms ids)) ≡ (elem id ids && carries l (lookup id ms))
unfolding elem with_label ids_of_mail carries
elem-with_label l ms [] id keyed = refl
elem-with_label l ms (i ∷ ids) id keyed = elim (Option-cases (lookup i ms)) [
  | inl none_e ↦ ground (arith, none_e, eq_iff i id, elem-with_label l ms ids id keyed)
  | inr (m, e) ↦ ground (
    arith,
    e,
    keyed i,
    eq_iff m.id i,
    eq_iff i id,
    eq_iff m.id id,
    elem-with_label l ms ids id keyed,
  )
]

only_stored :
    (b : Bool) (l : LabelId) (o : Option Message) → b ≡ is_some o → (b && carries l o) ≡ carries l o
unfolding carries
only_stored b l o e = ground (arith, e)

-- In a valid account the messages that are listed under a label are exactly the stored ones that carry it.
pub messages_with_label-exact :
    (a : Projection.Account) (l : LabelId) (id : MessageId)
    → IsValid a
    → elem id (ids_of_mail (messages_with_label a l)) ≡ carries l (lookup id a.messages)
unfolding messages_with_label
messages_with_label-exact a l id v =
    elem-with_label l a.messages a.order id v.keyed
    ∙ only_stored (elem id a.order) l (lookup id a.messages) (v.listed id)
