-- ===== src/Projection/Snapshot/Index.antt =====
-- The Message-ID index that `Restore` of internal/projection/projection.go rebuilds.
use vulos_mail.Common.{
  ◌≡◌, sym, ◌∙◌, String, [], ◌∷◌, true, false, not, ◌&&◌, some, arith, ◌==◌, eq_iff, if◌then◌else◌,
  Option-cases, Bool-cases, inl, inr, str_eq_refl,
}
use vulos_mail.Common.Map.{Map, is_some, lookup, lookup-insert}
use vulos_mail.Common.Map.Keys.{Once}
use vulos_mail.Model.{MessageId, Message}
use vulos_mail.Projection.{Account}
use vulos_mail.Projection.Invariant.{IsValid, has_header}
use vulos_mail.Projection.Indexed.{IsIndexed}
use vulos_mail.Projection.Snapshot.{index_of}

lookup-index_of_cons :
    (h : String) (id : MessageId) (m : Message) (ms : Map Message)
    → lookup h (index_of ((id, m) ∷ ms)) ≡ (
        if not (h == "") && m.envelope.message_id_header == h
        then some id
        else lookup h (index_of ms))
unfolding index_of
lookup-index_of_cons h id m ms =
    let mid = m.envelope.message_id_header in
    ground (arith, eq_iff mid "", eq_iff h "", eq_iff mid h, lookup-insert mid h id (index_of ms))

-- an entry names a stored message with its header
sound :
    (h : String) (id : MessageId) (ms : Map Message)
    → Once ms
    → lookup h (index_of ms) ≡ some id
    → (h == "" ≡ false) × (has_header h (lookup id ms) ≡ true)
unfolding lookup
sound h id [] o e = absurd (unfold index_of in cc e)
sound h id ((i, m) ∷ ms) o e =
    elim (Bool-cases (not (h == "") && m.envelope.message_id_header == h)) [
      | inl here ↦
          ground (arith, here, lookup-index_of_cons h i m ms, e, str_eq_refl i, eq_iff i id)
      | inr there ↦
          let ih = sound h id ms o.1 (ground (arith, there, lookup-index_of_cons h i m ms, e)) in
          ground (arith, ih.0, ih.1, o.0, eq_iff i id)
    ]

-- a header that a stored message has is indexed
complete :
    (h : String) (id : MessageId) (ms : Map Message)
    → (h == "") ≡ false
    → has_header h (lookup id ms) ≡ true
    → is_some (lookup h (index_of ms)) ≡ true
unfolding lookup
complete h id [] ne p = absurd (ground (arith, p))
complete h id ((i, m) ∷ ms) ne p = elim (Bool-cases (m.envelope.message_id_header == h)) [
  | inl here ↦ ground (arith, ne, here, lookup-index_of_cons h i m ms)
  | inr there ↦ ground (arith, ne, there, p, lookup-index_of_cons h i m ms, complete h id ms ne)
]

-- the rebuilt index agrees with the one of an account that is valid and completely indexed
pub lookup-index_of :
    (a : Account) (h : String)
    → IsValid a
    → IsIndexed a
    → Once a.messages
    → lookup h (index_of a.messages) ≡ lookup h a.by_message_id
lookup-index_of a h v x o = elim (Option-cases (lookup h (index_of a.messages))) [
  | inl absent ↦ elim (Option-cases (lookup h a.by_message_id)) [
    | inl none_e ↦ absent ∙ sym none_e
    | inr (id, e) ↦
        absurd
          (ground (arith, absent, e, v.unnamed, v.indexed h, eq_iff h "", complete h id a.messages))
  ]
  | inr (id, e) ↦ let s = sound h id a.messages o e in e ∙ sym (x h id s.0 s.1)
]
