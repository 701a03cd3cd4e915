-- ===== src/Account/Dedup.antt =====
-- Deliveries of internal/account/runtime.go under one Message-ID header.
use vulos_mail.Common.{
  ℕ, ◌+◌, ◌≡◌, refl, ap, sym, subst, ◌∙◌, String, List, [], ◌∷◌, true, false, none, some, arith,
  Option-cases, inl, inr, length, ◌==◌, str_eq_refl,
}
use vulos_mail.Common.Map.{lookup}
use vulos_mail.Model.{MessageId, BlobRef, Envelope, LabelId, Flag}
use vulos_mail.Event.{Event, MessageIngested, message_ingested}
use vulos_mail.EventLog.{Record, Log, IsLawful}
use vulos_mail.Projection
use vulos_mail.Projection.{
  message_id_exists, apply, apply_all, fold_event, ingest as ingest_event, new_message,
}
use vulos_mail.Projection.Ingest.{lookup-index_header}
use vulos_mail.Projection.Fold.{seq-apply_all}
use vulos_mail.Projection.Indexed.{IsIndexed, IsNew, apply-IsIndexed, header-injective}
use vulos_mail.Projection.Invariant.{has_header}
use vulos_mail.Threading.{resolve}
use vulos_mail.Account.{
  Raw, Services, Runtime, Op, ingest, label, unlabel, set_flag, create_label, expunge, rename_label,
  delete_label, commit, add_message, deliver, ingest_message, step, run,
}
use vulos_mail.Account.Live.{IsLive, touch}

-- a record that is not skipped, for a message that is new under its id and its header
message_id_exists-apply :
    (a : Projection.Account) (r : Record) (e : MessageIngested)
    → r.event ≡ message_ingested e
    → r.seq ≡ a.seq + 1
    → lookup e.message_id a.messages ≡ none
    → (e.envelope.message_id_header == "") ≡ false
    → message_id_exists a e.envelope.message_id_header ≡ none
    → message_id_exists (apply a r) e.envelope.message_id_header ≡ some e.message_id
unfolding message_id_exists apply fold_event ingest_event
message_id_exists-apply a r e ev sq absent named fresh = rw ev (
    ground (
      arith,
      sq,
      absent,
      named,
      fresh,
      str_eq_refl e.envelope.message_id_header,
      lookup-index_header e.envelope.message_id_header e.envelope.message_id_header e.message_id
          a.by_message_id,
    ))

module _ (l : Log) (law : IsLawful l) (s : Services) where
  seq-IsLive : (rt : Runtime l s) → IsLive l law s rt → rt.proj.seq ≡ length (law.records rt.log)
  unfolding Projection.new
  seq-IsLive rt h =
      ap (λ (a : Projection.Account). a.seq) (sym h.folded)
      ∙ seq-apply_all Projection.new (law.records rt.log) h.numbered
      ∙ omega arith

  commit-IsIndexed :
      (now : ℕ) (actor : String) (e : Event) (rt : Runtime l s)
      → IsNew rt.proj e
      → IsIndexed rt.proj
      → IsIndexed (commit l s now actor e rt).1.proj
  unfolding commit
  commit-IsIndexed now actor e rt n x = elim (Option-cases (l.append rt.log now actor e).0) [
    | inl no_record ↦ rw no_record x
    | inr (r, appended) ↦ rw appended (
        apply-IsIndexed rt.proj r
          (subst (IsNew rt.proj) (sym (law.appended rt.log now actor e r appended).2) n) x)
  ]

  deliver-IsIndexed :
      (now : ℕ) (raw : Raw) (ref : BlobRef) (env : Envelope) (labels : List LabelId)
      (flags : List Flag) (rt : Runtime l s)
      → IsIndexed rt.proj
      → IsIndexed (deliver l s now raw ref env labels flags rt).1.proj
  unfolding deliver
  deliver-IsIndexed now raw ref env labels flags rt x =
      elim (Option-cases (message_id_exists rt.proj env.message_id_header)) [
        | inl new ↦ rw (new, deliver) (commit-IsIndexed now "ingest" _ _ new x)
        | inr (id, known) ↦ rw (known, deliver) x
      ]

  ingest_message-IsIndexed :
      (now : ℕ) (raw : Raw) (labels : List LabelId) (flags : List Flag) (rt : Runtime l s)
      → IsIndexed rt.proj
      → IsIndexed (ingest_message l s now raw labels flags rt).1.proj
  unfolding ingest_message
  ingest_message-IsIndexed now raw labels flags rt x = elim (Option-cases (s.parse raw)) [
    | inl bad ↦ rw (bad, ingest_message) x
    | inr (env, parsed) ↦ elim (Option-cases (s.put rt.store raw).0) [
      | inl failed ↦ rw (parsed, ingest_message) (rw failed x)
      | inr (ref, stored) ↦
          rw (parsed, ingest_message)
            (rw stored (deliver-IsIndexed now raw ref env labels flags _ x))
    ]
  ]

  step-IsIndexed :
      (now : ℕ) (op : Op) (rt : Runtime l s)
      → IsIndexed rt.proj
      → IsIndexed (step l s now op rt).proj
  unfolding step
  step-IsIndexed now (ingest raw labels flags) rt x =
      ingest_message-IsIndexed now raw labels flags rt x
  step-IsIndexed now (label msg l') rt x = commit-IsIndexed now "user" _ rt tt x
  step-IsIndexed now (unlabel msg l') rt x = commit-IsIndexed now "user" _ rt tt x
  step-IsIndexed now (set_flag msg f v) rt x = commit-IsIndexed now "user" _ rt tt x
  step-IsIndexed now (create_label l' name kind) rt x = commit-IsIndexed now "user" _ rt tt x
  step-IsIndexed now (expunge msg) rt x = commit-IsIndexed now "user" _ rt tt x
  step-IsIndexed now (rename_label l' name) rt x = commit-IsIndexed now "user" _ rt tt x
  step-IsIndexed now (delete_label l') rt x = commit-IsIndexed now "user" _ rt tt x

  pub run-IsIndexed :
      (ops : List (ℕ × Op)) (rt : Runtime l s) → IsIndexed rt.proj → IsIndexed (run l s ops rt).proj
  unfolding run
  run-IsIndexed [] rt x = x
  run-IsIndexed ((now, op) ∷ ops) rt x =
      run-IsIndexed ops (step l s now op rt) (step-IsIndexed now op rt x)

  -- On an account whose index is complete, such as a new one, whatever calls are made, failing ones
  -- included: no two stored messages carry the same non-empty Message-ID header.
  pub run-header_injective :
      (ops : List (ℕ × Op)) (rt : Runtime l s) (h : String) (i j : MessageId)
      → IsIndexed rt.proj
      → (h == "") ≡ false
      → has_header h (lookup i (run l s ops rt).proj.messages) ≡ true
      → has_header h (lookup j (run l s ops rt).proj.messages) ≡ true
      → i ≡ j
  run-header_injective ops rt h i j x ne p q =
      header-injective (run l s ops rt).proj h i j (run-IsIndexed ops rt x) ne p q

  -- the id that the generator makes for a new message
  abbrev pub new_id : Envelope → Runtime l s → MessageId
  new_id env rt = (s.next (resolve s.next env rt.threader rt.ids).2).0

  -- after a delivery that returned an id, the index gives that id for the header
  add_message-known :
      (now : ℕ) (raw : Raw) (ref : BlobRef) (env : Envelope) (labels : List LabelId)
      (flags : List Flag) (rt : Runtime l s) (id : MessageId)
      → IsLive l law s rt
      → lookup (new_id env rt) rt.proj.messages ≡ none
      → (env.message_id_header == "") ≡ false
      → message_id_exists rt.proj env.message_id_header ≡ none
      → (add_message l s now raw ref env labels flags rt).0 ≡ some id
      → message_id_exists
          (add_message l s now raw ref env labels flags rt).1.proj
          env.message_id_header
        ≡ some id
  unfolding add_message commit
  add_message-known now raw ref env labels flags rt id h unused named fresh e =
      elim (Option-cases (l.append rt.log now "ingest" ev).0) [
        | inl no_record ↦ absurd (cc (rw no_record at e))
        | inr (r, appended) ↦ rw appended (
            message_id_exists-apply rt.proj r m (law.appended rt.log now "ingest" ev r appended).2
              ((law.appended rt.log now "ingest" ev r appended).1
                ∙ ap (λ (n : ℕ). n + 1) (sym (seq-IsLive rt h)))
              unused named fresh
            ∙ rw appended at e)
      ]
    where
      m : MessageIngested
      m = record {
        message_id = (s.next (resolve s.next env rt.threader rt.ids).2).0;
        blob_ref = ref;
        envelope = env;
        size = length raw;
        thread_id = (resolve s.next env rt.threader rt.ids).0;
        initial_labels = labels;
        initial_flags = flags;
      }

      ev : Event
      ev = message_ingested m

  deliver-known :
      (now : ℕ) (raw : Raw) (ref : BlobRef) (env : Envelope) (labels : List LabelId)
      (flags : List Flag) (rt : Runtime l s) (id : MessageId)
      → IsLive l law s rt
      → lookup (new_id env rt) rt.proj.messages ≡ none
      → (env.message_id_header == "") ≡ false
      → (deliver l s now raw ref env labels flags rt).0 ≡ some id
      → message_id_exists (deliver l s now raw ref env labels flags rt).1.proj env.message_id_header
        ≡ some id
  unfolding deliver
  deliver-known now raw ref env labels flags rt id h unused named e =
      elim (Option-cases (message_id_exists rt.proj env.message_id_header)) [
        | inl new ↦
            rw (new, deliver)
              (add_message-known now raw ref env labels flags rt id h unused named new
                (rw (new, deliver) at e))
        | inr (old, known) ↦ rw (known, deliver) (known ∙ rw (known, deliver) at e)
      ]

  ingest_message-known :
      (now : ℕ) (raw : Raw) (labels : List LabelId) (flags : List Flag) (rt : Runtime l s)
      (env : Envelope) (id : MessageId)
      → IsLive l law s rt
      → lookup (new_id env rt) rt.proj.messages ≡ none
      → s.parse raw ≡ some env
      → (env.message_id_header == "") ≡ false
      → (ingest_message l s now raw labels flags rt).0 ≡ some id
      → message_id_exists (ingest_message l s now raw labels flags rt).1.proj env.message_id_header
        ≡ some id
  unfolding ingest_message
  ingest_message-known now raw labels flags rt env id h unused parsed named e =
      elim (Option-cases (s.put rt.store raw).0) [
        | inl failed ↦ absurd (cc (rw failed at (rw (parsed, ingest_message) at e)))
        | inr (ref, stored) ↦
            rw (parsed, ingest_message)
              (rw stored (
                deliver-known now raw ref env labels flags _ id (touch l law s rt _ refl refl h)
                  unused named (rw stored at (rw (parsed, ingest_message) at e))))
      ]

  repeated :
      (now : ℕ) (raw : Raw) (labels : List LabelId) (flags : List Flag) (rt : Runtime l s)
      (env : Envelope) (id : MessageId) (ref : BlobRef)
      → s.parse raw ≡ some env
      → (s.put rt.store raw).0 ≡ some ref
      → message_id_exists rt.proj env.message_id_header ≡ some id
      → let again = ingest_message l s now raw labels flags rt in
        (again.0 ≡ some id)
        × (again.1.log ≡ rt.log)
        × (again.1.proj ≡ rt.proj)
        × (again.1.notified ≡ rt.notified)
  unfolding ingest_message
  repeated now raw labels flags rt env id ref parsed stored known =
      rw (parsed, ingest_message) (rw stored (rw (known, deliver) (refl, refl, refl, refl)))

  -- A delivery that returned an id is repeated, with any raw text that has the same non-empty
  -- Message-ID, any labels and any flags, while the id that the generator made for the first is unused
  -- and the body can be stored: the repetition returns the same id and leaves the log, the projection
  -- and the notifications as they are.
  pub ingest_again :
      (now : ℕ) (raw : Raw) (labels : List LabelId) (flags : List Flag) (rt : Runtime l s)
      (env : Envelope) (id : MessageId) (now' : ℕ) (raw' : Raw) (labels' : List LabelId)
      (flags' : List Flag) (env' : Envelope) (ref : BlobRef)
      → IsLive l law s rt
      → lookup (new_id env rt) rt.proj.messages ≡ none
      → s.parse raw ≡ some env
      → (env.message_id_header == "") ≡ false
      → (ingest_message l s now raw labels flags rt).0 ≡ some id
      → s.parse raw' ≡ some env'
      → env'.message_id_header ≡ env.message_id_header
      → (s.put (ingest_message l s now raw labels flags rt).1.store raw').0 ≡ some ref
      → let rt' = (ingest_message l s now raw labels flags rt).1 in
        let again = ingest_message l s now' raw' labels' flags' rt' in
        (again.0 ≡ some id)
        × (again.1.log ≡ rt'.log)
        × (again.1.proj ≡ rt'.proj)
        × (again.1.notified ≡ rt'.notified)
  ingest_again now raw labels flags rt env id now' raw' labels' flags' env' ref h unused parsed
        named e parsed' same stored =
      repeated now' raw' labels' flags' (ingest_message l s now raw labels flags rt).1 env' id ref
        parsed' stored
        (rw same (ingest_message-known now raw labels flags rt env id h unused parsed named e))
