-- ===== src/Account/Steps.antt =====
-- What each call of internal/account/runtime.go does to the log and the projection: at most one commit, of an
-- event whose Message-ID is new.
use vulos_mail.Common.{ℕ, String, List, Option-cases, inl, inr}
use vulos_mail.Model.{BlobRef, LabelId, Flag, Envelope}
use vulos_mail.Event.{Event}
use vulos_mail.EventLog.{Log}
use vulos_mail.Projection
use vulos_mail.Projection.{message_id_exists}
use vulos_mail.Projection.Indexed.{IsNew}
use vulos_mail.Account.{
  Raw, Services, Runtime, Op, ingest, label, unlabel, set_flag, create_label, expunge, rename_label,
  delete_label, commit, deliver, ingest_message, step,
}

module _ (l : Log) (s : Services) (P Q : l.State → Projection.Account → Type 0)
    (stay : (log : l.State) (a : Projection.Account) → P log a → Q log a)
    (go : (now : ℕ) (actor : String) (e : Event) (rt : Runtime l s)
      → IsNew rt.proj e
      → P rt.log rt.proj
      → Q (commit l s now actor e rt).1.log (commit l s now actor e rt).1.proj) where
  deliver-keeps :
      (now : ℕ) (raw : Raw) (ref : BlobRef) (env : Envelope) (labels : List LabelId)
      (flags : List Flag) (rt : Runtime l s)
      → P rt.log rt.proj
      → Q
          (deliver l s now raw ref env labels flags rt).1.log
          (deliver l s now raw ref env labels flags rt).1.proj
  unfolding deliver
  deliver-keeps now raw ref env labels flags rt x =
      elim (Option-cases (message_id_exists rt.proj env.message_id_header)) [
        | inl new ↦ rw (new, deliver) (go now "ingest" _ _ new x)
        | inr (id, known) ↦ rw (known, deliver) (stay rt.log rt.proj x)
      ]

  ingest_message-keeps :
      (now : ℕ) (raw : Raw) (labels : List LabelId) (flags : List Flag) (rt : Runtime l s)
      → P rt.log rt.proj
      → Q
          (ingest_message l s now raw labels flags rt).1.log
          (ingest_message l s now raw labels flags rt).1.proj
  unfolding ingest_message
  ingest_message-keeps now raw labels flags rt x = elim (Option-cases (s.parse raw)) [
    | inl bad ↦ rw (bad, ingest_message) (stay rt.log rt.proj x)
    | inr (env, parsed) ↦ elim (Option-cases (s.put rt.store raw).0) [
      | inl failed ↦ rw (parsed, ingest_message) (rw failed (stay rt.log rt.proj x))
      | inr (ref, stored) ↦
          rw (parsed, ingest_message) (rw stored (deliver-keeps now raw ref env labels flags _ x))
    ]
  ]

  -- the principle that the invariants of the runtime are proved by
  pub step-keeps :
      (now : ℕ) (op : Op) (rt : Runtime l s)
      → P rt.log rt.proj
      → Q (step l s now op rt).log (step l s now op rt).proj
  unfolding step
  step-keeps now (ingest raw labels flags) rt x = ingest_message-keeps now raw labels flags rt x
  step-keeps now (label msg l') rt x = go now "user" _ rt tt x
  step-keeps now (unlabel msg l') rt x = go now "user" _ rt tt x
  step-keeps now (set_flag msg f v) rt x = go now "user" _ rt tt x
  step-keeps now (create_label l' name kind) rt x = go now "user" _ rt tt x
  step-keeps now (expunge msg) rt x = go now "user" _ rt tt x
  step-keeps now (rename_label l' name) rt x = go now "user" _ rt tt x
  step-keeps now (delete_label l') rt x = go now "user" _ rt tt x
