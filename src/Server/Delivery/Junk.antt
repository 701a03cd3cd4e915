-- ===== src/Server/Delivery/Junk.antt =====
-- What a delivery to junk of internal/server/manager.go leaves alone.
use vulos_mail.Common.{
  ℕ, ◌≡◌, refl, List, [], ◌∷◌, Bool, true, false, Option, none, some, elem, Bool-cases, inl, inr,
  ◌⊎◌, length,
}
use vulos_mail.Model.{label_inbox, label_spam}
use vulos_mail.EventLog.{Log, IsLawful}
use vulos_mail.Projection.{messages_with_label}
use vulos_mail.Projection.Invariant.{IsValid}
use vulos_mail.Account.{Services, Runtime, Raw}
use vulos_mail.Account.Reads.{mailbox_bytes}
use vulos_mail.Account.Labels.{messages_with_label-ingest_message}
use vulos_mail.Guards.Filter.{Action, accept, junk, reject, Scanner}
use vulos_mail.Server.Limits.{Plan}
use vulos_mail.Server.Delivery.{label_for, verdict_on, is_over_plan, store_under, deliver}

-- a verdict under which the mail of the MX does not go to the inbox
abbrev pub IsSuspect : Bool → Action → Type 0
IsSuspect true a = Unit
IsSuspect false accept = ⊥
IsSuspect false _ = Unit

label_for_suspect :
    (force : Bool) (a : Action)
    → IsSuspect force a
    → (label_for force a ≡ none) ⊎ (label_for force a ≡ some label_spam)
unfolding label_for
label_for_suspect true accept h = inr refl
label_for_suspect true junk h = inr refl
label_for_suspect true reject h = inl refl
label_for_suspect false accept h = elim h [ ]
label_for_suspect false junk h = inr refl
label_for_suspect false reject h = inl refl

module _ (l : Log) (law : IsLawful l) (s : Services) where
  store_under-inbox :
      (now : ℕ) (raw : Raw) (rt : Runtime l s)
      → IsValid rt.proj
      → messages_with_label (store_under l s label_spam now raw rt).1.proj label_inbox
        ≡ messages_with_label rt.proj label_inbox
  unfolding store_under elem
  store_under-inbox now raw rt v =
      messages_with_label-ingest_message l law s label_inbox now raw (label_spam ∷ []) [] rt v refl

  -- On a valid account over a lawful log, whatever the plan is, a message that the MX delivers as junk, or that the
  -- chain of scanners holds for junk or rejects, leaves the mail in the inbox as it is.
  pub inbox-deliver_junk :
      (plan : Option Plan) (chain : Option (List Scanner)) (force : Bool) (now : ℕ) (raw : Raw)
      (rt : Runtime l s)
      → IsValid rt.proj
      → IsSuspect force (verdict_on chain raw).action
      → messages_with_label (deliver l s plan chain force now raw rt).1.proj label_inbox
        ≡ messages_with_label rt.proj label_inbox
  unfolding deliver
  inbox-deliver_junk plan chain force now raw rt v suspect =
      elim (Bool-cases (is_over_plan plan (mailbox_bytes rt) (length raw))) [
        | inl over ↦ rw over refl
        | inr fits ↦ rw fits (elim (label_for_suspect force (verdict_on chain raw).action suspect) [
          | inl none_e ↦ rw (deliver, none_e) refl
          | inr spam ↦ rw (deliver, spam) (store_under-inbox now raw rt v)
        ])
      ]
