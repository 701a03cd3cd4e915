-- ===== src/Server/Delivery.antt =====
-- The delivery of mail to an account: `deliver`, `account` and the push tokens of internal/server/manager.go.
-- strings.ToLower and the outcome of LogOpen are arguments; an entitlement that is not known is `none`. Metrics and the reports of usage are left out, and a time is a number of nanoseconds.
pub mod Junk
use vulos_mail.Common.{
  ℕ, ◌+◌, String, List, [], ◌∷◌, ◌++◌, Bool, true, false, not, ◌&&◌, ◌||◌, Option, none, some, ◌==◌,
  eqb, ltb, if◌then◌else◌, length,
}
use vulos_mail.Common.Map.{Map, is_some, lookup, insert, erase, filter_values}
use vulos_mail.Common.Text.{cat, after_last, before_first, has_prefix, contains, ascii}
use vulos_mail.Model.{LabelId, Envelope, label_inbox, label_spam}
use vulos_mail.EventLog.{Log}
use vulos_mail.Account.{Services, Runtime, Raw, open_runtime, ingest_message}
use vulos_mail.Account.Reads.{mailbox_bytes}
use vulos_mail.Guards.Filter.{Action, accept, junk, reject, Verdict, Scanner, scan_chain}
use vulos_mail.Inbound.Smtp.{cut_before}
use vulos_mail.Mtaout.{OutMessage, transactional}
use vulos_mail.Server.Limits.{Plan, is_over}

-- what becomes of a delivery
pub data Outcome : Type 0 where
  stored_under : LabelId → Outcome
  over_quota not_stored : Outcome
  rejected : String → Outcome

-- the label after the chain; `none` where it rejects, with its reason
unfoldable pub label_for : Bool → Action → Option LabelId
label_for force_junk reject = none
label_for force_junk junk = some label_spam
label_for force_junk accept = some (if force_junk then label_spam else label_inbox)

unfoldable pub verdict_on : Option (List Scanner) → Raw → Verdict
unfolding scan_chain
verdict_on none raw = record { action = accept; reason = "" }
verdict_on (some chain) raw = scan_chain chain raw

-- the test of the storage cap; a cap of 0 is none
unfoldable pub is_over_plan : Option Plan → ℕ → ℕ → Bool
unfolding is_over
is_over_plan none used bytes = false
is_over_plan (some plan) used bytes = ltb 0 plan.max_bytes && is_over used bytes plan.max_bytes

module _ (l : Log) (s : Services) where
  -- the call of `Ingest` of `deliver`
  unfoldable pub store_under : LabelId → ℕ → Raw → Runtime l s → Outcome × Runtime l s
  store_under dest now raw rt =
      let (res, rt') = ingest_message l s now raw (dest ∷ []) [] rt in
      (elim res [ none ↦ not_stored | some id ↦ stored_under dest ], rt')

  -- `deliver`, once the account is open and its plan is known
  unfoldable pub deliver :
      Option Plan → Option (List Scanner) → Bool → ℕ → Raw → Runtime l s → Outcome × Runtime l s
  unfolding is_over_plan verdict_on label_for store_under
  deliver plan chain force_junk now raw rt =
      if is_over_plan plan (mailbox_bytes rt) (length raw)
      then (over_quota, rt)
      else (let v = verdict_on chain raw in
          elim (label_for force_junk v.action) [
            | none ↦ (rejected (cat "message rejected: " v.reason), rt)
            | some dest ↦ store_under dest now raw rt
          ])

  -- `account`: the open runtime, or that of the directory if the account exists
  unfoldable pub account_of :
      (String → String)
      → (String → Bool)
      → (String → Option l.State)
      → s.Store
      → s.Gen
      → String
      → Map (Runtime l s)
      → Option (Runtime l s) × Map (Runtime l s)
  account_of lower exists log_open store gen address accounts =
      let key = lower address in
      elim (lookup key accounts) [
        | some rt ↦ (some rt, accounts)
        | none ↦ if not (exists key) then (none, accounts) else elim (log_open key) [
          | none ↦ (none, accounts)
          | some log ↦ elim (open_runtime l s log store gen) [
            | none ↦ (none, accounts)
            | some rt ↦ (some rt, insert key rt accounts)
          ]
        ]
      ]

-- `pushTok`
pub record PushTok : Type 0 where
  pub account : String
  pub expires : ℕ

-- `PushToken` with a token that was drawn, which takes away those that have expired
unfoldable pub push_token : (String → String) → ℕ → String → String → Map PushTok → Map PushTok
push_token lower now token account tokens =
    insert token (record { account = lower account; expires = now + 86400000000000 })
      (filter_values (λ t. if ltb t.expires now then none else some t) tokens)

-- `AccountForToken`
unfoldable pub account_for_token : ℕ → String → Map PushTok → Option String × Map PushTok
account_for_token now token tokens = elim (lookup token tokens) [
  | none ↦ (none, erase token tokens)
  | some t ↦ if ltb t.expires now then (none, erase token tokens) else (some t.account, tokens)
]
