-- ===== src/Inbound/Submission.antt =====
-- adapters/smtp/submission.go: the session of a client that submits mail. What the backend calls acts on a world `Q`
-- of its own: the runtime of a login (`R`), the abuse filter, the quota and the scheduler. The parser, the signer and
-- strings.EqualFold (`fold`) are arguments. A refusal is its SMTP code.
pub mod Sender
use vulos_mail.Common.{
  ℕ, ◌+◌, String, List, [], ◌∷◌, ◌++◌, Bool, true, false, not, ◌&&◌, ◌||◌, Option, none, some, ◌==◌,
  if◌then◌else◌, length,
}
use vulos_mail.Common.Map.{Map, lookup, insert, is_some}
use vulos_mail.Common.Text.{after_last}
use vulos_mail.Model.{Envelope}
use vulos_mail.Account.{Raw}
use vulos_mail.Guards.Abuse.{Action, allow, throttle, block, suspend}
use vulos_mail.Guards.Authlimit.{Limiter, any_locked, fail, success}
use vulos_mail.Inbound.Smtp.{Reply, accepted, failed, refused}
use vulos_mail.Mtaout.{OutMessage, TrafficClass}

pub record SubmitBackend (R Q : Type 0) : Type 0 where
  pub auth : String → String → Option (R × String)
  pub enqueue : Q → OutMessage → Bool × Q
  pub class : TrafficClass
  pub sign : Option (String → Raw → Option Raw)
  pub abuse : Option (Q → String → ℕ → Action × Q)
  pub quota : Option (Q → String → ℕ → Bool × Q)
  pub ingest_sent : Q → R → Raw → Bool × Q
  pub parse : Raw → Option Envelope
  pub fold : String → String → Bool

-- `submitSession`; the runtime and the tenant are there after a login
pub record SubmitSession (R : Type 0) : Type 0 where
  pub login : Option (R × String)
  pub account : String
  pub from : String
  pub rcpts : List String

-- `domainOf`
unfoldable pub domain_after : String → String
domain_after address = elim (after_last 64 address) [ none ↦ "" | some d ↦ d ]

-- the loop over the recipients
unfoldable pub rcpts_by_domain : List String → Map (List String) → Map (List String)
unfolding domain_after
rcpts_by_domain [] m = m
rcpts_by_domain (r ∷ rs) m = rcpts_by_domain rs (
    insert (domain_after r)
      (elim (lookup (domain_after r) m) [ none ↦ r ∷ [] | some xs ↦ xs ++ r ∷ [] ]) m)

-- the code of the abuse filter
unfoldable pub abuse_code : Action → Option ℕ
abuse_code allow = none
abuse_code throttle = some 451
abuse_code block = some 554
abuse_code suspend = some 554

module _ {R : Type 0} where
  -- `Rcpt`
  unfoldable pub submit_rcpt : String → SubmitSession R → SubmitSession R
  submit_rcpt to s = record s { rcpts = s.rcpts ++ to ∷ [] }

  -- `Reset`
  unfoldable pub submit_reset : SubmitSession R → SubmitSession R
  submit_reset s = record s { from = ""; rcpts = [] }

  -- the sender of the envelope, or the account
  unfoldable pub effective_from : SubmitSession R → String
  effective_from s = if s.from == "" then s.account else s.from

module _ {R Q : Type 0} (b : SubmitBackend R Q) where
  -- the closure of `Auth`
  unfoldable pub authenticate :
      ℕ
      → String
      → String
      → String
      → Option Limiter
      → SubmitSession R
      → (Bool × SubmitSession R) × Option Limiter
  authenticate now ip name password none s = elim (b.auth name password) [
    | none ↦ ((false, s), none)
    | some rt ↦ ((true, record s { login = some rt; account = name }), none)
  ]
  authenticate now ip name password (some lim) s =
      let (shut, lim') = any_locked now (ip ∷ name ∷ []) lim in
      if shut then ((false, s), some lim') else elim (b.auth name password) [
        | none ↦ ((false, s), some (fail now (ip ∷ name ∷ []) lim'))
        | some rt ↦ (
          (true, record s { login = some rt; account = name }),
          some (success (ip ∷ name ∷ []) lim'),
        )
      ]

  -- `Mail`
  unfoldable pub submit_mail : String → SubmitSession R → Reply × SubmitSession R
  submit_mail from s =
      if not (is_some s.login)
      then (refused 502, s)
      else if not (from == "") && not (b.fold from s.account)
      then (refused 550, s)
      else (accepted, record s { from = from })

  -- the first From of the message is the account
  unfoldable pub is_own_from : String → Raw → Bool
  is_own_from account raw = elim (b.parse raw) [
    | none ↦ false
    | some env ↦ elim (env.from_addrs) [ [] ↦ false | a ∷ more ↦ b.fold a account ]
  ]

  unfoldable pub abuse_gate : String → ℕ → Q → Option ℕ × Q
  unfolding abuse_code
  abuse_gate account n q = elim (b.abuse) [
    | none ↦ (none, q)
    | some check ↦ let (action, q') = check q account n in (abuse_code action, q')
  ]

  unfoldable pub quota_gate : String → ℕ → Q → Option ℕ × Q
  quota_gate account n q = elim (b.quota) [
    | none ↦ (none, q)
    | some check ↦ let (ok, q') = check q account n in (if ok then none else some 452, q')
  ]

  unfoldable pub sign_from : String → Raw → Raw
  sign_from sender raw = elim (b.sign) [
    | none ↦ raw
    | some sign ↦ elim (sign (domain_after sender) raw) [ none ↦ raw | some r ↦ r ]
  ]

  unfoldable pub submitted : String → String → Raw → String → List String → OutMessage
  submitted tenant sender raw domain rcpts = record {
    id = "";
    tenant = tenant;
    from_domain = domain_after sender;
    rcpt_domain = domain;
    from_addr = sender;
    rcpts = rcpts;
    raw = raw;
    class = b.class;
  }

  -- the loop over the domains: the reply, and the messages that were handed to the scheduler
  unfoldable pub hand_over :
      String → String → Raw → Map (List String) → Q → (Reply × List OutMessage) × Q
  unfolding submitted
  hand_over tenant sender raw [] q = ((accepted, []), q)
  hand_over tenant sender raw ((d, rcpts) ∷ rest) q =
      let m = submitted tenant sender raw d rcpts in
      let (ok, q') = b.enqueue q m in
      let ((reply, handed), end) = hand_over tenant sender raw rest q' in
      if ok then ((reply, m ∷ handed), end) else ((refused 451, m ∷ []), q')

  -- `Data` behind its gates
  unfoldable pub send_submitted :
      R × String → Raw → SubmitSession R → Q → (Reply × List OutMessage) × Q
  unfolding sign_from hand_over effective_from rcpts_by_domain
  send_submitted (rt, tenant) raw s q =
      let out = sign_from (effective_from s) raw in
      let (stored, q') = b.ingest_sent q rt out in
      if stored
      then hand_over tenant (effective_from s) out (rcpts_by_domain s.rcpts []) q'
      else ((failed, []), q')

  -- `Data` of a message that could be read
  unfoldable pub submit_data : Raw → SubmitSession R → Q → (Reply × List OutMessage) × Q
  unfolding is_own_from abuse_gate quota_gate send_submitted
  submit_data raw s q = elim (s.login) [
    | none ↦ ((refused 502, []), q)
    | some rt ↦
        if not (is_own_from s.account raw)
        then ((refused 550, []), q)
        else (let (held, q₁) = abuse_gate s.account (length s.rcpts) q in
            elim held [
              | some code ↦ ((refused code, []), q₁)
              | none ↦
                  let (over, q₂) = quota_gate s.account (length raw) q₁ in
                  elim over [
                    | some code ↦ ((refused code, []), q₂)
                    | none ↦ send_submitted rt raw s q₂
                  ]
            ])
  ]
