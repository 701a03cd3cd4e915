-- ===== src/Server/Sending.antt =====
-- `SendRaw` and `CheckQuota`'s use in it, and `Enqueue`, of internal/server/manager.go. The parser of messages and of
-- addresses, the signer, the abuse filter and the scheduler are arguments with their own state. A Go map's
-- order is taken as that in which its keys came in. An error is a text.
pub mod Grouped
use vulos_mail.Common.{
  ℕ, ◌+◌, String, List, [], ◌∷◌, ◌++◌, Bool, true, false, not, ◌&&◌, ◌||◌, Option, none, some, ◌==◌,
  if◌then◌else◌, length,
}
use vulos_mail.Common.Map.{Map, lookup, insert}
use vulos_mail.Common.Text.{cat}
use vulos_mail.Model.{Envelope}
use vulos_mail.Account.{Raw}
use vulos_mail.Mtaout.{OutMessage, transactional}
use vulos_mail.Server.Limits.{Limits, check_quota, Plan}
use vulos_mail.Server.Vacation.{tenant_of}

-- byDomain[tenantOf(r)] = append(byDomain[tenantOf(r)], r)
unfoldable pub add_rcpt : String → Map (List String) → Map (List String)
unfolding tenant_of
add_rcpt r m =
    insert (tenant_of r) (elim (lookup (tenant_of r) m) [ none ↦ r ∷ [] | some rs ↦ rs ++ r ∷ [] ])
      m

-- the loop over the recipients
unfoldable pub by_domain : List String → Map (List String) → Map (List String)
unfolding add_rcpt
by_domain [] m = m
by_domain (r ∷ rs) m = by_domain rs (add_rcpt r m)

-- what sending calls: the scheduler `Q` and the abuse filter `F`
pub record Outlet (Q F : Type 0) : Type 0 where
  pub parse : Raw → Option Envelope
  pub parse_address : String → Option String
  pub trim_space : String → String
  pub fold : String → String → Bool
  pub lower : String → String
  pub plans : Option (String → Option Plan)
  pub abuse : Option (F → String → ℕ → Option String × F)
  pub sign : Option (String → Raw → Option Raw)
  pub enqueue : Q → OutMessage → Bool × Q

-- the message to one domain
unfoldable pub message_to : String → String → List String → Raw → OutMessage
unfolding tenant_of
message_to from domain rcpts raw = record {
  id = "";
  tenant = tenant_of from;
  from_domain = tenant_of from;
  rcpt_domain = domain;
  from_addr = from;
  rcpts = rcpts;
  raw = raw;
  class = transactional;
}

-- the state of the parts that a send goes through
pub record SendState (Q F : Type 0) : Type 0 where
  pub limits : Limits
  pub filter : F
  pub queue : Q

module _ {Q F : Type 0} (o : Outlet Q F) where
  -- `parseAddr`
  unfoldable pub parse_addr : String → String
  parse_addr s = elim (o.parse_address s) [ none ↦ o.trim_space s | some a ↦ a ]

  -- `addrEqual`
  unfoldable pub addr_equal : String → String → Bool
  unfolding parse_addr
  addr_equal a b = not (parse_addr a == "") && o.fold (parse_addr a) (parse_addr b)

  -- the visible From is the sending account
  unfoldable pub is_from : String → Raw → Bool
  unfolding addr_equal
  is_from from raw = elim (o.parse raw) [
    | none ↦ false
    | some env ↦ elim (env.from_addrs) [ [] ↦ false | a ∷ more ↦ addr_equal a from ]
  ]

  -- the loop over the domains, which stops at the first message that cannot be queued
  unfoldable pub enqueue_all : String → Raw → Map (List String) → Q → Option String × Q
  unfolding message_to
  enqueue_all from raw [] q = (none, q)
  enqueue_all from raw ((d, rcpts) ∷ rest) q =
      let (ok, q') = o.enqueue q (message_to from d rcpts raw) in
      let later = enqueue_all from raw rest q' in
      if ok then later else (some (cat "could not queue message for " d), q')

  -- the signed message, or the message where it cannot be signed
  unfoldable pub signed : String → Raw → Raw
  signed domain raw = elim (o.sign) [
    | none ↦ raw
    | some sign ↦ elim (sign domain raw) [ none ↦ raw | some r ↦ r ]
  ]

  unfoldable pub check_abuse : String → ℕ → F → Option String × F
  check_abuse from n f = elim (o.abuse) [ none ↦ (none, f) | some check ↦ check f from n ]

  -- `SendRaw`
  unfoldable pub send_raw :
      ℕ → String → List String → Raw → SendState Q F → Option String × SendState Q F
  unfolding is_from check_abuse signed by_domain enqueue_all
  send_raw now from to raw st =
      if not (is_from from raw)
      then (some "From header must match the sending account", st)
      else (let (refusal, limits') = check_quota o.lower o.plans now from (length raw) st.limits in
          let st₁ : SendState Q F = record st { limits = limits' } in
          elim refusal [
            | some reason ↦ (some reason, st₁)
            | none ↦
                let (held, filter') = check_abuse from (length to) st.filter in
                let st₂ : SendState Q F = record st₁ { filter = filter' } in
                elim held [
                  | some reason ↦
                      (some (cat "send rejected by outbound abuse filter: " reason), st₂)
                  | none ↦
                      let (failure, queue') =
                        enqueue_all from (signed (tenant_of from) raw) (by_domain to []) st.queue in
                      (failure, record st₂ { queue = queue' })
                ]
          ])
