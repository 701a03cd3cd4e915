-- ===== src/Server/Limits.antt =====
-- What limits the sending of an account: internal/tenant/tenant.go (the registry and the daily quota of a tenant)
-- and `planFor`, `allowPlanSend` and `CheckQuota` of internal/server/manager.go. Times are nanoseconds after 1970,
-- a day is their number of days in UTC, and a limit that is not positive is 0. A size is an int64, written as
-- its two's complement; strings.ToLower and the source of plans are arguments. No error is `none`.
pub mod Capped
use vulos_mail.Common.{
  ℕ, zero, suc, ◌+◌, ◌/◌, ◌%◌, ◌^◌, ◌≡◌, String, List, [], ◌∷◌, Bool, true, false, not, ◌&&◌, ◌||◌,
  Option, none, some, ◌==◌, eqb, ltb, leb, if◌then◌else◌,
}
use vulos_mail.Common.Map.{Map, lookup, insert}
use vulos_mail.Common.Text.{after_last}

-- `Registry`
abbrev pub Registry : Type 0
Registry = Map String

module _ (lower : String → String) where
  -- `Registry.Map`
  unfoldable pub map_domain : String → String → Registry → Registry
  map_domain domain tenant r = insert (lower domain) tenant r

  -- `Registry.TenantFor`
  unfoldable pub tenant_for : String → Registry → String
  tenant_for address r =
      let domain = lower (elim (after_last 64 address) [ none ↦ address | some d ↦ d ]) in
      elim (lookup domain r) [ none ↦ domain | some tenant ↦ tenant ]

-- `dayUsage`
pub record DayUsage : Type 0 where
  pub day : ℕ
  pub msgs : ℕ
  pub bytes : ℕ

-- `Quota`
pub record Quota : Type 0 where
  pub max_msgs : ℕ
  pub max_bytes : ℕ
  pub usage : Map DayUsage

-- what a tenant has used on a day
unfoldable pub usage_on : ℕ → Option DayUsage → DayUsage
usage_on day none = record { day = day; msgs = 0; bytes = 0 }
usage_on day (some u) = if eqb u.day day then u else record { day = day; msgs = 0; bytes = 0 }

-- `u.bytes+bytes > q.maxBytes` on int64
unfoldable pub is_over : ℕ → ℕ → ℕ → Bool
is_over used bytes max = let sum = (used + bytes) % 2 ^ 64 in ltb sum (2 ^ 63) && ltb max sum

-- the two tests of `Quota.Allow`
unfoldable pub refusal_of : DayUsage → ℕ → Quota → Option String
unfolding is_over
refusal_of u bytes q =
    if ltb 0 q.max_msgs && leb q.max_msgs u.msgs
    then some "daily message quota exceeded"
    else if ltb 0 q.max_bytes && is_over u.bytes bytes q.max_bytes
    then some "daily storage quota exceeded"
    else none

-- the usage after the tests, which `Quota.Allow` counts where none of them refuses
unfoldable pub counted : Option String → DayUsage → ℕ → DayUsage
counted (some reason) u bytes = u
counted none u bytes = record { day = u.day; msgs = u.msgs + 1; bytes = (u.bytes + bytes) % 2 ^ 64 }

-- `Quota.Allow`
unfoldable pub allow : ℕ → String → ℕ → Quota → Option String × Quota
unfolding usage_on refusal_of counted
allow day tenant bytes q =
    let u = usage_on day (lookup tenant q.usage) in
    let refusal = refusal_of u bytes q in
    (refusal, record q { usage = insert tenant (counted refusal u bytes) q.usage })

-- a plan of internal/seam, the fields that the manager reads
pub record Plan : Type 0 where
  pub max_bytes : ℕ
  pub max_send_per_day : ℕ
  pub suspended : Bool

-- `planEntry`
pub record PlanEntry : Type 0 where
  pub plan : Plan
  pub at : ℕ

-- `daySend`
pub record DaySend : Type 0 where
  pub day : ℕ
  pub n : ℕ

-- the state of the manager that limits sending
pub record Limits : Type 0 where
  pub plan_cache : Map PlanEntry
  pub sends : Map DaySend
  pub quota : Option Quota
  pub registry : Option Registry

abbrev pub plan_ttl : ℕ
plan_ttl = 90000000000

unfoldable pub day_of : ℕ → ℕ
day_of now = now / 86400000000000

-- the count of a day
unfoldable pub sends_on : ℕ → Option DaySend → ℕ
sends_on day none = 0
sends_on day (some ds) = if eqb ds.day day then ds.n else 0

-- what the source of plans knows of an account: `none` for an error, and no source at all is `none`
module _ (lower : String → String) (plans : Option (String → Option Plan)) where
  -- `planFor`
  unfoldable pub plan_for : ℕ → String → Limits → Option Plan × Limits
  plan_for now account st = elim plans [
    | none ↦ (none, st)
    | some ask ↦ elim (ask (lower account)) [
      | some plan ↦ (
        some plan,
        record st {
          plan_cache = insert (lower account) (record { plan = plan; at = now }) st.plan_cache;
        },
      )
      | none ↦ elim (lookup (lower account) st.plan_cache) [
        | none ↦ (none, st)
        | some e ↦ (if ltb now (e.at + plan_ttl) then some e.plan else none, st)
      ]
    ]
  ]

  -- `allowPlanSend`, once the plan is known
  unfoldable pub allow_under : Plan → ℕ → String → Limits → Option String × Limits
  unfolding sends_on day_of
  allow_under plan now account st =
      if plan.suspended
      then (some "account suspended", st)
      else if eqb plan.max_send_per_day 0
      then (none, st)
      else (let day = day_of now in
          let n = sends_on day (lookup (lower account) st.sends) in
          if leb plan.max_send_per_day n
          then (
            some "daily send limit reached",
            record st { sends = insert (lower account) (record { day = day; n = n }) st.sends },
          )
          else (
            none,
            record st { sends = insert (lower account) (record { day = day; n = n + 1 }) st.sends },
          ))

  -- `allowPlanSend`
  unfoldable pub allow_plan_send : ℕ → String → Limits → Option String × Limits
  unfolding plan_for allow_under
  allow_plan_send now account st =
      let (plan, st') = plan_for now account st in
      elim plan [ none ↦ (none, st') | some p ↦ allow_under p now account st' ]

  -- `CheckQuota`
  unfoldable pub check_quota : ℕ → String → ℕ → Limits → Option String × Limits
  unfolding allow_plan_send allow tenant_for day_of
  check_quota now account bytes st =
      let (refusal, st') = allow_plan_send now account st in
      elim refusal [
        | some reason ↦ (some reason, st')
        | none ↦ elim (st'.quota) [
          | none ↦ (none, st')
          | some q ↦
              let tenant : String = elim (st'.registry) [
                | none ↦ account
                | some r ↦ tenant_for lower account r
              ] in
              let (answer, q') = allow (day_of now) tenant bytes q in
              (answer, record st' { quota = some q' })
        ]
      ]
