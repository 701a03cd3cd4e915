-- ===== src/Mtaout/Scheduler.antt =====
-- `Scheduler` of services/mtaout/mtaout.go: the outbound queue. The sender acts on a world of its
-- own; the queue store is the interface `QueueStore`; warmup, reputation and pool may be nil. A
-- call of a store returns whether it succeeded. Durations are uint64 nanoseconds in two's
-- complement, and the zero time is 0.
pub mod Queue
pub mod Fates
pub mod Caps
pub mod Durable
pub mod Crash
pub mod Drain
use vulos_mail.Common.{
  ℕ, ◌+◌, ◌-◌, ◌*◌, ◌%◌, ◌^◌, String, List, [], ◌∷◌, ◌++◌, Bool, true, false, not, Option, none,
  some, ◌==◌, eqb, ltb, leb, if◌then◌else◌, length,
}
use vulos_mail.Common.Map.{Map, lookup, insert}
use vulos_mail.Mtaout.{OutMessage, SendStatus, delivered, temp_fail, perm_fail}
use vulos_mail.Mtaout.Pool.{Pool, ip_for}
use vulos_mail.Mtaout.Warmup.{Warmup, allow, record_send}
use vulos_mail.Mtaout.Reputation.{
  Floats, Reputation, record_delivered, record_bounced, throttled as is_throttled,
}

pub record SendResult : Type 0 where
  pub status : SendStatus
  pub err : Option String

pub record QueuedItem : Type 0 where
  pub msg : OutMessage
  pub attempts : ℕ
  pub next_attempt : ℕ

-- the interface `QueueStore`
pub record QueueStore : Type 1 where
  pub State : Type 0
  pub add : State → QueuedItem → Bool × State
  pub update : State → QueuedItem → Bool × State
  pub remove : State → String → Bool × State
  pub load : State → Option (List QueuedItem)

-- what the scheduler is configured with
pub record Config (fl : Floats) (qs : QueueStore) (W : Type 0) : Type 0 where
  pub send : W → OutMessage → String → SendResult × W
  pub pool : Option Pool
  pub max_per_domain : ℕ
  pub max_attempts : ℕ
  pub backoff : ℕ → ℕ

-- the default backoff, `1 << attempt` minutes
unfoldable pub default_backoff : ℕ → ℕ
default_backoff a = 2 ^ a % 2 ^ 64 * 60000000000 % 2 ^ 64

-- `NewScheduler`: what is 0, or nil, has a default
unfoldable pub new_config :
    {fl : Floats} {qs : QueueStore} {W : Type 0}
    → (W → OutMessage → String → SendResult × W)
    → Option Pool
    → ℕ
    → ℕ
    → Option (ℕ → ℕ)
    → Config fl qs W
unfolding default_backoff
new_config send pool max_per_domain max_attempts backoff = record {
  send = send;
  pool = pool;
  max_per_domain = if eqb max_per_domain 0 then 10 else max_per_domain;
  max_attempts = if eqb max_attempts 0 then 8 else max_attempts;
  backoff = elim backoff [ none ↦ default_backoff | some f ↦ f ];
}

-- `Time.Add`; a duration from 2 ^ 63 on is negative
unfoldable pub add_duration : ℕ → ℕ → ℕ
add_duration now d = if ltb d (2 ^ 63) then now + d else now - (2 ^ 64 - d)

pub record TickStats : Type 0 where
  pub delivered_n : ℕ
  pub deferred_n : ℕ
  pub bounced_n : ℕ
  pub throttled_n : ℕ
  pub warmup_held_n : ℕ
  pub rate_held_n : ℕ

abbrev pub no_stats : TickStats
no_stats = record {
  delivered_n = 0;
  deferred_n = 0;
  bounced_n = 0;
  throttled_n = 0;
  warmup_held_n = 0;
  rate_held_n = 0;
}

-- the variables of the loop of `Tick`
pub record Pass (fl : Floats) (qs : QueueStore) (W : Type 0) : Type 0 where
  pub world : W
  pub warmup : Option Warmup
  pub rep : Option (Reputation fl)
  pub store : Option qs.State
  pub per_domain : Map ℕ
  pub remaining : List QueuedItem
  pub bounces : List (OutMessage × String)
  pub stats : TickStats

-- the scheduler between calls
pub record Scheduler (fl : Floats) (qs : QueueStore) (W : Type 0) : Type 0 where
  pub world : W
  pub warmup : Option Warmup
  pub rep : Option (Reputation fl)
  pub store : Option qs.State
  pub queue : List QueuedItem

-- why a message is not sent in this pass, or that it is
pub data Gate : Type 0 where
  not_due throttled warmup_held rate_held open_gate : Gate

unfoldable pub sent_to : String → Map ℕ → ℕ
sent_to domain m = elim (lookup domain m) [ none ↦ 0 | some n ↦ n ]

warm : Option Warmup → String → ℕ → Bool
warm none domain now = true
warm (some w) domain now = allow w domain now

count_send : Option Warmup → String → ℕ → Option Warmup
count_send none domain now = none
count_send (some w) domain now = some (record_send w domain now)

pub source_ip : Option Pool → OutMessage → String
source_ip none m = ""
source_ip (some pool) m = ip_for pool m.tenant m.class

-- the reason of a permanent failure
pub reason_of : Option String → String
reason_of none = "permanent delivery failure"
reason_of (some e) = e

-- what `Enqueue` queues
abbrev pub new_item : String → OutMessage → QueuedItem
new_item fresh m = record {
  msg = if m.id == "" then record m { id = fresh } else m;
  attempts = 0;
  next_attempt = 0;
}

module _ {fl : Floats} where
  gated : Option (Reputation fl) → String → Bool
  gated none tenant = false
  gated (some r) tenant = is_throttled r tenant

  on_rep : (Reputation fl → Reputation fl) → Option (Reputation fl) → Option (Reputation fl)
  on_rep f none = none
  on_rep f (some r) = some (f r)

module _ (qs : QueueStore) where
  -- `removeDurable` and `updateDurable` drop the error
  unfoldable pub remove_durable : String → Option qs.State → Option qs.State
  remove_durable id none = none
  remove_durable id (some st) = some (qs.remove st id).1

  unfoldable pub update_durable : QueuedItem → Option qs.State → Option qs.State
  update_durable q none = none
  update_durable q (some st) = some (qs.update st q).1

  unfoldable pub persist : QueuedItem → Option qs.State → Bool × Option qs.State
  persist it none = (true, none)
  persist it (some st) = let (done, st') = qs.add st it in (done, some st')

module _ {fl : Floats} {qs : QueueStore} {W : Type 0} where
  -- the switch at the head of the loop
  unfoldable pub gate : Config fl qs W → ℕ → QueuedItem → Pass fl qs W → Gate
  unfolding gated warm
  gate cfg now q p =
      if ltb now q.next_attempt
      then not_due
      else if gated p.rep q.msg.tenant
      then throttled
      else if not (warm p.warmup q.msg.from_domain now)
      then warmup_held
      else if leb cfg.max_per_domain (sent_to q.msg.rcpt_domain p.per_domain)
      then rate_held
      else open_gate

  bounce : QueuedItem → String → Pass fl qs W → Pass fl qs W
  unfolding on_rep remove_durable
  bounce q reason p = record p {
    bounces = p.bounces ++ (q.msg, reason) ∷ [];
    rep = on_rep (λ r. record_bounced r q.msg.tenant) p.rep;
    store = remove_durable qs q.msg.id p.store;
    stats = record (p.stats) { bounced_n = p.stats.bounced_n + 1 };
  }

  defer : Config fl qs W → ℕ → QueuedItem → Pass fl qs W → Pass fl qs W
  unfolding update_durable
  defer cfg now q p =
      let q' : QueuedItem = record q { next_attempt = add_duration now (cfg.backoff q.attempts) } in
      record p {
        remaining = p.remaining ++ q' ∷ [];
        store = update_durable qs q' p.store;
        stats = record (p.stats) { deferred_n = p.stats.deferred_n + 1 };
      }

  -- the switch on the status
  settle : Config fl qs W → ℕ → QueuedItem → SendResult → Pass fl qs W → Pass fl qs W
  unfolding on_rep remove_durable bounce defer reason_of
  settle cfg now q res p = elim (res.status) [
    | delivered ↦ record p {
      rep = on_rep (λ r. record_delivered r q.msg.tenant) p.rep;
      store = remove_durable qs q.msg.id p.store;
      stats = record (p.stats) { delivered_n = p.stats.delivered_n + 1 };
    }
    | temp_fail ↦
        let q' : QueuedItem = record q { attempts = q.attempts + 1 } in
        if leb cfg.max_attempts q'.attempts
        then bounce q' "too many delivery attempts" p
        else defer cfg now q' p
    | perm_fail ↦ bounce q (reason_of res.err) p
  ]

  -- the call of the sender
  attempt : Config fl qs W → QueuedItem → Pass fl qs W → SendResult × W
  unfolding source_ip
  attempt cfg q p = cfg.send p.world q.msg (source_ip cfg.pool q.msg)

  -- what is counted of the call
  sent : Config fl qs W → ℕ → QueuedItem → Pass fl qs W → Pass fl qs W
  unfolding count_send attempt
  sent cfg now q p = record p {
    world = (attempt cfg q p).1;
    warmup = count_send p.warmup q.msg.from_domain now;
    per_domain = insert q.msg.rcpt_domain (sent_to q.msg.rcpt_domain p.per_domain + 1) p.per_domain;
  }

  dispatch : Config fl qs W → ℕ → QueuedItem → Pass fl qs W → Pass fl qs W
  unfolding attempt sent settle
  dispatch cfg now q p = settle cfg now q (attempt cfg q p).0 (sent cfg now q p)

  hold : QueuedItem → TickStats → Pass fl qs W → Pass fl qs W
  hold q st p = record p { remaining = p.remaining ++ q ∷ []; stats = st }

  proceed : Config fl qs W → ℕ → QueuedItem → Pass fl qs W → Gate → Pass fl qs W
  unfolding dispatch hold
  proceed cfg now q p not_due = hold q p.stats p
  proceed cfg now q p throttled =
      hold q (record (p.stats) { throttled_n = p.stats.throttled_n + 1 }) p
  proceed cfg now q p warmup_held =
      hold q (record (p.stats) { warmup_held_n = p.stats.warmup_held_n + 1 }) p
  proceed cfg now q p rate_held =
      hold q (record (p.stats) { rate_held_n = p.stats.rate_held_n + 1 }) p
  proceed cfg now q p open_gate = dispatch cfg now q p

  -- one round of the loop
  unfoldable pub visit : Config fl qs W → ℕ → QueuedItem → Pass fl qs W → Pass fl qs W
  unfolding proceed
  visit cfg now q p = proceed cfg now q p (gate cfg now q p)

  unfoldable pub visit_all : Config fl qs W → ℕ → List QueuedItem → Pass fl qs W → Pass fl qs W
  visit_all cfg now [] p = p
  visit_all cfg now (q ∷ qs') p = visit_all cfg now qs' (visit cfg now q p)

  unfoldable pub start : Scheduler fl qs W → Pass fl qs W
  start s = record {
    world = s.world;
    warmup = s.warmup;
    rep = s.rep;
    store = s.store;
    per_domain = [];
    remaining = [];
    bounces = [];
    stats = no_stats;
  }

  -- `Tick`, with the messages that it hands to `onBounce`
  unfoldable pub tick :
      Config fl qs W
      → ℕ
      → Scheduler fl qs W
      → Scheduler fl qs W × TickStats × List (OutMessage × String)
  unfolding start
  tick cfg now s =
      let p = visit_all cfg now s.queue (start s) in
      (
        record {
          world = p.world;
          warmup = p.warmup;
          rep = p.rep;
          store = p.store;
          queue = p.remaining;
        },
        p.stats,
        p.bounces,
      )

  unfoldable pub enqueued :
      QueuedItem → Bool × Option qs.State → Scheduler fl qs W → Bool × Scheduler fl qs W
  enqueued it (true, store') s = (true, record s { store = store'; queue = s.queue ++ it ∷ [] })
  enqueued it (false, store') s = (false, record s { store = store' })

  -- `Enqueue`; `fresh` is `newQueueID()`
  unfoldable pub enqueue : String → OutMessage → Scheduler fl qs W → Bool × Scheduler fl qs W
  unfolding enqueued persist
  enqueue fresh m s = enqueued (new_item fresh m) (persist qs (new_item fresh m) s.store) s

  -- `Recover`
  unfoldable pub recover : Scheduler fl qs W → Bool × Scheduler fl qs W
  recover s = elim (s.store) [
    | none ↦ (true, s)
    | some st ↦ elim (qs.load st) [
      | none ↦ (false, s)
      | some items ↦ (true, record s { queue = s.queue ++ items })
    ]
  ]

  unfoldable pub pending : Scheduler fl qs W → ℕ
  pending s = length s.queue
