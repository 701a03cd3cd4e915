-- ===== src/Tests/Outbound.antt =====
-- The outbound queue over a store that is a map, with a sender that answers by the destination.
use vulos_mail.Common.{
  ℕ, zero, suc, ◌+◌, ◌*◌, ◌/◌, ◌≡◌, ◌≤◌, refl, String, List, [], ◌∷◌, ◌++◌, true, false, none, some,
  ltb, ◌==◌, if◌then◌else◌, length, All, arith,
}
use vulos_mail.Common.Map.{Map, lookup, insert, erase}
use vulos_mail.Mtaout.{OutMessage, delivered, temp_fail, perm_fail, transactional}
use vulos_mail.Mtaout.Warmup.{Warmup, used_at, allow, record_send, cap_for}
use vulos_mail.Mtaout.Warmup.Ramp.{IsCapped, record_send-IsCapped}
use vulos_mail.Mtaout.Reputation.{Floats, Reputation}
use vulos_mail.Mtaout.Scheduler.{
  QueuedItem, QueueStore, Config, Scheduler, tick, enqueue, recover, new_item, default_backoff,
}
use vulos_mail.Mtaout.Scheduler.Drain.{run_ticks, sends_left, all_sends_left, run_ticks_empties}
use vulos_mail.Mtaout.Scheduler.Fates.{Fates, tick-Fates}
use vulos_mail.Mtaout.Scheduler.Caps.{logged, count_to, tick-capped}
use vulos_mail.Mtaout.Scheduler.Durable.{mem, Steady}
use vulos_mail.Mtaout.Scheduler.Crash.{
  IsKept, tick-IsKept, enqueue-IsKept, QueueEvent, handed_in, passed, run_events, Spaced,
  recover-run_events,
}
use vulos_mail.Mtaout.FileQueue.{
  safe_queue_name, valid_item, done, Dir, items_of, write_item, remove_item, file_queue,
  file_queue-IsDurable,
}
use vulos_mail.Event.Utf8.{to_valid}
use vulos_mail.Mtaout.Scheduler.{gate as gate_of, sent_to, visit_all, visit, persist, add_duration}

abbrev percent : Floats
percent = record {
  Float = ℕ;
  of_int = λ n. n;
  div = λ a b. elim b [ zero ↦ 0 | suc n ↦ a * 100 / suc n ];
  gt = λ a b. ltb b a;
}

-- a directory whose writes all succeed
abbrev disk_store : QueueStore
disk_store = file_queue (λ n. done)

disk_store-Steady : Steady disk_store
unfolding write_item
disk_store-Steady st it named = rw named refl

abbrev message : String → String → OutMessage
message id rcpt = record {
  id = id;
  tenant = "t";
  from_domain = "x.org";
  rcpt_domain = rcpt;
  from_addr = "ann@x.org";
  rcpts = "bob" ∷ [];
  raw = 1 ∷ 2 ∷ [];
  class = transactional;
}

abbrev queued : String → String → ℕ → QueuedItem
queued id rcpt n = record { msg = message id rcpt; attempts = n; next_attempt = 0 }

abbrev config : Config percent disk_store ℕ
config = record {
  send = λ calls m ip. (
    record {
      status =
          if m.rcpt_domain == "bad"
          then perm_fail
          else if m.rcpt_domain == "busy"
          then temp_fail
          else delivered;
      err = none;
    },
    calls + 1,
  );
  pool = some (record { transactional_ips = "10.0.0.1" ∷ "10.0.0.2" ∷ []; bulk_ips = [] });
  max_per_domain = 1;
  max_attempts = 3;
  backoff = default_backoff;
}

abbrev queue : List QueuedItem
queue = queued "a" "ok" 0 ∷ queued "b" "ok" 0 ∷ queued "c" "busy" 1 ∷ queued "d" "bad" 0 ∷ []

abbrev stored : Map QueuedItem
stored =
    ("a", queued "a" "ok" 0)
    ∷ ("b", queued "b" "ok" 0)
    ∷ ("c", queued "c" "busy" 1)
    ∷ ("d", queued "d" "bad" 0)
    ∷ []

abbrev scheduler : Scheduler percent disk_store ℕ
scheduler = record {
  world = 0;
  warmup = none;
  rep = none;
  store = some (record { files = stored; next = 0 });
  queue = queue;
}

abbrev watched : Scheduler percent disk_store (ℕ × List OutMessage)
watched = record { world = (0, []); warmup = none; rep = none; store = none; queue = queue }

tick-Fates_example :
    let (s', st, bounces) = tick config 5 scheduler in
    (d : List OutMessage) × (Fates config 5 queue d bounces s'.queue
      × ((st.delivered_n ≡ length d) × (st.bounced_n ≡ length bounces)))
tick-Fates_example = tick-Fates config 5 scheduler

tick-capped_example : count_to "ok" (tick (logged config) 5 watched).0.world.1 ≤ 1
tick-capped_example = tick-capped config 5 watched "ok" refl

all-IsKept : IsKept disk_store (file_queue-IsDurable (λ n. done)) scheduler
unfolding lookup safe_queue_name valid_item to_valid
all-IsKept = record {
  distinct = ((refl, (refl, (refl, tt))), ((refl, (refl, tt)), ((refl, tt), (tt, tt))));
  kept = ((refl, refl), ((refl, refl), ((refl, refl), ((refl, refl), tt))));
}

tick-IsKept_example :
    IsKept disk_store (file_queue-IsDurable (λ n. done)) (tick config 5 scheduler).0
tick-IsKept_example =
    tick-IsKept disk_store (file_queue-IsDurable (λ n. done)) config 5 scheduler disk_store-Steady
      all-IsKept

enqueue-IsKept_example :
    IsKept disk_store (file_queue-IsDurable (λ n. done)) (enqueue "e" (message "" "ok") scheduler).1
    × ((enqueue "e" (message "" "ok") scheduler).0 ≡ true
        → (enqueue "e" (message "" "ok") scheduler).1.queue
          ≡ queue ++ new_item "e" (message "" "ok") ∷ [])
    × ((enqueue "e" (message "" "ok") scheduler).0 ≡ false
        → (enqueue "e" (message "" "ok") scheduler).1.queue ≡ queue)
unfolding safe_queue_name
enqueue-IsKept_example =
    enqueue-IsKept disk_store (file_queue-IsDurable (λ n. done)) "e" (message "" "ok") scheduler
      (refl, (refl, (refl, (refl, tt)))) all-IsKept

abbrev new_scheduler : Scheduler percent disk_store ℕ
new_scheduler = record {
  world = 0;
  warmup = none;
  rep = none;
  store = some (record { files = []; next = 0 });
  queue = [];
}

abbrev events : List QueueEvent
events = handed_in "e" (message "" "busy") ∷ handed_in "f" (message "" "ok") ∷ passed 5 ∷ []

abbrev left_behind : Dir
left_behind = record {
  files =
      ("e", record { msg = message "e" "busy"; attempts = 1; next_attempt = 120000000005 }) ∷ [];
  next = 4;
}

events-Spaced : Spaced disk_store (file_queue-IsDurable (λ n. done)) config events new_scheduler
unfolding Spaced enqueue tick write_item safe_queue_name
events-Spaced = (tt, ((refl, tt), tt))

stopped :
    (run_events disk_store (file_queue-IsDurable (λ n. done)) config events new_scheduler).store
    ≡ some left_behind
unfolding run_events enqueue tick write_item safe_queue_name valid_item to_valid remove_item insert
    erase lookup gate_of sent_to visit_all visit persist add_duration default_backoff
stopped = refl

abbrev restarted : Scheduler percent disk_store ℕ
restarted = record { world = 9; warmup = none; rep = none; store = some left_behind; queue = [] }

recover-run_events_example :
    ((recover restarted).0 ≡ true)
    × All
        (λ q. mem (valid_item q) (recover restarted).1.queue)
        (run_events disk_store (file_queue-IsDurable (λ n. done)) config events new_scheduler).queue
recover-run_events_example =
    recover-run_events disk_store (file_queue-IsDurable (λ n. done)) config events new_scheduler
      restarted left_behind (items_of left_behind.files) disk_store-Steady refl events-Spaced
      stopped refl refl refl

abbrev ramp : Warmup
ramp = record { schedule = 2 ∷ 5 ∷ []; first_seen = []; used = [] }

ramp-IsCapped : IsCapped ramp
unfolding used_at
ramp-IsCapped = record { capped = λ domain d. omega arith; unseen = λ domain d new. refl }

ramp_allows : allow ramp "x.org" 7 ≡ true
unfolding allow cap_for lookup
ramp_allows = refl

record_send-IsCapped_example : IsCapped (record_send ramp "x.org" 7)
record_send-IsCapped_example = record_send-IsCapped ramp "x.org" 7 ramp_allows ramp-IsCapped

abbrev gate : Reputation percent
gate = record {
  min_volume = 2;
  max_bounce_rate = 50;
  max_complaint_rate = 10;
  stats = ("t", record { delivered = 1; bounced = 3; complaints = 0 }) ∷ [];
}

-- passes an hour apart, with waits of a minute
abbrev patient : Config percent disk_store ℕ
patient = record config { backoff = λ n. 60 }

abbrev hours : List ℕ
hours = 3600 ∷ 7200 ∷ 10800 ∷ 14400 ∷ 18000 ∷ 21600 ∷ 25200 ∷ 28800 ∷ 32400 ∷ 36000 ∷ 39600 ∷ []

enough_passes : all_sends_left patient scheduler.queue ≤ length hours
unfolding all_sends_left sends_left
enough_passes = omega arith

run_ticks_empties_example : (run_ticks patient hours scheduler).queue ≡ []
run_ticks_empties_example =
    run_ticks_empties patient 60 (λ n. omega arith) (omega arith) hours 0 scheduler refl refl
      (omega arith, (omega arith, (omega arith, (omega arith, tt))))
      (
        omega arith,
        (
          omega arith,
          (
            omega arith,
            (
              omega arith,
              (
                omega arith,
                (
                  omega arith,
                  (omega arith, (omega arith, (omega arith, (omega arith, (omega arith, tt))))),
                ),
              ),
            ),
          ),
        ),
      )
      enough_passes
