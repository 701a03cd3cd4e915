-- ===== src/Mtaout/Scheduler/Drain.antt =====
-- How long a queue lasts: repeated calls of `Tick` of services/mtaout/mtaout.go.
use vulos_mail.Common.{
  ℕ, suc, ◌+◌, ◌-◌, ◌≤◌, ◌<◌, ◌≡◌, refl, ap, String, List, [], ◌∷◌, ◌++◌, Option, none, leb, length,
  All, arith, Bool-cases, inl, inr, leb_false→lt,
}
use vulos_mail.Common.Map.{lookup}
use vulos_mail.Mtaout.{SendStatus, delivered, temp_fail, perm_fail}
use vulos_mail.Mtaout.Reputation.{Floats}
use vulos_mail.Mtaout.Scheduler.{
  QueuedItem, QueueStore, Config, Pass, Scheduler, Gate, open_gate, gate, bounce, defer, settle,
  attempt, sent, dispatch, hold, proceed, visit, visit_all, start, tick, add_duration, sent_to,
  gated, warm, on_rep, count_send,
}
use vulos_mail.Mtaout.Scheduler.Queue.{All-snoc}

add_duration_le : (now d b : ℕ) → d ≤ b → add_duration now d ≤ now + b
unfolding add_duration
add_duration_le now d b le = ground (arith, le)

module _ {fl : Floats} {qs : QueueStore} {W : Type 0} where
  -- successive passes at the given times
  unfoldable pub run_ticks : Config fl qs W → List ℕ → Scheduler fl qs W → Scheduler fl qs W
  run_ticks cfg [] s = s
  run_ticks cfg (now ∷ later) s = run_ticks cfg later (tick cfg now s).0

module _ {fl : Floats} {qs : QueueStore} {W : Type 0} (cfg : Config fl qs W) where
  -- how often a message can still be sent, at least once
  unfoldable pub sends_left : QueuedItem → ℕ
  sends_left q = suc (cfg.max_attempts - (q.attempts + 1))

  unfoldable pub all_sends_left : List QueuedItem → ℕ
  unfolding sends_left
  all_sends_left [] = 0
  all_sends_left (q ∷ queue) = sends_left q + all_sends_left queue

  all_sends_left-snoc :
      (queue : List QueuedItem) (q : QueuedItem)
      → all_sends_left (queue ++ q ∷ []) ≡ all_sends_left queue + sends_left q
  unfolding all_sends_left
  all_sends_left-snoc [] q = omega arith
  all_sends_left-snoc (x ∷ queue) q = omega (arith, all_sends_left-snoc queue q)

  settle_falls :
      (now : ℕ) (q : QueuedItem) (st : SendStatus) (err : Option String) (p : Pass fl qs W)
      → all_sends_left (settle cfg now q (record { status = st; err = err }) p).remaining
        < all_sends_left p.remaining + sends_left q
  unfolding settle bounce defer sends_left
  settle_falls now q delivered err p = omega arith
  settle_falls now q perm_fail err p = omega arith
  settle_falls now q temp_fail err p = elim (Bool-cases (leb cfg.max_attempts (q.attempts + 1))) [
    | inl last ↦ rw last (omega arith)
    | inr more ↦ rw more (
        omega (
          arith,
          leb_false→lt cfg.max_attempts (q.attempts + 1) more,
          all_sends_left-snoc p.remaining _,
        ))
  ]

  proceed_le :
      (now : ℕ) (q : QueuedItem) (p : Pass fl qs W) (g : Gate)
      → all_sends_left (proceed cfg now q p g).remaining ≤ all_sends_left p.remaining + sends_left q
  unfolding proceed hold dispatch
  proceed_le now q p open_gate = omega (
    arith,
    settle_falls now q (attempt cfg q p).0.status (attempt cfg q p).0.err (sent cfg now q p),
  )
  proceed_le now q p _ = omega (arith, all_sends_left-snoc p.remaining q)

  visit_le :
      (now : ℕ) (q : QueuedItem) (p : Pass fl qs W)
      → all_sends_left (visit cfg now q p).remaining ≤ all_sends_left p.remaining + sends_left q
  unfolding visit
  visit_le now q p = proceed_le now q p (gate cfg now q p)

  visit_all_le :
      (now : ℕ) (queue : List QueuedItem) (p : Pass fl qs W)
      → all_sends_left (visit_all cfg now queue p).remaining
        ≤ all_sends_left p.remaining + all_sends_left queue
  unfolding visit_all all_sends_left
  visit_all_le now [] p = omega arith
  visit_all_le now (q ∷ queue) p =
      omega (arith, visit_all_le now queue (visit cfg now q p), visit_le now q p)

  -- the message at the head of a queue is sent if it is due
  gate_opens :
      (now : ℕ) (q : QueuedItem) (s : Scheduler fl qs W)
      → s.warmup ≡ none
      → s.rep ≡ none
      → 1 ≤ cfg.max_per_domain
      → q.next_attempt ≤ now
      → gate cfg now q (start s) ≡ open_gate
  unfolding gate start sent_to lookup gated warm
  gate_opens now q s cold unrated some_room due =
      rw (cold, unrated) (ground (arith, some_room, due))

  visit-open_gate :
      (now : ℕ) (q : QueuedItem) (p : Pass fl qs W)
      → gate cfg now q p ≡ open_gate
      → visit cfg now q p ≡ dispatch cfg now q p
  unfolding visit proceed
  visit-open_gate now q p opens = ap (proceed cfg now q p) opens

  pass_falls :
      (now : ℕ) (q : QueuedItem) (queue : List QueuedItem) (s : Scheduler fl qs W)
      → gate cfg now q (start s) ≡ open_gate
      → all_sends_left (visit_all cfg now (q ∷ queue) (start s)).remaining
        < all_sends_left (q ∷ queue)
  unfolding visit_all all_sends_left dispatch start
  pass_falls now q queue s opens =
      rw (visit_all, visit-open_gate now q (start s) opens)
        (omega (
          arith,
          visit_all_le now queue (dispatch cfg now q (start s)),
          settle_falls now q (attempt cfg q (start s)).0.status (attempt cfg q (start s)).0.err
              (sent cfg now q (start s)),
        ))

  -- what the timing keeps: no message waits for longer than until a time
  abbrev pub DueBy : ℕ → List QueuedItem → Type 0
  DueBy time queue = All (λ q. q.next_attempt ≤ time) queue

  -- each pass comes no earlier than the longest wait after the one before
  abbrev pub Paced : ℕ → ℕ → List ℕ → Type 0
  Paced wait time [] = Unit
  Paced wait time (now ∷ later) = (time ≤ now) × Paced wait (now + wait) later

  settle-DueBy :
      (now time : ℕ) (q : QueuedItem) (st : SendStatus) (err : Option String) (p : Pass fl qs W)
      → ((n : ℕ) → add_duration now (cfg.backoff n) ≤ time)
      → DueBy time p.remaining
      → DueBy time (settle cfg now q (record { status = st; err = err }) p).remaining
  unfolding settle bounce defer
  settle-DueBy now time q delivered err p soon h = h
  settle-DueBy now time q perm_fail err p soon h = h
  settle-DueBy now time q temp_fail err p soon h =
      elim (Bool-cases (leb cfg.max_attempts (q.attempts + 1))) [
        | inl last ↦ rw last h
        | inr more ↦
            rw more (All-snoc (λ q. q.next_attempt ≤ time) p.remaining _ h (soon (q.attempts + 1)))
      ]

  proceed-DueBy :
      (now time : ℕ) (q : QueuedItem) (p : Pass fl qs W) (g : Gate)
      → ((n : ℕ) → add_duration now (cfg.backoff n) ≤ time)
      → q.next_attempt ≤ time
      → DueBy time p.remaining
      → DueBy time (proceed cfg now q p g).remaining
  unfolding proceed hold dispatch
  proceed-DueBy now time q p open_gate soon due h =
      settle-DueBy now time q (attempt cfg q p).0.status (attempt cfg q p).0.err (sent cfg now q p)
        soon h
  proceed-DueBy now time q p _ soon due h =
      All-snoc (λ q. q.next_attempt ≤ time) p.remaining q h due

  visit_all-DueBy :
      (now time : ℕ) (queue : List QueuedItem) (p : Pass fl qs W)
      → ((n : ℕ) → add_duration now (cfg.backoff n) ≤ time)
      → DueBy time queue
      → DueBy time p.remaining
      → DueBy time (visit_all cfg now queue p).remaining
  unfolding visit_all
  visit_all-DueBy now time [] p soon due h = h
  visit_all-DueBy now time (q ∷ queue) p soon due h =
      visit_all-DueBy now time queue (visit cfg now q p) soon due.1
        (unfold visit in proceed-DueBy now time q p (gate cfg now q p) soon due.0 h)

  later_due : (t u : ℕ) (queue : List QueuedItem) → t ≤ u → DueBy t queue → DueBy u queue
  later_due t u [] le due = tt
  later_due t u (q ∷ queue) le due = (omega (arith, due.0), later_due t u queue le due.1)

  -- nothing in a pass makes a warmup or a reputation where there is none
  abbrev Plain : Pass fl qs W → Type 0
  Plain p = (p.warmup ≡ none) × (p.rep ≡ none)

  settle-Plain :
      (now : ℕ) (q : QueuedItem) (st : SendStatus) (err : Option String) (p : Pass fl qs W)
      → Plain p
      → Plain (settle cfg now q (record { status = st; err = err }) p)
  unfolding settle bounce defer on_rep
  settle-Plain now q delivered err p h = (h.0, rw (h.1) refl)
  settle-Plain now q perm_fail err p h = (h.0, rw (h.1) refl)
  settle-Plain now q temp_fail err p h = elim (Bool-cases (leb cfg.max_attempts (q.attempts + 1))) [
    | inl last ↦ rw last (h.0, rw (h.1) refl)
    | inr more ↦ rw more h
  ]

  proceed-Plain :
      (now : ℕ) (q : QueuedItem) (p : Pass fl qs W) (g : Gate)
      → Plain p
      → Plain (proceed cfg now q p g)
  unfolding proceed hold dispatch sent count_send
  proceed-Plain now q p open_gate h =
      settle-Plain now q (attempt cfg q p).0.status (attempt cfg q p).0.err (sent cfg now q p)
        (rw (h.0) refl, h.1)
  proceed-Plain now q p _ h = h

  visit_all-Plain :
      (now : ℕ) (queue : List QueuedItem) (p : Pass fl qs W)
      → Plain p
      → Plain (visit_all cfg now queue p)
  unfolding visit_all
  visit_all-Plain now [] p h = h
  visit_all-Plain now (q ∷ queue) p h =
      visit_all-Plain now queue (visit cfg now q p)
        (unfold visit in proceed-Plain now q p (gate cfg now q p) h)

  module _ (wait : ℕ) (bounded : (n : ℕ) → cfg.backoff n ≤ wait)
      (some_room : 1 ≤ cfg.max_per_domain) where
    tick_falls :
        (now time : ℕ) (s : Scheduler fl qs W)
        → s.warmup ≡ none
        → s.rep ≡ none
        → DueBy time s.queue
        → time ≤ now
        → all_sends_left (tick cfg now s).0.queue ≤ all_sends_left s.queue - 1
    unfolding tick
    tick_falls now time s cold unrated due passed = falls s.queue due
      where
        falls :
            (queue : List QueuedItem)
            → DueBy time queue
            → all_sends_left (visit_all cfg now queue (start s)).remaining
              ≤ all_sends_left queue - 1
        falls [] h = unfold visit_all start all_sends_left in omega arith
        falls (q ∷ queue) h = omega (
          arith,
          pass_falls now q queue s (gate_opens now q s cold unrated some_room (omega (arith, h.0))),
        )

    -- With neither a warmup nor a reputation, with room for one message of a domain in a pass and waits of at most
    -- `wait`: when passes come at least `wait` apart, from when every queued message is due on, then after as
    -- many passes as the messages of the queue can still be sent the queue is empty, whatever the receiving
    -- servers answer.
    pub run_ticks_empties :
        (times : List ℕ) (time : ℕ) (s : Scheduler fl qs W)
        → s.warmup ≡ none
        → s.rep ≡ none
        → DueBy time s.queue
        → Paced wait time times
        → all_sends_left s.queue ≤ length times
        → (run_ticks cfg times s).queue ≡ []
    unfolding run_ticks start tick visit_all
    run_ticks_empties [] time s cold unrated due paced enough = emptied s.queue enough
      where
        emptied : (queue : List QueuedItem) → all_sends_left queue ≤ 0 → queue ≡ []
        emptied [] h = refl
        emptied (q ∷ queue) h =
            let impossible : ⊥ = unfold all_sends_left sends_left in omega (arith, h) in
            elim impossible [ ]
    run_ticks_empties (now ∷ later) time s cold unrated due paced enough =
        let plain = visit_all-Plain now s.queue (start s) (cold, unrated) in
        run_ticks_empties later (now + wait) (tick cfg now s).0 (plain.0) (plain.1)
          (visit_all-DueBy now (now + wait) s.queue (start s)
            (λ n. add_duration_le now (cfg.backoff n) wait (bounded n))
            (later_due time (now + wait) s.queue (omega (arith, paced.0)) due) tt)
          paced.1 (omega (arith, enough, tick_falls now time s cold unrated due paced.0))
