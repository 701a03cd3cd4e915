-- ===== src/Mtaout/Scheduler/Caps.antt =====
-- The limit on messages to one destination in a pass: `Tick` of services/mtaout/mtaout.go.
use vulos_mail.Common.{
  ℕ, ◌+◌, ◌≤◌, ◌<◌, ◌≡◌, refl, String, List, [], ◌∷◌, ◌++◌, Option, leb, if◌then◌else◌, arith,
  Bool-cases, inl, inr, ◌==◌, eq_iff,
}
use vulos_mail.Common.Map.{lookup, insert, lookup-insert, Map}
use vulos_mail.Mtaout.{OutMessage, SendStatus, delivered, temp_fail, perm_fail}
use vulos_mail.Mtaout.Reputation.{Floats}
use vulos_mail.Mtaout.Scheduler.{
  QueuedItem, QueueStore, Config, Pass, Scheduler, Gate, open_gate, gate, bounce, defer, settle,
  attempt, sent, dispatch, hold, proceed, visit, visit_all, start, tick, sent_to,
}

-- how many messages of a list go to a destination
unfoldable pub count_to : String → List OutMessage → ℕ
count_to d [] = 0
count_to d (m ∷ ms) = (if m.rcpt_domain == d then 1 else 0) + count_to d ms

count_to-snoc :
    (d : String) (ms : List OutMessage) (m : OutMessage)
    → count_to d (ms ++ m ∷ []) ≡ count_to d ms + (if m.rcpt_domain == d then 1 else 0)
unfolding count_to
count_to-snoc d [] m = ground arith
count_to-snoc d (x ∷ ms) m = omega (arith, count_to-snoc d ms m)

sent_to-insert :
    (k d : String) (n : ℕ) (m : Map ℕ)
    → sent_to d (insert k n m) ≡ (if k == d then n else sent_to d m)
unfolding sent_to
sent_to-insert k d n m = ground (arith, lookup-insert k d n m)

module _ {fl : Floats} {qs : QueueStore} {W : Type 0} where
  -- the same sender, with a list of the messages that it was given
  abbrev pub logged : Config fl qs W → Config fl qs (W × List OutMessage)
  logged cfg = record {
    send = λ w m ip. let (res, w') = cfg.send w.0 m ip in (res, (w', w.1 ++ m ∷ []));
    pool = cfg.pool;
    max_per_domain = cfg.max_per_domain;
    max_attempts = cfg.max_attempts;
    backoff = cfg.backoff;
  }

  record Within (max : ℕ) (p : Pass fl qs (W × List OutMessage)) : Type 0 where
    counted : (d : String) → count_to d p.world.1 ≡ sent_to d p.per_domain
    capped : (d : String) → sent_to d p.per_domain ≤ max

  -- what follows a call of the sender leaves both counts alone
  settle-Within :
      (cfg : Config fl qs W) (now : ℕ) (q : QueuedItem) (st : SendStatus) (err : Option String)
      (p : Pass fl qs (W × List OutMessage))
      → Within cfg.max_per_domain p
      → Within cfg.max_per_domain (settle (logged cfg) now q (record { status = st; err = err }) p)
  unfolding settle bounce defer
  settle-Within cfg now q delivered err p h = record { counted = h.counted; capped = h.capped }
  settle-Within cfg now q temp_fail err p h =
      elim (Bool-cases (leb cfg.max_attempts (q.attempts + 1))) [
        | inl last ↦ rw last (record { counted = h.counted; capped = h.capped })
        | inr more ↦ rw more (record { counted = h.counted; capped = h.capped })
      ]
  settle-Within cfg now q perm_fail err p h = record { counted = h.counted; capped = h.capped }

  gate-open :
      (cfg : Config fl qs W) (now : ℕ) (q : QueuedItem) (p : Pass fl qs (W × List OutMessage))
      → gate (logged cfg) now q p ≡ open_gate
      → sent_to q.msg.rcpt_domain p.per_domain < cfg.max_per_domain
  unfolding gate
  gate-open cfg now q p h = ground arith

  sent-Within :
      (cfg : Config fl qs W) (now : ℕ) (q : QueuedItem) (p : Pass fl qs (W × List OutMessage))
      → sent_to q.msg.rcpt_domain p.per_domain < cfg.max_per_domain
      → Within cfg.max_per_domain p
      → Within cfg.max_per_domain (sent (logged cfg) now q p)
  unfolding sent attempt
  sent-Within cfg now q p room h = record {
    counted = λ d.
        rw (count_to-snoc, sent_to-insert)
          (ground (arith, h.counted d, eq_iff q.msg.rcpt_domain d));
    capped = λ d. rw sent_to-insert (ground (arith, h.capped d));
  }

  proceed-Within :
      (cfg : Config fl qs W) (now : ℕ) (q : QueuedItem) (p : Pass fl qs (W × List OutMessage))
      (g : Gate)
      → gate (logged cfg) now q p ≡ g
      → Within cfg.max_per_domain p
      → Within cfg.max_per_domain (proceed (logged cfg) now q p g)
  unfolding proceed hold dispatch
  proceed-Within cfg now q p open_gate e h =
      settle-Within cfg now q (attempt (logged cfg) q p).0.status (attempt (logged cfg) q p).0.err
        (sent (logged cfg) now q p) (sent-Within cfg now q p (gate-open cfg now q p e) h)
  proceed-Within cfg now q p _ e h = record { counted = h.counted; capped = h.capped }

  visit_all-Within :
      (cfg : Config fl qs W) (now : ℕ) (queue : List QueuedItem)
      (p : Pass fl qs (W × List OutMessage))
      → Within cfg.max_per_domain p
      → Within cfg.max_per_domain (visit_all (logged cfg) now queue p)
  unfolding visit_all
  visit_all-Within cfg now [] p h = h
  visit_all-Within cfg now (q ∷ queue) p h =
      visit_all-Within cfg now queue (visit (logged cfg) now q p)
        (unfold visit in proceed-Within cfg now q p (gate (logged cfg) now q p) refl h)

  -- Whatever the sender does and answers, in one pass it is given at most `max_per_domain` messages
  -- for one destination domain.
  pub tick-capped :
      (cfg : Config fl qs W) (now : ℕ) (s : Scheduler fl qs (W × List OutMessage)) (d : String)
      → s.world.1 ≡ []
      → count_to d (tick (logged cfg) now s).0.world.1 ≤ cfg.max_per_domain
  unfolding tick start
  tick-capped cfg now s d e =
      let h = visit_all-Within cfg now s.queue (start s) (record {
        counted = λ k. rw e (unfold count_to sent_to lookup in refl);
        capped = λ k. unfold sent_to lookup in omega arith;
      }) in
      omega (arith, h.counted d, h.capped d)
