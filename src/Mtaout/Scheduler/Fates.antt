-- ===== src/Mtaout/Scheduler/Fates.antt =====
-- What becomes of each message of a pass: `Tick` of services/mtaout/mtaout.go.
use vulos_mail.Common.{
  ℕ, ◌+◌, ◌≤◌, ◌<◌, ◌≡◌, refl, sym, ap, ◌∙◌, String, List, [], ◌∷◌, ◌++◌, Option, leb, length,
  length-append, arith, Bool-cases, inl, inr, leb→le, leb_false→lt,
}
use mathlib.Core.List.{append-nil, append_assoc}
use vulos_mail.Mtaout.{OutMessage, SendStatus, delivered, temp_fail, perm_fail}
use vulos_mail.Mtaout.Reputation.{Floats}
use vulos_mail.Mtaout.Scheduler.{
  SendResult, QueuedItem, QueueStore, Config, Pass, Scheduler, TickStats, Gate, not_due, throttled,
  warmup_held, rate_held, open_gate, gate, bounce, defer, settle, attempt, sent, dispatch, hold,
  proceed, visit, visit_all, start, tick, add_duration, source_ip, reason_of,
}

module _ {fl : Floats} {qs : QueueStore} {W : Type 0} (cfg : Config fl qs W) (now : ℕ) where
  -- an answer of the sender to the message, in some world
  abbrev pub Answered : QueuedItem → SendStatus → Option String → Type 0
  Answered q st err =
      (w : W) × ((cfg.send w q.msg (source_ip cfg.pool q.msg)).0
        ≡ (let r : SendResult = record { status = st; err = err } in r))

  -- What becomes of one item: what counts as delivered, what is handed to the bounce callback, and what stays
  -- queued.
  pub data Fate (q : QueuedItem)
      : List OutMessage → List (OutMessage × String) → List QueuedItem → Type 0 where
    arrived : {err : Option String} → Answered q delivered err → Fate q (q.msg ∷ []) [] []
    refused :
        {err : Option String}
        → Answered q perm_fail err
        → Fate q [] ((q.msg, reason_of err) ∷ []) []
    given_up :
        {err : Option String}
        → Answered q temp_fail err
        → cfg.max_attempts ≤ q.attempts + 1
        → Fate q [] ((q.msg, "too many delivery attempts") ∷ []) []
    put_off :
        {err : Option String}
        → Answered q temp_fail err
        → q.attempts + 1 < cfg.max_attempts
        → Fate q [] [] (
            record q {
              attempts = q.attempts + 1;
              next_attempt = add_duration now (cfg.backoff (q.attempts + 1));
            }
            ∷ [])
    passed_over : Fate q [] [] (q ∷ [])

  pub data Fates
      : List QueuedItem
        → List OutMessage
        → List (OutMessage × String)
        → List QueuedItem
        → Type 0 where
    nothing_left : Fates [] [] [] []
    and_then :
        {q : QueuedItem} {queue : List QueuedItem} {d d' : List OutMessage}
        {b b' : List (OutMessage × String)} {r r' : List QueuedItem}
        → Fate q d b r
        → Fates queue d' b' r'
        → Fates (q ∷ queue) (d ++ d') (b ++ b') (r ++ r')

  -- what a part of the loop adds to its variables
  record Added (F : List OutMessage → List (OutMessage × String) → List QueuedItem → Type 0)
      (p p' : Pass fl qs W) : Type 0 where
    d : List OutMessage
    b : List (OutMessage × String)
    r : List QueuedItem
    fate : F d b r
    remaining : p'.remaining ≡ p.remaining ++ r
    bounces : p'.bounces ≡ p.bounces ++ b
    delivered_n : p'.stats.delivered_n ≡ p.stats.delivered_n + length d
    bounced_n : p'.stats.bounced_n ≡ p.stats.bounced_n + length b

  hold-Added :
      (q : QueuedItem) (st : TickStats) (p : Pass fl qs W)
      → st.delivered_n ≡ p.stats.delivered_n
      → st.bounced_n ≡ p.stats.bounced_n
      → Added (Fate q) p (hold q st p)
  unfolding hold
  hold-Added q st p d b = record {
    d = [];
    b = [];
    r = q ∷ [];
    fate = passed_over;
    remaining = refl;
    bounces = sym (append-nil p.bounces);
    delivered_n = omega (arith, d);
    bounced_n = omega (arith, b);
  }

  settle-Added :
      (q : QueuedItem) (st : SendStatus) (err : Option String) (p : Pass fl qs W)
      → Answered q st err
      → Added (Fate q) p (settle cfg now q (record { status = st; err = err }) p)
  unfolding settle bounce defer
  settle-Added q delivered err p a = record {
    d = q.msg ∷ [];
    b = [];
    r = [];
    fate = arrived a;
    remaining = sym (append-nil p.remaining);
    bounces = sym (append-nil p.bounces);
    delivered_n = refl;
    bounced_n = omega arith;
  }
  settle-Added q temp_fail err p a = elim (Bool-cases (leb cfg.max_attempts (q.attempts + 1))) [
    | inl last ↦ rw last (record {
      d = [];
      b = (q.msg, "too many delivery attempts") ∷ [];
      r = [];
      fate = given_up a (leb→le cfg.max_attempts (q.attempts + 1) last);
      remaining = sym (append-nil p.remaining);
      bounces = refl;
      delivered_n = omega arith;
      bounced_n = refl;
    })
    | inr more ↦ rw more (record {
      d = [];
      b = [];
      r = _;
      fate = put_off a (leb_false→lt cfg.max_attempts (q.attempts + 1) more);
      remaining = refl;
      bounces = sym (append-nil p.bounces);
      delivered_n = omega arith;
      bounced_n = omega arith;
    })
  ]
  settle-Added q perm_fail err p a = record {
    d = [];
    b = (q.msg, reason_of err) ∷ [];
    r = [];
    fate = refused a;
    remaining = sym (append-nil p.remaining);
    bounces = refl;
    delivered_n = omega arith;
    bounced_n = refl;
  }

  dispatch-Added : (q : QueuedItem) (p : Pass fl qs W) → Added (Fate q) p (dispatch cfg now q p)
  unfolding dispatch sent attempt
  dispatch-Added q p =
      let a =
        settle-Added q (attempt cfg q p).0.status (attempt cfg q p).0.err (sent cfg now q p)
          (p.world, refl) in
      record {
        d = a.d;
        b = a.b;
        r = a.r;
        fate = a.fate;
        remaining = a.remaining;
        bounces = a.bounces;
        delivered_n = a.delivered_n;
        bounced_n = a.bounced_n;
      }

  proceed-Added :
      (q : QueuedItem) (p : Pass fl qs W) (g : Gate) → Added (Fate q) p (proceed cfg now q p g)
  unfolding proceed
  proceed-Added q p not_due = hold-Added q _ p refl refl
  proceed-Added q p throttled = hold-Added q _ p refl refl
  proceed-Added q p warmup_held = hold-Added q _ p refl refl
  proceed-Added q p rate_held = hold-Added q _ p refl refl
  proceed-Added q p open_gate = dispatch-Added q p

  visit_all-Added :
      (queue : List QueuedItem) (p : Pass fl qs W)
      → Added (Fates queue) p (visit_all cfg now queue p)
  unfolding visit_all
  visit_all-Added [] p = record {
    d = [];
    b = [];
    r = [];
    fate = nothing_left;
    remaining = sym (append-nil p.remaining);
    bounces = sym (append-nil p.bounces);
    delivered_n = omega arith;
    bounced_n = omega arith;
  }
  visit_all-Added (q ∷ queue) p =
      let one : Added (Fate q) p (visit cfg now q p) =
        unfold visit in proceed-Added q p (gate cfg now q p) in
      let more = visit_all-Added queue (visit cfg now q p) in
      record {
        d = one.d ++ more.d;
        b = one.b ++ more.b;
        r = one.r ++ more.r;
        fate = and_then one.fate more.fate;
        remaining =
            more.remaining
            ∙ (ap (λ xs. xs ++ more.r) one.remaining ∙ append_assoc p.remaining one.r more.r);
        bounces =
            more.bounces
            ∙ (ap (λ xs. xs ++ more.b) one.bounces ∙ append_assoc p.bounces one.b more.b);
        delivered_n =
            omega (arith, one.delivered_n, more.delivered_n, length-append {0} one.d more.d);
        bounced_n = omega (arith, one.bounced_n, more.bounced_n, length-append {0} one.b more.b);
      }

  -- What becomes of the queue in a pass, message for message and in its order: each one either is delivered, as the
  -- sender answered; or is handed to the bounce callback, refused by the sender or after its last attempt failed for
  -- now; or is queued again with one attempt more and its next attempt put off; or is queued as it was. The queue
  -- after the pass, the bounces and the counts of the delivered and the bounced are exactly these.
  pub tick-Fates :
      (s : Scheduler fl qs W)
      → let (s', st, bounces) = tick cfg now s in
        (d : List OutMessage) × (Fates s.queue d bounces s'.queue
          × ((st.delivered_n ≡ length d) × (st.bounced_n ≡ length bounces)))
  unfolding tick start
  tick-Fates s =
      let a = visit_all-Added s.queue (start s) in
      rw (a.bounces, a.remaining)
        (a.d, (a.fate, (a.delivered_n ∙ omega arith, a.bounced_n ∙ omega arith)))
