-- ===== src/Mtaout/Scheduler/Queue.antt =====
-- The attempts of the messages that a pass leaves queued: `Tick` of services/mtaout/mtaout.go.
use vulos_mail.Common.{
  ℕ, ◌+◌, ◌<◌, String, List, [], ◌∷◌, ◌++◌, Option, leb, All, Bool-cases, inl, inr, leb_false→lt,
}
use vulos_mail.Mtaout.{SendStatus, delivered, temp_fail, perm_fail}
use vulos_mail.Mtaout.Reputation.{Floats}
use vulos_mail.Mtaout.Scheduler.{
  QueuedItem, QueueStore, Config, Pass, Scheduler, Gate, open_gate, gate, bounce, defer, settle,
  attempt, sent, dispatch, hold, proceed, visit, visit_all, start, tick,
}

module _ {ℓ κ} {A : Type ℓ} (P : A → Type κ) where
  pub All-snoc : (xs : List A) (x : A) → All P xs → P x → All P (xs ++ x ∷ [])
  All-snoc [] x h p = (p, tt)
  All-snoc (y ∷ xs) x h p = (h.0, All-snoc xs x h.1 p)

module _ {fl : Floats} {qs : QueueStore} {W : Type 0} where
  abbrev pub Fresh : Config fl qs W → QueuedItem → Type 0
  Fresh cfg q = q.attempts < cfg.max_attempts

  settle-Fresh :
      (cfg : Config fl qs W) (now : ℕ) (q : QueuedItem) (st : SendStatus) (err : Option String)
      (p : Pass fl qs W)
      → All (Fresh cfg) p.remaining
      → All (Fresh cfg) (settle cfg now q (record { status = st; err = err }) p).remaining
  unfolding settle bounce defer
  settle-Fresh cfg now q delivered err p h = h
  settle-Fresh cfg now q temp_fail err p h =
      elim (Bool-cases (leb cfg.max_attempts (q.attempts + 1))) [
        | inl last ↦ rw last h
        | inr more ↦ rw more (
            All-snoc (Fresh cfg) p.remaining _ h
              (leb_false→lt cfg.max_attempts (q.attempts + 1) more))
      ]
  settle-Fresh cfg now q perm_fail err p h = h

  proceed-Fresh :
      (cfg : Config fl qs W) (now : ℕ) (q : QueuedItem) (p : Pass fl qs W) (g : Gate)
      → Fresh cfg q
      → All (Fresh cfg) p.remaining
      → All (Fresh cfg) (proceed cfg now q p g).remaining
  unfolding proceed hold dispatch
  proceed-Fresh cfg now q p open_gate f h =
      settle-Fresh cfg now q (attempt cfg q p).0.status (attempt cfg q p).0.err (sent cfg now q p) h
  proceed-Fresh cfg now q p _ f h = All-snoc (Fresh cfg) p.remaining q h f

  visit_all-Fresh :
      (cfg : Config fl qs W) (now : ℕ) (queue : List QueuedItem) (p : Pass fl qs W)
      → All (Fresh cfg) queue
      → All (Fresh cfg) p.remaining
      → All (Fresh cfg) (visit_all cfg now queue p).remaining
  unfolding visit_all
  visit_all-Fresh cfg now [] p f h = h
  visit_all-Fresh cfg now (q ∷ queue) p f h =
      visit_all-Fresh cfg now queue (visit cfg now q p) f.1
        (unfold visit in proceed-Fresh cfg now q p (gate cfg now q p) f.0 h)

  -- A message that is queued after a pass has fewer attempts than the limit, if this held before.
  pub tick-Fresh :
      (cfg : Config fl qs W) (now : ℕ) (s : Scheduler fl qs W)
      → All (Fresh cfg) s.queue
      → All (Fresh cfg) (tick cfg now s).0.queue
  unfolding tick start
  tick-Fresh cfg now s f = visit_all-Fresh cfg now s.queue (start s) f tt
