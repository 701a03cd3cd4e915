-- ===== src/Mtaout/Scheduler/Crash.antt =====
-- The queue in memory and the queue in the store: `Tick`, `Enqueue` and `Recover` of
-- services/mtaout/mtaout.go.
use vulos_mail.Common.{
  ℕ, ◌+◌, ◌≡◌, refl, sym, subst, String, List, [], ◌∷◌, ◌++◌, Bool, true, false, Option, none, some,
  leb, arith, Bool-cases, inl, inr, ◌==◌, All,
}
use vulos_mail.Mtaout.{OutMessage, SendStatus, delivered, temp_fail, perm_fail}
use vulos_mail.Mtaout.Reputation.{Floats, Reputation}
use vulos_mail.Mtaout.Scheduler.{
  QueuedItem, QueueStore, Config, Pass, Scheduler, TickStats, Gate, open_gate, gate, remove_durable,
  update_durable, persist, bounce, defer, settle, attempt, sent, dispatch, hold, proceed, visit,
  visit_all, start, tick, add_duration, new_item, enqueued, enqueue, recover,
}
use vulos_mail.Mtaout.Scheduler.Durable.{
  mem, IsDurable, Steady, Apart, Distinct, All-snoc, All-both, all_trivial, apart_sym,
  Distinct-snoc, Kept, Kept-remove, Kept-update, Kept-update_self, Kept-add, Kept-add_self,
}

-- a message handed to `Enqueue`, with the id for one that has none, or a pass
pub data QueueEvent : Type 0 where
  handed_in : String → OutMessage → QueueEvent
  passed : ℕ → QueueEvent

module _ (qs : QueueStore) (law : IsDurable qs) where
  all-loaded :
      (st : qs.State) (items queue : List QueuedItem)
      → qs.load st ≡ some items
      → All (Kept qs law (some st)) queue
      → All (λ q. mem (law.image q) items) queue
  all-loaded st items [] l k = tt
  all-loaded st items (q ∷ queue) l k = (
    law.load_all st items (law.key q.msg.id) (law.image q) l k.0.1,
    all-loaded st items queue l k.1,
  )

module _ {fl : Floats} (qs : QueueStore) (law : IsDurable qs) {W : Type 0} where
  -- what holds of the loop's variables and the messages that it has not come to
  record Safe (p : Pass fl qs W) (rest : List QueuedItem) : Type 0 where
    kept : All (Kept qs law p.store) p.remaining
    kept_rest : All (Kept qs law p.store) rest
    distinct : Distinct law.key p.remaining
    distinct_rest : Distinct law.key rest
    apart : All (λ x. Apart law.key x p.remaining) rest

  -- the message is put back as `q'`, beside a store that keeps everything
  put_back :
      (q q' : QueuedItem) (rest : List QueuedItem) (p : Pass fl qs W) (o : Option qs.State)
      (st : TickStats)
      → q'.msg ≡ q.msg
      → Safe p (q ∷ rest)
      → ((x : QueuedItem)
          → Kept qs law p.store x
          → (law.key q.msg.id == law.key x.msg.id) ≡ false
          → Kept qs law o x)
      → Kept qs law o q'
      → Safe (record p { store = o; remaining = p.remaining ++ q' ∷ []; stats = st }) rest
  put_back q q' rest p o st same s others self = record {
    kept =
        All-snoc (Kept qs law o) p.remaining q'
          (All-both _ _ (Kept qs law o) others p.remaining s.kept s.apart.0) self;
    kept_rest = All-both _ _ (Kept qs law o) others rest s.kept_rest.1 s.distinct_rest.0;
    distinct = Distinct-snoc law.key q' p.remaining (rw same s.apart.0) s.distinct;
    distinct_rest = s.distinct_rest.1;
    apart =
        All-both (λ x. Apart law.key x p.remaining)
          (λ x. (law.key q.msg.id == law.key x.msg.id) ≡ false)
          (λ x. Apart law.key x (p.remaining ++ q' ∷ []))
          (λ x h a.
            All-snoc _ p.remaining q' h
              (rw same (apart_sym (law.key q.msg.id) (law.key x.msg.id) a)))
          rest s.apart.1 s.distinct_rest.0;
  }

  -- the message is done with, and removed from the store
  take_out :
      (q : QueuedItem) (rest : List QueuedItem) (p : Pass fl qs W) (rep : Option (Reputation fl))
      (bs : List (OutMessage × String)) (st : TickStats)
      → Safe p (q ∷ rest)
      → Safe
          (record p {
            store = remove_durable qs q.msg.id p.store;
            rep = rep;
            bounces = bs;
            stats = st;
          })
          rest
  take_out q rest p rep bs st s = record {
    kept =
        All-both _ _ (Kept qs law (remove_durable qs q.msg.id p.store))
          (Kept-remove qs law q.msg.id p.store) p.remaining s.kept s.apart.0;
    kept_rest =
        All-both _ _ (Kept qs law (remove_durable qs q.msg.id p.store))
          (Kept-remove qs law q.msg.id p.store) rest s.kept_rest.1 s.distinct_rest.0;
    distinct = s.distinct;
    distinct_rest = s.distinct_rest.1;
    apart = s.apart.1;
  }

  module _ (steady : Steady qs) where
    settle-Safe :
        (cfg : Config fl qs W) (now : ℕ) (q : QueuedItem) (rest : List QueuedItem) (st : SendStatus)
        (err : Option String) (p : Pass fl qs W)
        → Safe p (q ∷ rest)
        → Safe (settle cfg now q (record { status = st; err = err }) p) rest
    unfolding settle bounce defer
    settle-Safe cfg now q rest delivered err p s = take_out q rest p _ _ _ s
    settle-Safe cfg now q rest temp_fail err p s =
        elim (Bool-cases (leb cfg.max_attempts (q.attempts + 1))) [
          | inl last ↦ rw last (take_out q rest p _ _ _ s)
          | inr more ↦ rw more (
              let q' : QueuedItem = record q {
                attempts = q.attempts + 1;
                next_attempt = add_duration now (cfg.backoff (q.attempts + 1));
              } in
              put_back q q' rest p (update_durable qs q' p.store) _ refl s
                (Kept-update qs law q' p.store)
                (Kept-update_self qs law q' q p.store steady refl s.kept_rest.0))
        ]
    settle-Safe cfg now q rest perm_fail err p s = take_out q rest p _ _ _ s

    hold-Safe :
        (q : QueuedItem) (rest : List QueuedItem) (st : TickStats) (p : Pass fl qs W)
        → Safe p (q ∷ rest)
        → Safe (hold q st p) rest
    unfolding hold
    hold-Safe q rest st p s = put_back q q rest p p.store st refl s (λ x k a. k) s.kept_rest.0

    sent-Safe :
        (cfg : Config fl qs W) (now : ℕ) (q : QueuedItem) (rest : List QueuedItem)
        (p : Pass fl qs W)
        → Safe p rest
        → Safe (sent cfg now q p) rest
    unfolding sent
    sent-Safe cfg now q rest p s = record {
      kept = s.kept;
      kept_rest = s.kept_rest;
      distinct = s.distinct;
      distinct_rest = s.distinct_rest;
      apart = s.apart;
    }

    proceed-Safe :
        (cfg : Config fl qs W) (now : ℕ) (q : QueuedItem) (rest : List QueuedItem)
        (p : Pass fl qs W) (g : Gate)
        → Safe p (q ∷ rest)
        → Safe (proceed cfg now q p g) rest
    unfolding proceed dispatch
    proceed-Safe cfg now q rest p open_gate s =
        settle-Safe cfg now q rest (attempt cfg q p).0.status (attempt cfg q p).0.err
          (sent cfg now q p) (sent-Safe cfg now q (q ∷ rest) p s)
    proceed-Safe cfg now q rest p _ s = hold-Safe q rest _ p s

    visit_all-Safe :
        (cfg : Config fl qs W) (now : ℕ) (queue : List QueuedItem) (p : Pass fl qs W)
        → Safe p queue
        → Safe (visit_all cfg now queue p) []
    unfolding visit_all
    visit_all-Safe cfg now [] p s = s
    visit_all-Safe cfg now (q ∷ queue) p s =
        visit_all-Safe cfg now queue (visit cfg now q p)
          (unfold visit in proceed-Safe cfg now q queue p (gate cfg now q p) s)

  -- the queued messages have different keys, and the store holds each
  pub record IsKept (s : Scheduler fl qs W) : Type 0 where
    pub distinct : Distinct law.key s.queue
    pub kept : All (Kept qs law s.store) s.queue

  -- If the queued messages have different keys and the store holds each with its attempts and its next attempt, the
  -- same is true after a pass over a store whose updates succeed, though it may fail to remove.
  pub tick-IsKept :
      (cfg : Config fl qs W) (now : ℕ) (s : Scheduler fl qs W)
      → Steady qs
      → IsKept s
      → IsKept (tick cfg now s).0
  unfolding tick start
  tick-IsKept cfg now s steady k =
      let safe = visit_all-Safe steady cfg now s.queue (start s) (record {
        kept = tt;
        kept_rest = k.kept;
        distinct = tt;
        distinct_rest = k.distinct;
        apart = all_trivial s.queue;
      }) in
      record { distinct = safe.distinct; kept = safe.kept }

  -- the outcome of `Enqueue` on a store, by what its `Add` returned
  accepted :
      (it : QueuedItem) (s : Scheduler fl qs W) (o : Option qs.State) (b : Bool)
      → ((x : QueuedItem)
          → Kept qs law s.store x
          → (law.key it.msg.id == law.key x.msg.id) ≡ false
          → Kept qs law o x)
      → (b ≡ true → Kept qs law o it)
      → Apart law.key it s.queue
      → IsKept s
      → IsKept (enqueued it (b, o) s).1
        × ((enqueued it (b, o) s).0 ≡ true → (enqueued it (b, o) s).1.queue ≡ s.queue ++ it ∷ [])
        × ((enqueued it (b, o) s).0 ≡ false → (enqueued it (b, o) s).1.queue ≡ s.queue)
  unfolding enqueued
  accepted it s o true others self a k = (
    record {
      distinct = Distinct-snoc law.key it s.queue a k.distinct;
      kept =
          All-snoc (Kept qs law o) s.queue it (All-both _ _ (Kept qs law o) others s.queue k.kept a)
            (self refl);
    },
    (λ _. refl),
    (λ e. absurd (ground (arith, e))),
  )
  accepted it s o false others self a k = (
    record { distinct = k.distinct; kept = All-both _ _ (Kept qs law o) others s.queue k.kept a },
    (λ e. absurd (ground (arith, e))),
    (λ _. refl),
  )

  accepted_by :
      (it : QueuedItem) (s : Scheduler fl qs W) (o : Option qs.State)
      → s.store ≡ o
      → Apart law.key it s.queue
      → IsKept s
      → IsKept (enqueued it (persist qs it o) s).1
        × ((enqueued it (persist qs it o) s).0 ≡ true
            → (enqueued it (persist qs it o) s).1.queue ≡ s.queue ++ it ∷ [])
        × ((enqueued it (persist qs it o) s).0 ≡ false
            → (enqueued it (persist qs it o) s).1.queue ≡ s.queue)
  unfolding persist
  accepted_by it s none e a k = accepted it s none true (λ x h n. tt) (λ _. tt) a k
  accepted_by it s (some st) e a k =
      accepted it s (some (qs.add st it).1) (qs.add st it).0
        (λ x h n. Kept-add qs law it st x (subst (λ o. Kept qs law o x) e h) n)
        (Kept-add_self qs law it st) a k

  -- If the queued messages have different keys, the store holds each with its attempts, and none has the key of the
  -- new message, the same is true after `Enqueue`. It queues the message last if it accepts it, and leaves
  -- the queue if not.
  pub enqueue-IsKept :
      (fresh : String) (m : OutMessage) (s : Scheduler fl qs W)
      → Apart law.key (new_item fresh m) s.queue
      → IsKept s
      → IsKept (enqueue fresh m s).1
        × ((enqueue fresh m s).0 ≡ true
            → (enqueue fresh m s).1.queue ≡ s.queue ++ new_item fresh m ∷ [])
        × ((enqueue fresh m s).0 ≡ false → (enqueue fresh m s).1.queue ≡ s.queue)
  unfolding enqueue
  enqueue-IsKept fresh m s a k = accepted_by (new_item fresh m) s s.store refl a k

  unfoldable pub run_events :
      Config fl qs W → List QueueEvent → Scheduler fl qs W → Scheduler fl qs W
  unfolding enqueue tick
  run_events cfg [] s = s
  run_events cfg (handed_in fresh m ∷ es) s = run_events cfg es (enqueue fresh m s).1
  run_events cfg (passed now ∷ es) s = run_events cfg es (tick cfg now s).0

  -- each message comes under a key that no queued message has
  unfoldable pub Spaced : Config fl qs W → List QueueEvent → Scheduler fl qs W → Type 0
  Spaced cfg [] s = Unit
  Spaced cfg (handed_in fresh m ∷ es) s =
      Apart law.key (new_item fresh m) s.queue × Spaced cfg es (enqueue fresh m s).1
  Spaced cfg (passed now ∷ es) s = Spaced cfg es (tick cfg now s).0

  run_events-IsKept :
      (cfg : Config fl qs W) (es : List QueueEvent) (s : Scheduler fl qs W)
      → Steady qs
      → Spaced cfg es s
      → IsKept s
      → IsKept (run_events cfg es s)
  unfolding run_events Spaced
  run_events-IsKept cfg [] s steady sp k = k
  run_events-IsKept cfg (handed_in fresh m ∷ es) s steady sp k =
      run_events-IsKept cfg es (enqueue fresh m s).1 steady sp.1 (enqueue-IsKept fresh m s sp.0 k).0
  run_events-IsKept cfg (passed now ∷ es) s steady sp k =
      run_events-IsKept cfg es (tick cfg now s).0 steady sp (tick-IsKept cfg now s steady k)

  -- A scheduler begins with an empty queue. After any messages handed in, each under a key that no queued message
  -- has, and any passes, over a store whose updates succeed, it stops. A new scheduler with an empty queue on the
  -- store as it was left, if this can be loaded, recovers each message that was queued, with its attempts and its
  -- next attempt, in the form in which the store reads it.
  pub recover-run_events :
      (cfg : Config fl qs W) (es : List QueueEvent) (s restarted : Scheduler fl qs W)
      (st : qs.State) (items : List QueuedItem)
      → Steady qs
      → s.queue ≡ []
      → Spaced cfg es s
      → (run_events cfg es s).store ≡ some st
      → restarted.store ≡ some st
      → restarted.queue ≡ []
      → qs.load st ≡ some items
      → ((recover restarted).0 ≡ true)
        × All (λ q. mem (law.image q) (recover restarted).1.queue) (run_events cfg es s).queue
  unfolding recover
  recover-run_events cfg es s restarted st items steady empty sp e e' empty' l =
      let start : IsKept s = record {
        distinct = subst (Distinct law.key) (sym empty) tt;
        kept = subst (All (Kept qs law s.store)) (sym empty) tt;
      } in
      let k = run_events-IsKept cfg es s steady sp start in
      let kept : All (Kept qs law (some st)) (run_events cfg es s).queue =
        subst (λ o. All (Kept qs law o) (run_events cfg es s).queue) e k.kept in
      rw (e', recover, l, empty')
        (refl, all-loaded qs law st items (run_events cfg es s).queue l kept)
