-- ===== src/Inbound/Submission/Sender.antt =====
-- Whom the messages of a submission session of adapters/smtp/submission.go come from.
use vulos_mail.Common.{
  ℕ, ◌≡◌, ◌≢◌, ◌⊎◌, inl, inr, refl, ap, String, List, [], ◌∷◌, ◌++◌, true, false, not, ◌&&◌, Option,
  none, some, ◌==◌, if◌then◌else◌, length, All, arith, eq_iff, Bool-cases, Option-cases,
}
use vulos_mail.Common.Map.{Map, is_some}
use vulos_mail.Account.{Raw}
use vulos_mail.Guards.Authlimit.{Limiter, any_locked}
use vulos_mail.Inbound.Submission.{
  SubmitBackend, SubmitSession, authenticate, submit_mail, submit_rcpt, submit_reset, submit_data,
  send_submitted, hand_over, submitted, effective_from, is_own_from, abuse_gate, quota_gate,
  sign_from, rcpts_by_domain,
}
use vulos_mail.Mtaout.{OutMessage}

-- what a client does, with the time and the address of an attempt to log in
pub data Command : Type 0 where
  log_in : ℕ → String → String → String → Command
  mail rcpt : String → Command
  reset : Command
  hand_in : Raw → Command

-- a connection: the messages that were handed to the scheduler stand with the account of their session
pub record Served (R Q : Type 0) : Type 0 where
  pub session : SubmitSession R
  pub limiter : Option Limiter
  pub world : Q
  pub handed : List (String × OutMessage)

abbrev pub with_account : String → List OutMessage → List (String × OutMessage)
with_account a [] = []
with_account a (m ∷ ms) = (a, m) ∷ with_account a ms

there : {A : Type 0} {o : Option A} {a : A} → o ≡ some a → o ≢ none
there e n = cc

module _ {A : Type 0} (P : A → Type 0) where
  All-append : (xs ys : List A) → All P xs → All P ys → All P (xs ++ ys)
  All-append [] ys h k = k
  All-append (x ∷ xs) ys h k = (h.0, All-append xs ys h.1 k)

module _ {R Q : Type 0} (b : SubmitBackend R Q) where
  -- go-smtp answers AUTH itself after a login
  unfoldable pub obey : Command → Served R Q → Served R Q
  unfolding submit_mail submit_rcpt submit_reset
  obey (log_in now ip name password) v =
      if is_some v.session.login
      then v
      else (let ((ok, s), lim) = authenticate b now ip name password v.limiter v.session in
          record v { session = s; limiter = lim })
  obey (mail from) v = record v { session = (submit_mail b from v.session).1 }
  obey (rcpt to) v = record v { session = submit_rcpt to v.session }
  obey reset v = record v { session = submit_reset v.session }
  obey (hand_in raw) v =
      let ((reply, ms), q) = submit_data b raw v.session v.world in
      record v { world = q; handed = v.handed ++ with_account v.session.account ms }

  unfoldable pub serve : List Command → Served R Q → Served R Q
  unfolding obey
  serve [] v = v
  serve (c ∷ cs) v = serve cs (obey c v)

  -- the account logged in, and the message is from it
  abbrev pub IsOwn : String × OutMessage → Type 0
  IsOwn (account, m) =
      ((password : String) × ((b.auth account password) ≢ none))
      × ((m.from_addr ≡ account) ⊎ (b.fold m.from_addr account ≡ true))

  -- a session before its login, and after it
  abbrev pub IsBound : SubmitSession R → Type 0
  IsBound s =
      ((s.login ≡ none) × (s.from ≡ ""))
      ⊎ ((s.login ≢ none)
          × (((password : String) × ((b.auth s.account password) ≢ none))
              × ((s.from ≡ "") ⊎ (b.fold s.from s.account ≡ true))))

  from-hand_over :
      (tenant sender : String) (raw : Raw) (ds : Map (List String)) (q : Q)
      → All (λ m. m.from_addr ≡ sender) (hand_over b tenant sender raw ds q).0.1
  unfolding hand_over submitted
  from-hand_over tenant sender raw [] q = tt
  from-hand_over tenant sender raw ((d, rcpts) ∷ rest) q =
      let m = submitted b tenant sender raw d rcpts in
      elim (Bool-cases (b.enqueue q m).0) [
        | inl ok ↦ rw ok (refl, from-hand_over tenant sender raw rest (b.enqueue q m).1)
        | inr bad ↦ rw bad (refl, tt)
      ]

  from-send_submitted :
      (rt : R × String) (raw : Raw) (s : SubmitSession R) (q : Q)
      → All (λ m. m.from_addr ≡ effective_from s) (send_submitted b rt raw s q).0.1
  unfolding send_submitted
  from-send_submitted (rt, tenant) raw s q =
      elim (Bool-cases (b.ingest_sent q rt (sign_from b (effective_from s) raw)).0) [
        | inl ok ↦ rw ok (
            from-hand_over tenant (effective_from s) (sign_from b (effective_from s) raw)
              (rcpts_by_domain s.rcpts []) _)
        | inr bad ↦ rw bad tt
      ]

  -- Data hands over messages from the effective sender, and none before a login
  from-submit_data :
      (raw : Raw) (s : SubmitSession R) (q : Q)
      → ((submit_data b raw s q).0.1 ≡ [])
        ⊎ ((s.login ≢ none) × All (λ m. m.from_addr ≡ effective_from s) (submit_data b raw s q).0.1)
  unfolding submit_data
  from-submit_data raw s q = elim (Option-cases (s.login)) [
    | inl out ↦ inl (rw (submit_data, out) refl)
    | inr (rt, logged) ↦ elim (Bool-cases (is_own_from b s.account raw)) [
      | inr foreign ↦ inl (rw (submit_data, logged, foreign) refl)
      | inl own ↦ elim (Option-cases (abuse_gate b s.account (length s.rcpts) q).0) [
        | inr (code, held) ↦ inl (rw (submit_data, logged, own, held) refl)
        | inl free ↦
            elim (Option-cases
              (quota_gate b s.account (length raw)
                (abuse_gate b s.account (length s.rcpts) q).1).0) [
                  | inr (code, over) ↦ inl (rw (submit_data, logged, own, free, over) refl)
                  | inl fits ↦ inr (
                    there logged,
                    rw (submit_data, logged, own, free, fits) (from-send_submitted rt raw s _),
                  )
                ]
      ]
    ]
  ]

  own_sender :
      (s : SubmitSession R)
      → (s.from ≡ "") ⊎ (b.fold s.from s.account ≡ true)
      → (effective_from s ≡ s.account) ⊎ (b.fold (effective_from s) s.account ≡ true)
  unfolding effective_from
  own_sender s (inl null) = inl (rw null refl)
  own_sender s (inr same) = elim (Bool-cases (s.from == "")) [
    | inl null ↦ inl (rw null refl)
    | inr named ↦ inr (rw named same)
  ]

  IsOwn-with_account :
      (a : String) (ms : List OutMessage) (sender : String)
      → ((password : String) × ((b.auth a password) ≢ none))
      → (sender ≡ a) ⊎ (b.fold sender a ≡ true)
      → All (λ m. m.from_addr ≡ sender) ms
      → All IsOwn (with_account a ms)
  IsOwn-with_account a [] sender known own h = tt
  IsOwn-with_account a (m ∷ ms) sender known own h =
      ((known, rw (h.0) own), IsOwn-with_account a ms sender known own h.1)

  IsBound-mail :
      (from : String) (s : SubmitSession R) → IsBound s → IsBound (submit_mail b from s).1
  unfolding submit_mail
  IsBound-mail from s (inl (out, null)) =
      let closed : is_some s.login ≡ false = ap is_some out in rw closed (inl (out, null))
  IsBound-mail from s (inr (inside, (known, own))) = elim (Bool-cases (is_some s.login)) [
    | inr out ↦ rw out (inr (inside, (known, own)))
    | inl logged ↦ rw logged (elim (Bool-cases (not (from == "") && not (b.fold from s.account))) [
      | inl foreign ↦ rw foreign (inr (inside, (known, own)))
      | inr fine ↦ rw fine (
          inr (
            inside,
            (
              known,
              elim (Bool-cases (from == "")) [
                | inl null ↦ inl (ground (arith, null, eq_iff from ""))
                | inr named ↦ inr (ground (arith, named, fine))
              ],
            ),
          ))
    ])
  ]

  IsBound-authenticate :
      (now : ℕ) (ip name password : String) (lim : Option Limiter) (s : SubmitSession R)
      → s.from ≡ ""
      → IsBound s
      → IsBound (authenticate b now ip name password lim s).0.1
  unfolding authenticate
  IsBound-authenticate now ip name password none s null h =
      elim (Option-cases (b.auth name password)) [
        | inl bad ↦ rw (authenticate, bad) h
        | inr (rt, good) ↦
            rw (authenticate, good) (inr (there {a = rt} refl, ((password, there good), inl null)))
      ]
  IsBound-authenticate now ip name password (some lim) s null h =
      elim (Bool-cases (any_locked now (ip ∷ name ∷ []) lim).0) [
        | inl shut ↦ rw shut h
        | inr free ↦ elim (Option-cases (b.auth name password)) [
          | inl bad ↦ rw (authenticate, free, bad) h
          | inr (rt, good) ↦
              rw (authenticate, free, good)
                (inr (there {a = rt} refl, ((password, there good), inl null)))
        ]
      ]

  Bound : Served R Q → Type 0
  Bound v = IsBound v.session × All IsOwn v.handed

  Bound-obey : (c : Command) (v : Served R Q) → Bound v → Bound (obey c v)
  unfolding obey Bound submit_rcpt submit_reset
  Bound-obey (log_in now ip name password) v (bound, own) =
      elim (Bool-cases (is_some v.session.login)) [
        | inl logged ↦ rw logged (bound, own)
        | inr out ↦ rw out (
          IsBound-authenticate now ip name password v.limiter v.session (not_yet out bound) bound,
          own,
        )
      ]
    where
      not_yet : is_some v.session.login ≡ false → IsBound v.session → v.session.from ≡ ""
      not_yet out (inl (closed, null)) = null
      not_yet out (inr (inside, rest)) = elim (Option-cases (v.session.login)) [
        | inl none_e ↦ absurd (inside none_e)
        | inr (rt, e) ↦ ground (arith, e, out)
      ]
  Bound-obey (mail from) v (bound, own) = (IsBound-mail from v.session bound, own)
  Bound-obey (rcpt to) v (bound, own) = (bound, own)
  Bound-obey reset v (inl (out, null), own) = (inl (out, refl), own)
  Bound-obey reset v (inr (inside, (known, from)), own) = (inr (inside, (known, inl refl)), own)
  Bound-obey (hand_in raw) v (bound, own) = (
    bound,
    All-append IsOwn v.handed _ own (elim (from-submit_data raw v.session v.world) [
      | inl nothing ↦ rw nothing tt
      | inr (logged, from) ↦ of_session bound logged from
    ]),
  )
    where
      of_session :
          IsBound v.session
          → v.session.login ≢ none
          → All
              (λ m. m.from_addr ≡ effective_from v.session)
              (submit_data b raw v.session v.world).0.1
          → All IsOwn (with_account v.session.account (submit_data b raw v.session v.world).0.1)
      of_session (inl (out, null)) logged from = absurd (logged out)
      of_session (inr (inside, (known, same))) logged from =
          IsOwn-with_account v.session.account (submit_data b raw v.session v.world).0.1
            (effective_from v.session) known (own_sender v.session same) from

  Bound-serve : (cs : List Command) (v : Served R Q) → Bound v → Bound (serve cs v)
  unfolding serve
  Bound-serve [] v h = h
  Bound-serve (c ∷ cs) v h = Bound-serve cs (obey c v) (Bound-obey c v h)

  -- On a connection that begins without a login, whatever a client sends in whatever order, each message that is
  -- handed to the scheduler is from the account of the session, up to the case of letters, and a password of
  -- that account was accepted. go-smtp is taken to answer AUTH itself once there is a login.
  pub serve-IsOwn :
      (cs : List Command) (v : Served R Q)
      → v.session.login ≡ none
      → v.session.from ≡ ""
      → v.handed ≡ []
      → All IsOwn (serve cs v).handed
  unfolding Bound
  serve-IsOwn cs v out null new = (Bound-serve cs v (inl (out, null), rw new tt)).1
