-- ===== src/Server/Vacation.antt =====
-- internal/mailsettings/mailsettings.go, and `maybeVacation` and `tenantOf` of internal/server/manager.go. Case folding
-- and UTF-8 of package strings and the parser of messages are arguments; a time is a number of nanoseconds.
use vulos_mail.Common.{
  ℕ, ◌+◌, String, List, [], ◌∷◌, ◌++◌, Bool, true, false, not, ◌&&◌, ◌||◌, Option, none, some, ◌==◌,
  eqb, ltb, if◌then◌else◌,
}
use vulos_mail.Common.Map.{Map, lookup, insert}
use vulos_mail.Common.Text.{cat, after_last, before_first, has_prefix, contains, ascii}
use vulos_mail.Model.{Envelope}
use vulos_mail.Account.{Raw}
use vulos_mail.Inbound.Smtp.{cut_before}
use vulos_mail.Mtaout.{OutMessage, transactional}

-- `tenantOf`
unfoldable pub tenant_of : String → String
tenant_of address = elim (after_last 64 address) [ none ↦ address | some d ↦ d ]

-- `Vacation` and `Settings` of internal/mailsettings
pub record Vacation : Type 0 where
  pub enabled : Bool
  pub subject : String
  pub body : String

pub record Settings : Type 0 where
  pub signature : String
  pub aliases : List String
  pub vacation : Vacation
  pub home_region : String

-- the zero value
abbrev pub no_settings : Settings
no_settings = record {
  signature = "";
  aliases = [];
  vacation = record { enabled = false; subject = ""; body = "" };
  home_region = "";
}

pub record Responder : Type 0 where
  pub period : ℕ
  pub last : Map ℕ

-- `NewResponder`: a period of 0 takes the default of a week
unfoldable pub new_responder : ℕ → Responder
new_responder period = record {
  period = if eqb period 0 then 604800000000000 else period;
  last = [];
}

module _ (lower : String → String) where
  -- `Store.Get`
  unfoldable pub get_settings : String → Map Settings → Settings
  get_settings account m = elim (lookup (lower account) m) [ none ↦ no_settings | some st ↦ st ]

  -- `Store.Set`
  unfoldable pub set_settings : String → Settings → Map Settings → Map Settings
  set_settings account st m = insert (lower account) st m

  -- `ShouldReply`
  unfoldable pub should_reply : ℕ → String → String → Responder → Bool × Responder
  should_reply now account sender r =
      let key = cat (lower account) (cat "|" (lower sender)) in
      if elim (lookup key r.last) [ none ↦ false | some at ↦ ltb now (at + r.period) ]
      then (false, r)
      else (true, record r { last = insert key now r.last })

  -- `IsDaemonAddress`
  unfoldable pub is_daemon_address : String → Bool
  is_daemon_address address =
      let lp = before_first 64 (lower address) in
      lp == "mailer-daemon"
      || (lp == "postmaster"
          || (lp == "noreply"
              || (lp == "no-reply" || (lp == "donotreply" || lp == "do-not-reply"))))

-- `IsAutomated`
unfoldable pub is_automated : (Raw → Raw) → Raw → Bool
is_automated lower_bytes raw =
    let h =
      lower_bytes (elim (cut_before (13 ∷ 10 ∷ 13 ∷ 10 ∷ []) raw) [
        | none ↦ raw
        | some (head, rest) ↦ head
      ]) in
    (contains (10 ∷ ascii "auto-submitted:") h && not (contains (ascii "auto-submitted: no") h))
    || ((has_prefix (ascii "auto-submitted:") h && not (has_prefix (ascii "auto-submitted: no") h))
        || (contains (10 ∷ ascii "list-id:") h
            || (contains (10 ∷ ascii "precedence: bulk") h
                || contains (10 ∷ ascii "precedence: list") h)))

-- `BuildReply`
unfoldable pub build_reply : (String → Raw) → String → String → String → String → Raw
build_reply utf8 from to subject body =
    let line = λ (t : String). utf8 t ++ 13 ∷ 10 ∷ [] in
    line (cat "From: " from)
    ++ (line (cat "To: " to)
        ++ (line (cat "Subject: " (if subject == "" then "Out of office" else subject))
            ++ (ascii "Auto-Submitted: auto-replied\r\n"
                ++ (ascii "Content-Type: text/plain; charset=utf-8\r\n\r\n" ++ line body))))

-- what `maybeVacation` calls
pub record Mailing : Type 0 where
  pub lower : String → String
  pub lower_bytes : Raw → Raw
  pub fold : String → String → Bool
  pub utf8 : String → Raw
  pub parse : Raw → Option Envelope

-- the sender that may get a reply
unfoldable pub reply_to : Mailing → String → Raw → Option String
unfolding is_automated is_daemon_address
reply_to k account raw = elim (k.parse raw) [
  | none ↦ none
  | some env ↦ elim (env.from_addrs) [
    | [] ↦ none
    | sender ∷ others ↦
        if sender == ""
          || (k.fold sender account
              || (is_automated k.lower_bytes raw || is_daemon_address k.lower sender))
        then none
        else some sender
  ]
]

-- `maybeVacation`: the message that it queues
unfoldable pub maybe_vacation :
    Mailing → ℕ → Map Settings → String → Raw → Responder → Option OutMessage × Responder
unfolding reply_to should_reply build_reply get_settings tenant_of
maybe_vacation k now settings account raw r =
    let v = (get_settings k.lower account settings).vacation in
    if not v.enabled then (none, r) else elim (reply_to k account raw) [
      | none ↦ (none, r)
      | some sender ↦
          let (due, r') = should_reply k.lower now account sender r in
          (
            if due
                then some (record {
                  id = "";
                  tenant = tenant_of account;
                  from_domain = tenant_of account;
                  rcpt_domain = tenant_of sender;
                  from_addr = account;
                  rcpts = sender ∷ [];
                  raw = build_reply k.utf8 account sender v.subject v.body;
                  class = transactional;
                })
                else none,
            r',
          )
    ]
