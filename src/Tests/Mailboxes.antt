-- ===== src/Tests/Mailboxes.antt =====
-- The session of IMAP and what came in by SMTP, at small inputs.
use vulos_mail.Common.{
  ℕ, ◌≡◌, refl, inr, List, [], ◌∷◌, Bool, true, false, not, none, some, keep, elem, All, ◌==◌,
  if◌then◌else◌, eqb, arith, String,
}
use vulos_mail.Model.{Message, flag_seen}
use vulos_mail.EventLog.Mem.{mem_log}
use vulos_mail.Imap.Session.{Range, Session, StoreState, set_flags, apply_store}
use vulos_mail.Imap.Session.Flags.{imap_seen, model_flag}
use vulos_mail.Imap.Session.Commands.{is_doomed, expunge}
use vulos_mail.Imap.Session.Expunged.{remove_numbers, unlabel_all, expunge_in_step}
use vulos_mail.Imap.Session.Stored.{IsKnown, is_shown, wanted_flag, shown-apply_store}
use vulos_mail.Inbound.EmailAuth.{Checks, found, verify}
use vulos_mail.Inbound.Smtp.{Backend, DeliverFunc}
use vulos_mail.Inbound.Smtp
use vulos_mail.Inbound.Policy.{verify_verdict}
use vulos_mail.Mtaout.{OutMessage, transactional}
use vulos_mail.Inbound.Submission.{SubmitBackend}
use vulos_mail.Inbound.Submission.Sender.{
  Command, log_in, rcpt, hand_in, Served, serve, IsOwn, serve-IsOwn,
}
use vulos_mail.Tests.Accounts.{mail, services, opened}

abbrev letter : String → Message
letter name = record {
  id = name;
  blob_ref = "ref";
  envelope = mail "<a@x.org>";
  size = 3;
  thread_id = "t";
  labels = ("inbox", true) ∷ [];
  flags = ("seen", true) ∷ [];
}

abbrev session : Session mem_log services
session = record {
  rt = opened;
  sel_label = "inbox";
  msgs =
      record { uid = 4; id = "m1"; msg = letter "m1" }
      ∷ record { uid = 6; id = "m2"; msg = letter "m2" }
      ∷ record { uid = 9; id = "m3"; msg = letter "m3" }
      ∷ [];
  deleted = ("m1", true) ∷ ("m3", true) ∷ [];
  search_res = [];
}

abbrev in_first : List Range → ℕ → Bool
in_first [] n = false
in_first (r ∷ rs) n = eqb r.start n

expunge_in_step_example :
    let doomed = is_doomed in_first none session.deleted in
    let (ok, numbers, after) = expunge 7 in_first (λ n. true) (λ n. n) none session in
    (ok ≡ true)
    × ((remove_numbers numbers session.msgs ≡ after.msgs)
        × ((after.msgs ≡ keep (λ m. not (doomed m)) session.msgs)
            × (after.rt
                ≡ unlabel_all 7 doomed session.sel_label (keep doomed session.msgs) session.rt)))
expunge_in_step_example =
    expunge_in_step 7 in_first (λ n. true) (λ n. n) none session (λ k. refl) (λ k. refl)
      (omega arith)

abbrev before_store : StoreState mem_log services
before_store = record { msg = letter "m1"; rt = opened; deleted = [] }

seen-IsKnown : IsKnown imap_seen
unfolding model_flag
seen-IsKnown = inr (flag_seen, refl)

shown-apply_store_example :
    is_shown "m1" (apply_store 7 "m1" set_flags ("\\Deleted" ∷ []) before_store) imap_seen
    ≡ wanted_flag set_flags
        (elem imap_seen ("\\Deleted" ∷ []))
        (is_shown "m1" before_store imap_seen)
shown-apply_store_example =
    shown-apply_store 7 "m1" set_flags ("\\Deleted" ∷ []) imap_seen before_store seen-IsKnown

abbrev checks : Checks
checks = record {
  Peer = ℕ;
  lower = λ s. s;
  lower_bytes = λ b. b;
  parse = λ raw. some (mail "<a@x.org>");
  spf = λ peer helo from. if eqb peer 1 then "pass" else "fail";
  verify_signatures = λ raw. some [];
  lookup_dmarc = λ domain. found "quarantine";
}

-- the mailboxes that a message has gone to
abbrev into : String → DeliverFunc (List String)
into box w to raw = (true, box ∷ w)

abbrev backend : Backend ℕ (List String)
backend = record {
  deliver = into "inbox";
  verify = none;
  verify_verdict = some (verify_verdict checks);
  auth_serv_id = "mx.y.org";
  known_rcpt = none;
  deliver_junk = some (into "spam");
}

abbrev envelope_of_session : Smtp.Session
envelope_of_session = record { from = "eve@evil.org"; rcpts = "bob@y.org" ∷ [] }

-- "From: a", and an empty line
abbrev raw_message : List ℕ
raw_message = 70 ∷ 114 ∷ 111 ∷ 109 ∷ 58 ∷ 32 ∷ 97 ∷ 10 ∷ 10 ∷ []

-- a world of two logins, which takes every message
abbrev submit_backend : SubmitBackend String (List OutMessage)
submit_backend = record {
  auth = λ name password. if password == "secret" then some (name, "x.org") else none;
  enqueue = λ q m. (true, m ∷ q);
  class = transactional;
  sign = none;
  abuse = none;
  quota = none;
  ingest_sent = λ q rt raw. (true, q);
  parse = λ raw. some (mail "<a@x.org>");
  fold = λ a b. a == b;
}

abbrev dialogue : List Command
dialogue =
    hand_in (1 ∷ [])
    ∷ log_in 1 "10.0.0.9" "ann@x.org" "guess"
    ∷ log_in 2 "10.0.0.9" "ann@x.org" "secret"
    ∷ Command.mail "eve@evil.org"
    ∷ rcpt "bob@y.org"
    ∷ hand_in (1 ∷ 2 ∷ [])
    ∷ []

abbrev connected : Served String (List OutMessage)
connected = record {
  session = record { login = none; account = ""; from = ""; rcpts = [] };
  limiter = none;
  world = [];
  handed = [];
}

serve-IsOwn_example : All (IsOwn submit_backend) (serve submit_backend dialogue connected).handed
serve-IsOwn_example = serve-IsOwn submit_backend dialogue connected refl refl refl
