-- ===== src/Tests/Hosts.antt =====
-- The limits, the delivery and the sending of the manager of accounts, at small inputs.
use vulos_mail.Common.{ℕ, ◌≡◌, String, List, [], ◌∷◌, ◌++◌, true, none, some, ◌==◌, arith}
use vulos_mail.Common.Map.{Map, lookup}
use vulos_mail.Model.{label_inbox}
use vulos_mail.EventLog.Mem.{mem_log, mem_log-IsLawful}
use vulos_mail.Projection.{messages_with_label}
use vulos_mail.Projection.Invariant.{IsValid-new}
use vulos_mail.Server.Limits.{Quota, usage_on}
use vulos_mail.Server.Limits.Capped.{Requests, Within, allowed-capped}
use vulos_mail.Server.Delivery.{deliver}
use vulos_mail.Server.Delivery.Junk.{inbox-deliver_junk}
use vulos_mail.Mtaout.{OutMessage}
use vulos_mail.Server.Sending.{Outlet, SendState}
use vulos_mail.Tests.Accounts.{mail, services, opened}

abbrev new_quota : Quota
new_quota = record { max_msgs = 2; max_bytes = 100; usage = [] }

abbrev requests : Requests
requests = ("t", 40) ∷ ("u", 90) ∷ ("t", 70) ∷ ("t", 50) ∷ ("t", 1) ∷ []

allowed-capped_example : Within 20000 "t" requests new_quota
unfolding usage_on lookup
allowed-capped_example =
    allowed-capped 20000 "t" requests new_quota (omega arith) (omega arith) (omega arith)
      (omega arith, (omega arith, (omega arith, (omega arith, (omega arith, tt))))) (omega arith)
      (omega arith)

inbox-deliver_junk_example :
    messages_with_label
      (deliver mem_log services none none true 7 (1 ∷ 2 ∷ []) opened).1.proj
      label_inbox
    ≡ messages_with_label opened.proj label_inbox
inbox-deliver_junk_example =
    inbox-deliver_junk mem_log mem_log-IsLawful services none none true 7 (1 ∷ 2 ∷ []) opened
      IsValid-new tt

abbrev recipients : List String
recipients = "bob@y.org" ∷ "cid@z.org" ∷ "dan@y.org" ∷ []

-- a queue that takes every message, and no other part
abbrev outlet : Outlet (List OutMessage) ℕ
outlet = record {
  parse = λ raw. some (mail "<a@x.org>");
  parse_address = λ a. some a;
  trim_space = λ a. a;
  fold = λ a b. a == b;
  lower = λ a. a;
  plans = none;
  abuse = none;
  sign = none;
  enqueue = λ q m. (true, q ++ m ∷ []);
}

abbrev sending : SendState (List OutMessage) ℕ
sending = record {
  limits = record { plan_cache = []; sends = []; quota = none; registry = none };
  filter = 0;
  queue = [];
}
