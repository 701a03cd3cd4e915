-- ===== src/Server/Sending/Grouped.antt =====
-- The recipients of `SendRaw` of internal/server/manager.go by their domains.
use vulos_mail.Common.{String, List, [], ◌∷◌, Option, none, some}
use vulos_mail.Common.Map.{Map}
use vulos_mail.Server.Vacation.{tenant_of}
use vulos_mail.Account.{Raw}
use vulos_mail.Mtaout.{OutMessage, transactional}

-- a domain's recipients in a map, none where it has no entry
abbrev pub rcpts_of : Option (List String) → List String
rcpts_of none = []
rcpts_of (some rs) = rs

-- the messages of an account to the recipients of each domain
unfoldable pub messages : String → Raw → Map (List String) → List OutMessage
messages from raw [] = []
messages from raw ((domain, rcpts) ∷ groups) =
    record {
      id = "";
      tenant = tenant_of from;
      from_domain = tenant_of from;
      rcpt_domain = domain;
      from_addr = from;
      rcpts = rcpts;
      raw = raw;
      class = transactional;
    }
    ∷ messages from raw groups
