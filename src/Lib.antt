-- ===== src/Lib.antt =====
-- Vulos Mail: the core of the mail server.
--
-- An account is an append-only log of events. The runtime is its one writer: it appends an event,
-- folds the record into the projection (messages, labels, threads) and hands it to the subscribers.
-- The IMAP view of UIDs is another fold of the same log. Mail that goes out stands in the queue of
-- the scheduler, which a pass sends through the gates (reputation, warmup, the cap of a domain). Mail
-- that comes in is authenticated by the MX session, and delivered to an account, whose bodies the
-- blob store keeps by digest until a collection finds them unreferenced.
--
-- Files and the code that they are about, with paths from the repository's root:
--   Model               internal/model/model.go: the types of the domain
--   Event, Event/Codec  internal/event/event.go: the events and their JSON form; Event/Utf8 and Event/Size are
--                       what encoding/json makes of a text, and how long its output is
--   EventLog            internal/eventlog/eventlog.go: Record, Log and the contract of a log;
--                       EventLog/Mem is Mem, EventLog/File is File
--   Projection          internal/projection/projection.go: `apply` is Account.Apply, with a function
--                       for each case of its switch
--   Threading           internal/threading/threading.go: `resolve` is Threader.Resolve
--   Account             internal/account/runtime.go: `ingest_message` is Runtime.Ingest, `step` is any
--                       call that appends, `open_runtime` is Open
--   Imap/UidView        adapters/imap/uidview.go
--   Mtaout              services/mtaout/mtaout.go: Pool, Warmup, Reputation, Scheduler; `tick` is
--                       Scheduler.Tick, with `visit` for a round of its loop
--   Mtaout/FileQueue    services/mtaout/filequeue.go: the queue store of files
--   Account/Reads       internal/account/runtime.go: the reads of the projection
--   Guards              internal/filter/filter.go, internal/abuse/abuse.go,
--                       internal/authlimit/authlimit.go, internal/snooze/snooze.go
--   Account/Compact     internal/account/runtime.go: openProjection and Compact over the file log
--   Imap/Session        adapters/imap/server.go: the session of a client; its children are the flags,
--                       the search, the other commands, and what is proved of them
--   Storage/Blob        internal/blob/blob.go: the store FS
--   Server/Gc           internal/server/manager.go: GCBlobs
--   Server/Limits       internal/tenant/tenant.go; planFor, allowPlanSend and CheckQuota of
--                       internal/server/manager.go
--   Server/Delivery     internal/server/manager.go: deliver, account, push tokens; Server/Vacation is
--                       maybeVacation with internal/mailsettings/mailsettings.go
--   Server/Sending      internal/server/manager.go: SendRaw
--   Inbound/EmailAuth   internal/emailauth/emailauth.go, internal/dkim/dkim.go (Verify, AuthResults)
--   Inbound/Submission  adapters/smtp/submission.go
--   Inbound/Smtp        adapters/smtp/smtpin.go; Inbound/Policy is the verdict of cmd/vulos-mail/main.go
--   Common              lists, maps and tests that the parts share
--   Tests               the theorems at concrete inputs
--
-- How state and calls are modelled. A struct behind a mutex is a record, a method is a function from
-- the old record to the new one, and concurrent calls are a list of calls in the order in which they
-- take the lock. A failed call is `none` or `false`. A Go map is an association list. A record of the
-- log has the number of the code, a uint64, written modulo 2 ^ 64; a UID is a uint32, written modulo
-- 2 ^ 32. Counters of type int are natural numbers, and times are natural numbers of nanoseconds.
-- Every loop is a recursion on a list; a bound stands only where it is the code's or the type's: 200 characters
-- for the name of a queue file, 20 digits for a number of 64 bits, nine for the fraction of a second.
--
-- Parameters: the parser of messages, the store of bodies, the generator of ids, the sender, the
-- queue store (of which FileQueue is one), the scanners, SPF, the verification of signatures, the
-- lookup of DMARC records, SHA-256, zstd, go-imap's sets and numbering, the case folding of package
-- strings, the order of texts in a sort and the arithmetic of float64, each an argument or a record of
-- functions with what is relied on as named laws (`IsLawful` for a log, `IsDurable` for a queue
-- store). What the system calls do to the files of a log and of the queue is an argument.
--
-- A text is the characters with the codes of its bytes. JSON is a tree with the sizes of its text. A loss of power is
-- modelled only where a theorem says so: elsewhere what was written without a sync stays.
--
-- Not modelled: the characters of JSON, SQL, the network, the writing of responses, JMAP, CalDAV and
-- CardDAV, the web API and the web client.
mod Common
pub mod Model
pub mod Event
pub mod EventLog
pub mod Projection
pub mod Threading
pub mod Account
pub mod Imap
pub mod Mtaout
pub mod Guards
pub mod Inbound
pub mod Storage
pub mod Server
mod Tests
