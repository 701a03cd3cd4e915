-- ===== src/Tests/Accounts.antt =====
-- An account over the in-memory log, with a parser that takes the Message-ID from the first byte and
-- a generator that counts.
use vulos_mail.Common.{
  ℕ, zero, suc, ◌+◌, ◌≤◌, ◌≡◌, refl, sym, String, List, [], ◌∷◌, true, Option, none, some, length,
  keep, eqb, if◌then◌else◌, ◌>>=◌, arith,
}
use vulos_mail.Common.Map.{lookup, insert, erase}
use vulos_mail.Model.{Envelope, MessageId, label_inbox, label_user, flag_seen}
use vulos_mail.Event.{MessageIngested, labeled, message_expunged, message_ingested}
use vulos_mail.Event.Utf8.{to_valid}
use vulos_mail.Event.Codec.{decode, encode, decode-encode, is_dated, valid_event}
use vulos_mail.EventLog.{Record}
use vulos_mail.EventLog.Mem.{empty, len, read_from, append, mem_log, mem_log-IsLawful}
use vulos_mail.Projection
use vulos_mail.Projection.{message_id_exists, apply, fold_event, apply_all}
use vulos_mail.Projection.Invariant.{IsValid, IsValid-new, has_header}
use vulos_mail.Projection.Fold.{Numbered, apply_all-IsValid, seq-apply_all}
use vulos_mail.Projection.Indexed.{IsIndexed-new}
use vulos_mail.Threading.{seed, resolve, find_thread, candidates}
use vulos_mail.Account.{
  thread_seed, commit, Raw, Services, Runtime, Op, ingest, label, create_label, expunge, rebuild,
  open_runtime, ingest_message, append_apply, step, run,
}
use vulos_mail.Common.{elem}
use vulos_mail.Projection.{messages_with_label}
use vulos_mail.Account.Reads.{ids_of_mail, carries, messages_with_label-exact}
use vulos_mail.Account.Live.{open-IsLive, rebuild-run, run-IsValid}
use vulos_mail.Account.Dedup.{new_id, ingest_again, run-header_injective}

abbrev pub mail : String → Envelope
mail header = record {
  from_addrs = "ann@x.org" ∷ [];
  from_name = "Ann";
  to_addrs = "bob@y.org" ∷ [];
  cc = [];
  subject = "hello";
  date = 7;
  message_id_header = header;
  in_reply_to = "";
  references = [];
}

abbrev pub parse_first : Raw → Option Envelope
parse_first [] = none
parse_first (zero ∷ bytes) = some (mail "<a@x.org>")
parse_first (suc n ∷ bytes) = some (mail "<b@x.org>")

abbrev pub services : Services
services = record {
  Store = List Raw;
  Gen = ℕ;
  parse = parse_first;
  put = λ st raw. (some "ref", raw ∷ st);
  next = λ g.
      (if eqb g 0 then "t0" else if eqb g 1 then "m1" else if eqb g 2 then "t2" else "m3", g + 1);
}

abbrev pub opened : Runtime mem_log services
opened = record {
  log = empty;
  store = [];
  ids = 0;
  threader = [];
  proj = Projection.new;
  notified = [];
}

abbrev calls : List (ℕ × Op)
calls =
    (5, ingest (0 ∷ 65 ∷ []) (label_inbox ∷ []) [])
    ∷ (6, ingest (1 ∷ 66 ∷ []) (label_inbox ∷ []) (flag_seen ∷ []))
    ∷ (7, ingest (0 ∷ 65 ∷ []) (label_inbox ∷ []) [])
    ∷ (8, create_label "l" "Work" label_user)
    ∷ (9, label "m1" "l")
    ∷ (10, expunge "m3")
    ∷ []

nil_of_length : (rs : List Record) → length rs ≡ 0 → Numbered 0 rs
nil_of_length [] h = tt
nil_of_length (r ∷ rs) h = absurd (omega (arith, h))

start-Numbered : Numbered 0 (mem_log-IsLawful.records empty)
unfolding len
start-Numbered =
    nil_of_length (mem_log-IsLawful.records empty) (sym (mem_log-IsLawful.counted empty))

start_opened : open_runtime mem_log services empty [] 0 ≡ some opened
unfolding open_runtime rebuild read_from apply_all keep thread_seed seed Projection.new
start_opened = refl

new_ids :
    lookup (new_id mem_log mem_log-IsLawful services (mail "<a@x.org>") opened) opened.proj.messages
    ≡ none
unfolding lookup Projection.new
new_ids = refl

first_id :
    (ingest_message mem_log services 5 (0 ∷ 65 ∷ []) (label_inbox ∷ []) [] opened).0 ≡ some "m1"
unfolding ingest_message commit resolve message_id_exists find_thread candidates append lookup
    Projection.new
first_id = refl

stored_again :
    (services.put
      (ingest_message mem_log services 5 (0 ∷ 65 ∷ []) (label_inbox ∷ []) [] opened).1.store
      (0 ∷ 66 ∷ [])).0
    ≡ some "ref"
stored_again = refl

abbrev first : MessageIngested
first = record {
  message_id = "m1";
  blob_ref = "ref";
  envelope = mail "<a@x.org>";
  size = 2;
  thread_id = "t0";
  initial_labels = label_inbox ∷ [];
  initial_flags = [];
}

abbrev records : List Record
records =
    (record { seq = 1; time = 5; actor = "ingest"; event = message_ingested first })
    ∷ (record { seq = 2; time = 6; actor = "user"; event = labeled "m1" "l" })
    ∷ (record { seq = 3; time = 7; actor = "user"; event = message_expunged "m1" })
    ∷ []

folded_seq : 0 + length records ≤ (apply_all Projection.new records).seq
unfolding Projection.new
folded_seq = omega (arith, seq-apply_all Projection.new records (refl, (refl, (refl, tt))))

stored_header :
    has_header "<a@x.org>" (lookup "m1" (run mem_log services calls opened).proj.messages) ≡ true
unfolding run step ingest_message append_apply commit resolve message_id_exists find_thread
    candidates append lookup Projection.new apply fold_event insert erase
stored_header = refl

rebuild-run_example :
    rebuild mem_log (run mem_log services calls opened).log
    ≡ some (run mem_log services calls opened).proj
rebuild-run_example =
    rebuild-run mem_log mem_log-IsLawful services empty [] 0 opened calls start-Numbered
      start_opened

run-IsValid_example : IsValid (run mem_log services calls opened).proj
run-IsValid_example =
    run-IsValid mem_log mem_log-IsLawful services empty [] 0 opened calls start-Numbered
      start_opened

run-header_injective_example : ◌≡◌ {A = MessageId} "m1" "m1"
run-header_injective_example =
    run-header_injective mem_log mem_log-IsLawful services calls opened "<a@x.org>" "m1" "m1"
      IsIndexed-new refl stored_header stored_header

ingest_again_example :
    let rt' = (ingest_message mem_log services 5 (0 ∷ 65 ∷ []) (label_inbox ∷ []) [] opened).1 in
    let again = ingest_message mem_log services 9 (0 ∷ 66 ∷ []) [] (flag_seen ∷ []) rt' in
    (again.0 ≡ some "m1")
    × (again.1.log ≡ rt'.log)
    × (again.1.proj ≡ rt'.proj)
    × (again.1.notified ≡ rt'.notified)
ingest_again_example =
    ingest_again mem_log mem_log-IsLawful services 5 (0 ∷ 65 ∷ []) (label_inbox ∷ []) [] opened
      (mail "<a@x.org>") "m1" 9 (0 ∷ 66 ∷ []) [] (flag_seen ∷ []) (mail "<a@x.org>") "ref"
      (open-IsLive mem_log mem_log-IsLawful services empty [] 0 opened start-Numbered start_opened)
      new_ids refl refl first_id refl refl stored_again

apply_all-IsValid_example : IsValid (apply_all Projection.new records)
apply_all-IsValid_example = apply_all-IsValid Projection.new records IsValid-new

decode-encode_example : (do j ← encode (message_ingested first); decode j) ≡ (
    if is_dated (message_ingested first) then some (valid_event (message_ingested first)) else none)
decode-encode_example = decode-encode (message_ingested first)

-- a text with the byte E9 is read with U+FFFD in its place
broken_text : to_valid "aé" ≡ "aï¿½"
unfolding to_valid
broken_text = refl

messages_with_label-exact_example :
    elem "m1" (ids_of_mail (messages_with_label (apply_all Projection.new records) "l"))
    ≡ carries "l" (lookup "m1" (apply_all Projection.new records).messages)
messages_with_label-exact_example =
    messages_with_label-exact (apply_all Projection.new records) "l" "m1"
      (apply_all-IsValid Projection.new records IsValid-new)
