-- ===== src/Event/Codec.antt =====
-- The codec of internal/event: an event as a tagged JSON object. A text stands for what encoding/json writes for
-- it, and reads as `to_valid` of it. A time is its number of nanoseconds from the year 1 on, in UTC, and cannot be
-- written from the year 10000 on. As encoding/json does, a missing field reads as the zero value, the last of two
-- equal names counts, and a value of another kind is an error. (Names that differ in case only are not modelled,
-- and a list that is nil is the empty one.)
use vulos_mail.Common.{
  ℕ, ◌≡◌, refl, String, List, [], ◌∷◌, Bool, true, false, Option, none, some, ◌==◌, ltb,
  if◌then◌else◌, ◌>>=◌, map, Bool-cases, inl, inr,
}
use vulos_mail.Model.{Envelope}
use vulos_mail.Event.{
  MessageIngested, Event, message_ingested, labeled, unlabeled, flag_set, label_created,
  label_renamed, label_deleted, message_expunged, thread_merged,
}
use vulos_mail.Event.Utf8.{to_valid}

mutual
  pub data Json : Type 0 where
    null : Json
    num : ℕ → Json
    time : ℕ → Json
    str : String → Json
    bool : Bool → Json
    arr : Items → Json
    obj : Fields → Json

  pub data Items : Type 0 where
    nil : Items
    cons : Json → Items → Items

  pub data Fields : Type 0 where
    end : Fields
    field : String → Json → Fields → Fields

unfoldable pub get : String → Fields → Option Json
get k end = none
get k (field j v fs) = elim (get k fs) [ some w ↦ some w | none ↦ if j == k then some v else none ]

fields_of : Json → Option Fields
fields_of (obj fs) = some fs
fields_of null = some end
fields_of _ = none

as_str : Option Json → Option String
as_str none = some ""
as_str (some null) = some ""
as_str (some (str s)) = some (to_valid s)
as_str _ = none

as_num : Option Json → Option ℕ
as_num none = some 0
as_num (some null) = some 0
as_num (some (num n)) = some n
as_num _ = none

as_time : Option Json → Option ℕ
as_time none = some 0
as_time (some null) = some 0
as_time (some (time n)) = some n
as_time _ = none

as_bool : Option Json → Option Bool
as_bool none = some false
as_bool (some null) = some false
as_bool (some (bool b)) = some b
as_bool _ = none

to_items : List String → Items
to_items [] = nil
to_items (s ∷ ss) = cons (str s) (to_items ss)

of_items : Items → Option (List String)
of_items nil = some []
of_items (cons (str s) is) = do ss ← of_items is; some (to_valid s ∷ ss)
of_items (cons null is) = do ss ← of_items is; some ("" ∷ ss)
of_items (cons _ is) = none

as_strs : Option Json → Option (List String)
as_strs none = some []
as_strs (some null) = some []
as_strs (some (arr is)) = of_items is
as_strs _ = none

encode_envelope : Envelope → Json
encode_envelope e = obj (
    field "From" (arr (to_items e.from_addrs)) (
      field "FromName" (str e.from_name) (
        field "To" (arr (to_items e.to_addrs)) (
          field "Cc" (arr (to_items e.cc)) (
            field "Subject" (str e.subject) (
              field "Date" (time e.date) (
                field "MessageIDHeader" (str e.message_id_header) (
                  field "InReplyTo" (str e.in_reply_to)
                    (field "References" (arr (to_items e.references)) end)))))))))

decode_envelope : Option Json → Option Envelope
decode_envelope o = do
  fs ← elim o [ none ↦ some end | some j ↦ fields_of j ]
  from_addrs ← as_strs (get "From" fs)
  from_name ← as_str (get "FromName" fs)
  to_addrs ← as_strs (get "To" fs)
  cc ← as_strs (get "Cc" fs)
  subject ← as_str (get "Subject" fs)
  date ← as_time (get "Date" fs)
  message_id_header ← as_str (get "MessageIDHeader" fs)
  in_reply_to ← as_str (get "InReplyTo" fs)
  references ← as_strs (get "References" fs)
  some (record {
    from_addrs = from_addrs;
    from_name = from_name;
    to_addrs = to_addrs;
    cc = cc;
    subject = subject;
    date = date;
    message_id_header = message_id_header;
    in_reply_to = in_reply_to;
    references = references;
  })

-- `Kind`
unfoldable pub kind : Event → String
kind (message_ingested e) = "MessageIngested"
kind (labeled msg l) = "Labeled"
kind (unlabeled msg l) = "Unlabeled"
kind (flag_set msg f v) = "FlagSet"
kind (label_created l name k) = "LabelCreated"
kind (label_renamed l name) = "LabelRenamed"
kind (label_deleted l) = "LabelDeleted"
kind (message_expunged msg) = "MessageExpunged"
kind (thread_merged into from) = "ThreadMerged"

payload : Event → Json
payload (message_ingested e) = obj (
    field "MessageID" (str e.message_id) (
      field "BlobRef" (str e.blob_ref) (
        field "Envelope" (encode_envelope e.envelope) (
          field "Size" (num e.size) (
            field "ThreadID" (str e.thread_id) (
              field "InitialLabels" (arr (to_items e.initial_labels))
                (field "InitialFlags" (arr (to_items e.initial_flags)) end)))))))
payload (labeled msg l) = obj (field "MessageID" (str msg) (field "LabelID" (str l) end))
payload (unlabeled msg l) = obj (field "MessageID" (str msg) (field "LabelID" (str l) end))
payload (flag_set msg f v) =
    obj (field "MessageID" (str msg) (field "Flag" (str f) (field "Value" (bool v) end)))
payload (label_created l name k) =
    obj (field "LabelID" (str l) (field "Name" (str name) (field "LabelKind" (str k) end)))
payload (label_renamed l name) = obj (field "LabelID" (str l) (field "Name" (str name) end))
payload (label_deleted l) = obj (field "LabelID" (str l) end)
payload (message_expunged msg) = obj (field "MessageID" (str msg) end)
payload (thread_merged into from) = obj (field "Into" (str into) (field "From" (str from) end))

-- the nanoseconds of the first instant that cannot be written
abbrev pub year_10000 : ℕ
year_10000 = 315537897600000000000

-- whether the times of an event can be written
unfoldable pub is_dated : Event → Bool
is_dated (message_ingested e) = ltb e.envelope.date year_10000
is_dated _ = true

unfoldable pub encode : Event → Option Json
unfolding kind payload encode_envelope to_items
encode e =
    if is_dated e
    then some (obj (field "kind" (str (kind e)) (field "data" (payload e) end)))
    else none

decode_ingested : Fields → Option Event
decode_ingested fs = do
  message_id ← as_str (get "MessageID" fs)
  blob_ref ← as_str (get "BlobRef" fs)
  envelope ← decode_envelope (get "Envelope" fs)
  size ← as_num (get "Size" fs)
  thread_id ← as_str (get "ThreadID" fs)
  initial_labels ← as_strs (get "InitialLabels" fs)
  initial_flags ← as_strs (get "InitialFlags" fs)
  some (
      message_ingested (record {
        message_id = message_id;
        blob_ref = blob_ref;
        envelope = envelope;
        size = size;
        thread_id = thread_id;
        initial_labels = initial_labels;
        initial_flags = initial_flags;
      }))

-- a struct of two texts
pair : String → String → (String → String → Event) → Fields → Option Event
pair j k f fs = do a ← as_str (get j fs); b ← as_str (get k fs); some (f a b)

decode_flag_set : Fields → Option Event
decode_flag_set fs = do
  msg ← as_str (get "MessageID" fs)
  flag ← as_str (get "Flag" fs)
  value ← as_bool (get "Value" fs)
  some (flag_set msg flag value)

decode_label_created : Fields → Option Event
decode_label_created fs = do
  l ← as_str (get "LabelID" fs)
  name ← as_str (get "Name" fs)
  k ← as_str (get "LabelKind" fs)
  some (label_created l name k)

single : String → (String → Event) → Fields → Option Event
single j f fs = do a ← as_str (get j fs); some (f a)

-- the switch of `Decode`
decode_payload : String → Fields → Option Event
decode_payload k fs =
    if k == "MessageIngested"
    then decode_ingested fs
    else if k == "Labeled"
    then pair "MessageID" "LabelID" labeled fs
    else if k == "Unlabeled"
    then pair "MessageID" "LabelID" unlabeled fs
    else if k == "FlagSet"
    then decode_flag_set fs
    else if k == "LabelCreated"
    then decode_label_created fs
    else if k == "LabelRenamed"
    then pair "LabelID" "Name" label_renamed fs
    else if k == "LabelDeleted"
    then single "LabelID" label_deleted fs
    else if k == "MessageExpunged"
    then single "MessageID" message_expunged fs
    else if k == "ThreadMerged"
    then pair "Into" "From" thread_merged fs
    else none

unfoldable pub decode : Json → Option Event
unfolding fields_of of_items as_str decode_payload decode_ingested decode_envelope pair
    decode_flag_set decode_label_created single get as_num as_time as_bool as_strs
decode j = do
  fs ← fields_of j
  k ← as_str (get "kind" fs)
  body ← get "data" fs
  inner ← fields_of body
  decode_payload k inner

unfoldable pub valid_envelope : Envelope → Envelope
valid_envelope e = record {
  from_addrs = map to_valid e.from_addrs;
  from_name = to_valid e.from_name;
  to_addrs = map to_valid e.to_addrs;
  cc = map to_valid e.cc;
  subject = to_valid e.subject;
  date = e.date;
  message_id_header = to_valid e.message_id_header;
  in_reply_to = to_valid e.in_reply_to;
  references = map to_valid e.references;
}

valid_ingested : MessageIngested → MessageIngested
unfolding valid_envelope
valid_ingested e = record {
  message_id = to_valid e.message_id;
  blob_ref = to_valid e.blob_ref;
  envelope = valid_envelope e.envelope;
  size = e.size;
  thread_id = to_valid e.thread_id;
  initial_labels = map to_valid e.initial_labels;
  initial_flags = map to_valid e.initial_flags;
}

-- an event with every text of it as JSON reads it
unfoldable pub valid_event : Event → Event
unfolding valid_ingested
valid_event (message_ingested e) = message_ingested (valid_ingested e)
valid_event (labeled msg l) = labeled (to_valid msg) (to_valid l)
valid_event (unlabeled msg l) = unlabeled (to_valid msg) (to_valid l)
valid_event (flag_set msg f v) = flag_set (to_valid msg) (to_valid f) v
valid_event (label_created l name k) = label_created (to_valid l) (to_valid name) (to_valid k)
valid_event (label_renamed l name) = label_renamed (to_valid l) (to_valid name)
valid_event (label_deleted l) = label_deleted (to_valid l)
valid_event (message_expunged msg) = message_expunged (to_valid msg)
valid_event (thread_merged into from) = thread_merged (to_valid into) (to_valid from)

of_items-to_items : (ss : List String) → of_items (to_items ss) ≡ some (map to_valid ss)
unfolding of_items to_items
of_items-to_items [] = refl
of_items-to_items (s ∷ ss) = rw (of_items-to_items ss)

-- the texts of the codec itself
kind_valid : (e : Event) → to_valid (kind e) ≡ kind e
unfolding kind to_valid
kind_valid (message_ingested e) = refl
kind_valid (labeled msg l) = refl
kind_valid (unlabeled msg l) = refl
kind_valid (flag_set msg f v) = refl
kind_valid (label_created l name k) = refl
kind_valid (label_renamed l name) = refl
kind_valid (label_deleted l) = refl
kind_valid (message_expunged msg) = refl
kind_valid (thread_merged into from) = refl

decode_object :
    (e : Event)
    → decode (obj (field "kind" (str (kind e)) (field "data" (payload e) end)))
      ≡ some (valid_event e)
unfolding decode kind payload encode_envelope valid_event valid_ingested
decode_object (message_ingested e) = rw (
  kind_valid (message_ingested e),
  of_items-to_items e.envelope.from_addrs,
  of_items-to_items e.envelope.to_addrs,
  of_items-to_items e.envelope.cc,
  of_items-to_items e.envelope.references,
  of_items-to_items e.initial_labels,
  of_items-to_items e.initial_flags,
)
decode_object (labeled msg l) = rw (kind_valid (labeled msg l)) refl
decode_object (unlabeled msg l) = rw (kind_valid (unlabeled msg l)) refl
decode_object (flag_set msg f v) = rw (kind_valid (flag_set msg f v)) refl
decode_object (label_created l name k) = rw (kind_valid (label_created l name k)) refl
decode_object (label_renamed l name) = rw (kind_valid (label_renamed l name)) refl
decode_object (label_deleted l) = rw (kind_valid (label_deleted l)) refl
decode_object (message_expunged msg) = rw (kind_valid (message_expunged msg)) refl
decode_object (thread_merged into from) = rw (kind_valid (thread_merged into from)) refl

-- An event whose date is before the year 10000 can be encoded, and reads back as itself with each byte
-- of its texts that is not part of a UTF-8 character replaced by U+FFFD; another event cannot be encoded.
pub decode-encode :
    (e : Event) → (do j ← encode e; decode j) ≡ (if is_dated e then some (valid_event e) else none)
unfolding encode
decode-encode e = elim (Bool-cases (is_dated e)) [
  | inl dated ↦ rw (encode, dated) (decode_object e)
  | inr late ↦ rw (encode, late) refl
]
