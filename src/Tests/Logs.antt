-- ===== src/Tests/Logs.antt =====
-- A log file of two records.
use vulos_mail.Common.{◌≡◌, refl, String, [], ◌∷◌, ◌++◌, none, some, keep, not, leb, arith}
use vulos_mail.Event.{labeled, label_created}
use vulos_mail.Event.Utf8.{to_valid}
use vulos_mail.Event.Size.{json_size}
use vulos_mail.Event.Codec.{Json, str, obj, end, field, decode, encode, is_dated, valid_event}
use vulos_mail.EventLog.{Record}
use vulos_mail.Projection
use vulos_mail.Projection.{apply_all, apply}
use vulos_mail.Projection.Fold.{seq-apply_all}
use vulos_mail.EventLog.File.{
  File, WireRecord, absent, entry, line_of, line_size, next_record, read_all, open_file, append,
  save_snapshot, saved, synced, unsynced,
}
use vulos_mail.EventLog.File.Recovery.{
  IsStored, IsPlain, ends, open-disk, append_synced, save-IsStored,
}
use vulos_mail.EventLog.File.Faults.{lose_snapshot, append-after_unsynced, open-lost_snapshot}
use vulos_mail.Imap.UidView.{View, rebuild_view, count, uid_next}
use vulos_mail.Imap.UidView.Compaction.{rebuild_view-compacted}
use vulos_mail.EventLog.File.{file_log}

abbrev created : Record
created = record { seq = 1; time = 5; actor = "user"; event = label_created "l" "Work" "user" }

abbrev tagged : Record
tagged = record { seq = 2; time = 6; actor = "user"; event = labeled "m" "l" }

-- the JSON of an event of two texts
abbrev json_of : String → String → String → String → String → Json
json_of k f v g w =
    obj (field "kind" (str k) (field "data" (obj (field f (str v) (field g (str w) end))) end))

abbrev tag_json : String → String → Json
tag_json m l = json_of "Labeled" "MessageID" m "LabelID" l

abbrev pub created_wire : WireRecord
created_wire = record {
  seq = 1;
  time = 5;
  actor = "user";
  event = obj (
      field "kind" (str "LabelCreated") (
        field "data"
          (obj (
            field "LabelID" (str "l")
              (field "Name" (str "Work") (field "LabelKind" (str "user") end))))
          end));
}

abbrev tagged_wire : WireRecord
tagged_wire = record { seq = 2; time = 6; actor = "user"; event = tag_json "m" "l" }

abbrev two : File String
two = record {
  disk = record { lines = entry created_wire ∷ entry tagged_wire ∷ []; snap = absent };
  seq = 2;
}

created-IsPlain : IsPlain created
unfolding line_of encode is_dated to_valid valid_event line_size json_size
created-IsPlain = record { wire = created_wire; written = refl; valid = refl; short = refl }

tagged-IsPlain : IsPlain tagged
unfolding line_of encode is_dated to_valid valid_event line_size json_size
tagged-IsPlain = record { wire = tagged_wire; written = refl; valid = refl; short = refl }

next-IsPlain : IsPlain (next_record two 7 "user" (labeled "n" "l"))
unfolding line_of encode is_dated to_valid valid_event line_size json_size
next-IsPlain = record {
  wire = record { seq = 3; time = 7; actor = "user"; event = tag_json "n" "l" };
  written = refl;
  valid = refl;
  short = refl;
}

other-IsPlain : IsPlain (next_record two 8 "user" (labeled "o" "l"))
unfolding line_of encode is_dated to_valid valid_event line_size json_size
other-IsPlain = record {
  wire = record { seq = 3; time = 8; actor = "user"; event = tag_json "o" "l" };
  written = refl;
  valid = refl;
  short = refl;
}

two_reads : read_all two.disk.lines ≡ some (created ∷ tagged ∷ [])
unfolding read_all decode to_valid line_size json_size
two_reads = refl

two-IsStored : IsStored two 0 (created ∷ tagged ∷ [])
two-IsStored = record {
  reads = two_reads;
  ended = unfold ends in refl;
  plain = (created-IsPlain, (tagged-IsPlain, tt));
  numbered = (refl, (refl, tt));
  last = refl;
  snapped = omega arith;
  covered = omega arith;
}

folded_two : (apply_all Projection.new (created ∷ tagged ∷ [])).seq ≡ 2
unfolding Projection.new
folded_two = seq-apply_all Projection.new (created ∷ tagged ∷ []) (refl, (refl, tt))

open-disk_example : open_file two.disk ≡ some two
open-disk_example = open-disk two 0 (created ∷ tagged ∷ []) two-IsStored

append_synced_example :
    (r : Record) × ((append synced two 7 "user" (labeled "n" "l")).0 ≡ some r)
    × (r.seq ≡ 3)
    × (r.event ≡ labeled "n" "l")
    × IsStored
        (append synced two 7 "user" (labeled "n" "l")).1
        0
        ((created ∷ tagged ∷ []) ++ r ∷ [])
append_synced_example =
    append_synced two 0 (created ∷ tagged ∷ []) 7 "user" (labeled "n" "l") two-IsStored
      (omega arith) next-IsPlain

save-IsStored_example :
    IsStored
      (save_snapshot saved 1 "state" two).1
      1
      (keep (λ (r : Record). not (leb r.seq 1)) (created ∷ tagged ∷ []))
save-IsStored_example =
    save-IsStored two 0 1 (created ∷ tagged ∷ []) "state" saved two-IsStored (omega arith)
      (omega arith)

open-lost_snapshot_example :
    let d = lose_snapshot (save_snapshot saved 2 "state" two).1.disk in
    (open_file d ≡ some (record { disk = d; seq = 0 })) × (read_all d.lines ≡ some [])
open-lost_snapshot_example = open-lost_snapshot two 0 (created ∷ tagged ∷ []) "state" two-IsStored

append-after_unsynced_example :
    let a = apply_all Projection.new (created ∷ tagged ∷ []) in
    let f' = (append unsynced two 7 "user" (labeled "n" "l")).1 in
    ((append unsynced two 7 "user" (labeled "n" "l")).0 ≡ none)
    × ((r r' : Record) × ((append synced f' 8 "user" (labeled "o" "l")).0 ≡ some r')
        × (r.event ≡ labeled "n" "l")
        × (r'.event ≡ labeled "o" "l")
        × (r'.seq ≡ r.seq)
        × (read_all (append synced f' 8 "user" (labeled "o" "l")).1.disk.lines
            ≡ some (((created ∷ tagged ∷ []) ++ r ∷ []) ++ r' ∷ []))
        × (apply_all a (r ∷ r' ∷ []) ≡ apply a r))
append-after_unsynced_example =
    append-after_unsynced two 0 (created ∷ tagged ∷ [])
      (apply_all Projection.new (created ∷ tagged ∷ [])) 7 "user" (labeled "n" "l") 8 "user"
      (labeled "o" "l") two-IsStored (omega arith) folded_two next-IsPlain other-IsPlain

rebuild_view-compacted_example :
    let f' = (save_snapshot saved 2 "state" two).1 in
    (v : View) × (rebuild_view (file_log String) f' ≡ some v)
    × (count v "l" ≡ 0)
    × (uid_next v "l" ≡ 1)
rebuild_view-compacted_example =
    rebuild_view-compacted two 0 (created ∷ tagged ∷ []) "state" "l" two-IsStored
