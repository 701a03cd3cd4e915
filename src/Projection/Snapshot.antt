-- ===== src/Projection/Snapshot.antt =====
-- `Snapshot` and `Restore` of internal/projection/projection.go. The data of a snapshot stands for its
-- JSON text, which encoding/json writes and reads; no map in it is nil.
pub mod Index
pub mod Same
use vulos_mail.Common.{ℕ, List, [], ◌∷◌, ◌==◌, if◌then◌else◌}
use vulos_mail.Common.Map.{Map, insert}
use vulos_mail.Model.{MessageId, LabelId, Message, Label, Thread}
use vulos_mail.Projection
use vulos_mail.Projection.{Account}

pub record Snapshot : Type 0 where
  pub seq : ℕ
  pub messages : Map Message
  pub labels : Map Label
  pub threads : Map Thread
  pub order : List MessageId

unfoldable pub snapshot : Account → Snapshot
snapshot a = record {
  seq = a.seq;
  messages = a.messages;
  labels = a.labels;
  threads = a.threads;
  order = a.order;
}

-- the loop that writes the index, over the entries in an order from the last to the first
unfoldable pub index_of : Map Message → Map MessageId
index_of [] = []
index_of ((id, m) ∷ ms) =
    let rest = index_of ms in
    if m.envelope.message_id_header == "" then rest else insert m.envelope.message_id_header id rest

unfoldable pub restore : Snapshot → Account
unfolding index_of
restore s = record {
  seq = s.seq;
  messages = s.messages;
  labels = s.labels;
  threads = s.threads;
  order = s.order;
  by_message_id = index_of s.messages;
}
