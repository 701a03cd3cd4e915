-- ===== src/Imap/Session.antt =====
-- adapters/imap/server.go: the session of one client after its login, over a runtime. What go-imap decides is
-- an argument: which numbers a set of ranges contains (`contains`), the numbering of the tracker of the selected
-- mailbox (`encode`), and the folding of case in package strings. The appends of one command take one time of
-- the clock; the subscription to changes and the writing of responses are left out.
pub mod Flags
pub mod Search
pub mod Commands
pub mod Stored
pub mod Expunged
use vulos_mail.Common.{
  ℕ, ◌+◌, ◌%◌, ◌^◌, String, List, [], ◌∷◌, ◌++◌, Bool, true, false, not, ◌&&◌, ◌||◌, Option, none,
  some, ◌==◌, eqb, ltb, if◌then◌else◌, keep, length,
}
use vulos_mail.Common.Map.{Map, lookup, insert, erase}
use vulos_mail.Model.{
  MessageId, LabelId, Flag, Message, Label, flag_seen, flag_answered, flag_flagged, flag_draft,
  label_inbox, label_user,
}
use vulos_mail.EventLog.{Log}
use vulos_mail.Projection.{has}
use vulos_mail.Account.{Services, Runtime, set_flag, step}
use vulos_mail.Account.Reads.{message, labeled_mail, log_records}
use vulos_mail.Imap.UidView.{Entry, View, view_from, entries, uid_next, uid_validity, uid_of}
use vulos_mail.Imap.Session.Flags.{model_flag, model_to_imap, has_imap_flag, imap_deleted}

-- `selMsg`
pub record SelMsg : Type 0 where
  pub uid : ℕ
  pub id : MessageId
  pub msg : Message

-- a range of a set; 0 stands for the largest number
pub record Range : Type 0 where
  pub start : ℕ
  pub stop : ℕ

-- a set of sequence numbers or of UIDs, or the saved result of a search
pub data NumSet : Type 0 where
  saved : NumSet
  seqs uids : List Range → NumSet

-- `session`, with the runtime of its login
pub record Session (l : Log) (s : Services) : Type 0 where
  pub rt : Runtime l s
  pub sel_label : LabelId
  pub msgs : List SelMsg
  pub deleted : Map Bool
  pub search_res : List Range

-- `fixRange`
unfoldable pub fix_range : ℕ → Range → Range
fix_range max r =
    let a = if eqb r.start 0 then max else r.start in
    let b = if eqb r.stop 0 then max else r.stop in
    if (eqb r.start 0 || eqb r.stop 0) && ltb b a
    then record { start = b; stop = a }
    else record { start = a; stop = b }

unfoldable pub fix_ranges : ℕ → List Range → List Range
unfolding fix_range
fix_ranges max [] = []
fix_ranges max (r ∷ rs) = fix_range max r ∷ fix_ranges max rs

unfoldable pub last_uid : List SelMsg → ℕ
last_uid [] = 0
last_uid (m ∷ []) = m.uid
last_uid (m ∷ n ∷ ms) = last_uid (n ∷ ms)

-- `staticNumSet`
unfoldable pub static_num_set : List Range → List SelMsg → NumSet → NumSet
unfolding fix_ranges last_uid
static_num_set search_res msgs saved = uids search_res
static_num_set search_res msgs (seqs rs) = seqs (fix_ranges (length msgs % 2 ^ 32) rs)
static_num_set search_res msgs (uids rs) = uids (fix_ranges (last_uid msgs) rs)

-- `firstUnseen`, from a number on
unfoldable pub unseen_from : ℕ → List SelMsg → ℕ
unseen_from n [] = 0
unseen_from n (m ∷ ms) =
    let rest = unseen_from (n + 1) ms in
    if has flag_seen m.msg.flags then rest else (n + 1) % 2 ^ 32

-- `firstUnseen`
unfoldable pub first_unseen : List SelMsg → ℕ
unfolding unseen_from
first_unseen msgs = unseen_from 0 msgs

-- `statusFor`, with all its items
pub record Status : Type 0 where
  pub num_messages : ℕ
  pub uid_next : ℕ
  pub uid_validity : ℕ
  pub num_unseen : ℕ

-- what SELECT answers
pub record SelectData : Type 0 where
  pub num_messages : ℕ
  pub uid_next : ℕ
  pub uid_validity : ℕ
  pub first_unseen_num : ℕ

pub data StoreOp : Type 0 where
  set_flags add_flags del_flags : StoreOp

-- the folder that `name` is a name of
unfoldable pub find_label : (String → String → Bool) → String → List Label → Option LabelId
find_label fold name [] = none
find_label fold name (l ∷ ls) =
    let rest = find_label fold name ls in
    if fold l.name name || l.id == name then some l.id else rest

-- `resolveLabel`
unfoldable pub resolve_label : (String → String → Bool) → List Label → String → Option LabelId
unfolding find_label
resolve_label fold labels name =
    if fold name "INBOX" then some label_inbox else find_label fold name labels

-- the entries with the messages that are there
unfoldable pub selected : (MessageId → Option Message) → List Entry → List SelMsg
selected get [] = []
selected get (e ∷ es) = elim (get e.msg) [
  | none ↦ selected get es
  | some m ↦ record { uid = e.uid; id = e.msg; msg = m } ∷ selected get es
]

module _ {l : Log} {s : Services} where
  -- `view`
  unfoldable pub view : Runtime l s → Option View
  view rt = elim (log_records rt) [ none ↦ none | some recs ↦ some (view_from recs) ]

  -- `loadSelection`
  unfoldable pub load_selection : LabelId → View → Session l s → Session l s
  unfolding selected
  load_selection label v ss = record ss {
    sel_label = label;
    deleted = [];
    msgs = selected (message ss.rt) (entries v label);
  }

  -- `Select`, of the labels in the order of `Labels`
  unfoldable pub select :
      (String → String → Bool) → List Label → String → Session l s → Option SelectData × Session l s
  unfolding resolve_label view load_selection first_unseen
  select fold labels name ss = elim (resolve_label fold labels name) [
    | none ↦ (none, ss)
    | some label ↦ elim (view ss.rt) [
      | none ↦ (none, ss)
      | some v ↦
          let ss' = load_selection label v ss in
          (
            some (record {
              num_messages = length ss'.msgs % 2 ^ 32;
              uid_next = uid_next v label;
              uid_validity = uid_validity v label;
              first_unseen_num = first_unseen ss'.msgs;
            }),
            ss',
          )
    ]
  ]

  -- `Unselect`
  unfoldable pub unselect : Session l s → Session l s
  unselect ss = record ss { msgs = []; sel_label = "" }

  unfoldable pub status_for : LabelId → View → Runtime l s → Status
  status_for label v rt = record {
    num_messages = length (labeled_mail rt label) % 2 ^ 32;
    uid_next = uid_next v label;
    uid_validity = uid_validity v label;
    num_unseen = length (keep (λ m. not (has flag_seen m.flags)) (labeled_mail rt label)) % 2 ^ 32;
  }

-- the messages of a command: `forEach`, over what it changes besides the message
module _ {St : Type 0} where
  unfoldable pub for_each_from :
      (ℕ → SelMsg → Bool) → (SelMsg → St → SelMsg × St) → ℕ → List SelMsg → St → List SelMsg × St
  for_each_from chosen f n [] st = ([], st)
  for_each_from chosen f n (m ∷ ms) st =
      let (m', st') = if chosen ((n + 1) % 2 ^ 32) m then f m st else (m, st) in
      let (ms', end) = for_each_from chosen f (n + 1) ms st' in (m' ∷ ms', end)

module _ (contains : List Range → ℕ → Bool) (encode : ℕ → ℕ) where
  unfoldable pub chosen : NumSet → ℕ → SelMsg → Bool
  chosen saved n m = false
  chosen (seqs rs) n m = not (eqb (encode n) 0) && contains rs (encode n)
  chosen (uids rs) n m = contains rs m.uid

  module _ {l : Log} {s : Services} {St : Type 0} where
    -- `forEach`
    unfoldable pub for_each :
        NumSet → (SelMsg → St → SelMsg × St) → Session l s → St → List SelMsg × St
    unfolding static_num_set chosen for_each_from
    for_each nums f ss st =
        for_each_from (chosen (static_num_set ss.search_res ss.msgs nums)) f 0 ss.msgs st

-- what STORE changes: the message, the runtime and the marks
pub record StoreState (l : Log) (s : Services) : Type 0 where
  pub msg : Message
  pub rt : Runtime l s
  pub deleted : Map Bool

module _ {l : Log} {s : Services} (now : ℕ) (id : MessageId) where
  -- the part of `set` for a flag of the model
  unfoldable pub put_model_flag : Flag → Bool → StoreState l s → StoreState l s
  put_model_flag mf on st = record st {
    rt = step l s now (set_flag id mf on) st.rt;
    msg = record (st.msg) {
      flags = if on then insert mf true st.msg.flags else erase mf (insert mf false st.msg.flags);
    };
  }

  -- the closure `set` of `applyStore`
  unfoldable pub put_imap_flag : String → Bool → StoreState l s → StoreState l s
  unfolding model_flag put_model_flag
  put_imap_flag f on st =
      if f == imap_deleted
      then record st { deleted = insert id on st.deleted }
      else elim (model_flag f) [ none ↦ st | some mf ↦ put_model_flag mf on st ]

  unfoldable pub put_imap_flags : List String → Bool → StoreState l s → StoreState l s
  unfolding put_imap_flag
  put_imap_flags [] on st = st
  put_imap_flags (f ∷ fs) on st = put_imap_flags fs on (put_imap_flag f on st)

  -- `applyStore`
  unfoldable pub apply_store : StoreOp → List String → StoreState l s → StoreState l s
  unfolding put_imap_flags put_imap_flag model_to_imap
  apply_store set_flags fs st =
      let cleared =
        put_imap_flags
          (model_to_imap flag_seen
            ∷ model_to_imap flag_answered
            ∷ model_to_imap flag_flagged
            ∷ model_to_imap flag_draft
            ∷ [])
          false st in
      put_imap_flags fs true (record cleared { deleted = insert id false cleared.deleted })
  apply_store add_flags fs st = put_imap_flags fs true st
  apply_store del_flags fs st = put_imap_flags fs false st
