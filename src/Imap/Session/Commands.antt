-- ===== src/Imap/Session/Commands.antt =====
-- The commands of the session of adapters/imap/server.go: STORE, the flag that FETCH sets, EXPUNGE, COPY,
-- APPEND, the calls on mailboxes, and LOGIN. Writing the responses is left out, as in the session.
use vulos_mail.Common.{
  ℕ, ◌+◌, ◌%◌, ◌^◌, String, List, [], ◌∷◌, ◌++◌, Bool, true, false, not, ◌&&◌, Option, none, some,
  if◌then◌else◌, keep,
}
use vulos_mail.Common.Map.{Map, insert}
use vulos_mail.Model.{LabelId, Flag, Label, flag_seen, label_user}
use vulos_mail.EventLog.{Log}
use vulos_mail.Event.{label_created, label_deleted, label_renamed}
use vulos_mail.Projection.{has}
use vulos_mail.Account.{
  Services, Runtime, Raw, Op, set_flag, unlabel, ingest_message, step, append_apply,
}
use vulos_mail.Guards.Authlimit.{Limiter, any_locked, fail, success}
use vulos_mail.Imap.UidView.{View, uid_validity, uid_of}
use vulos_mail.Imap.Session.{
  SelMsg, Range, NumSet, Session, StoreOp, resolve_label, view, for_each, apply_store,
}
use vulos_mail.Imap.Session.Search.{is_marked}
use vulos_mail.Imap.Session.Flags.{model_flag}

-- the messages that EXPUNGE takes
unfoldable pub is_doomed : (List Range → ℕ → Bool) → Option (List Range) → Map Bool → SelMsg → Bool
unfolding is_marked
is_doomed contains only deleted m =
    is_marked deleted m.id && elim only [ none ↦ true | some rs ↦ contains rs m.uid ]

unfoldable pub source_uids : List SelMsg → List ℕ
source_uids [] = []
source_uids (m ∷ ms) = m.uid ∷ source_uids ms

unfoldable pub uids_in : View → LabelId → List SelMsg → List ℕ
uids_in v dest [] = []
uids_in v dest (m ∷ ms) = elim (uid_of v dest m.id) [
  | none ↦ uids_in v dest ms
  | some uid ↦ uid ∷ uids_in v dest ms
]

unfoldable pub model_flags : List String → List Flag
unfolding model_flag
model_flags [] = []
model_flags (f ∷ fs) = elim (model_flag f) [ none ↦ model_flags fs | some mf ↦ mf ∷ model_flags fs ]

module _ {l : Log} {s : Services} (now : ℕ) where
  -- the loop from the last message down: the numbers that are written, and the runtime
  unfoldable pub expunge_from :
      (ℕ → Bool)
      → (ℕ → ℕ)
      → (SelMsg → Bool)
      → LabelId
      → ℕ
      → List SelMsg
      → Runtime l s
      → Bool × List ℕ × Runtime l s
  expunge_from writes encode doomed mailbox n [] rt = (true, [], rt)
  expunge_from writes encode doomed mailbox n (m ∷ ms) rt =
      let (ok, nums, rt') = expunge_from writes encode doomed mailbox (n + 1) ms rt in
      if ok && doomed m
      then (let rt'' = step l s now (unlabel m.id mailbox) rt' in
          if writes n
          then (true, nums ++ encode ((n + 1) % 2 ^ 32) ∷ [], rt'')
          else (false, nums, rt''))
      else (ok, nums, rt')

  -- `Expunge`, with its success and the numbers that it writes
  unfoldable pub expunge :
      (List Range → ℕ → Bool)
      → (ℕ → Bool)
      → (ℕ → ℕ)
      → Option (List Range)
      → Session l s
      → Bool × List ℕ × Session l s
  unfolding is_doomed expunge_from
  expunge contains writes encode only ss =
      let doomed = is_doomed contains only ss.deleted in
      let (ok, nums, rt') = expunge_from writes encode doomed ss.sel_label 0 ss.msgs ss.rt in
      (
        ok,
        nums,
        if ok
            then (let end : Session l s = record ss {
              rt = rt';
              msgs = keep (λ m. not (doomed m)) ss.msgs;
            } in
                end)
            else (let end : Session l s = record ss { rt = rt' } in end),
      )

  -- `applyStore` on one message of the selection
  unfoldable pub store_one :
      StoreOp → List String → SelMsg → Runtime l s × Map Bool → SelMsg × (Runtime l s × Map Bool)
  unfolding apply_store
  store_one op fs m (rt, deleted) =
      let end = apply_store now m.id op fs (record { msg = m.msg; rt = rt; deleted = deleted }) in
      (record m { msg = end.msg }, (end.rt, end.deleted))

  -- `Store`, whose answer is a FETCH of the flags
  unfoldable pub store :
      (List Range → ℕ → Bool) → (ℕ → ℕ) → NumSet → StoreOp → List String → Session l s → Session l s
  unfolding for_each store_one
  store contains encode nums op fs ss =
      let (msgs', end) = for_each contains encode nums (store_one op fs) ss (ss.rt, ss.deleted) in
      record ss { msgs = msgs'; rt = end.0; deleted = end.1 }

  -- the flag that FETCH sets on a message whose body it could read, unless every section peeks
  unfoldable pub mark_seen : Bool → SelMsg → Runtime l s → SelMsg × Runtime l s
  mark_seen marks m rt =
      if marks && not (has flag_seen m.msg.flags)
      then (
        record m { msg = record (m.msg) { flags = insert flag_seen true m.msg.flags } },
        step l s now (set_flag m.id flag_seen true) rt,
      )
      else (m, rt)

  -- the label that COPY puts on one message, with its UID and id
  unfoldable pub copy_one :
      LabelId → SelMsg → Runtime l s × List SelMsg → SelMsg × (Runtime l s × List SelMsg)
  copy_one dest m (rt, copied) = (m, (step l s now (Op.label m.id dest) rt, copied ++ m ∷ []))

  -- `Copy`: the validity of the UIDs, those of the sources and those of the copies
  unfoldable pub copy :
      (List Range → ℕ → Bool)
      → (ℕ → ℕ)
      → (String → String → Bool)
      → List Label
      → NumSet
      → String
      → Session l s
      → Option (ℕ × (List ℕ × List ℕ)) × Session l s
  unfolding for_each copy_one uids_in source_uids
  copy contains encode fold labels nums name ss = elim (resolve_label fold labels name) [
    | none ↦ (none, ss)
    | some dest ↦
        let (msgs', end) = for_each contains encode nums (copy_one dest) ss (ss.rt, []) in
        let ss' : Session l s = record ss { rt = end.0; msgs = msgs' } in
        elim (view end.0) [
          | none ↦ (none, ss')
          | some v ↦ (some (uid_validity v dest, (source_uids end.1, uids_in v dest end.1)), ss')
        ]
  ]

  -- `Append`: the validity of the UIDs and the UID, 0 for none
  unfoldable pub append_raw :
      (String → String → Bool)
      → List Label
      → String
      → Raw
      → List String
      → Session l s
      → Option (ℕ × ℕ) × Session l s
  unfolding model_flags
  append_raw fold labels name raw flags ss = elim (resolve_label fold labels name) [
    | none ↦ (none, ss)
    | some dest ↦
        let (res, rt') = ingest_message l s now raw (dest ∷ []) (model_flags flags) ss.rt in
        let ss' : Session l s = record ss { rt = rt' } in
        elim res [
          | none ↦ (none, ss')
          | some id ↦ elim (view rt') [
            | none ↦ (none, ss')
            | some v ↦ (
              some (uid_validity v dest, elim (uid_of v dest id) [ none ↦ 0 | some uid ↦ uid ]),
              ss',
            )
          ]
        ]
  ]

  -- `Create`
  unfoldable pub create_mailbox : String → Session l s → Bool × Session l s
  create_mailbox name ss =
      let (done, rt') = append_apply l s now "user" (label_created name name label_user) ss.rt in
      (done, record ss { rt = rt' })

  -- `Delete`
  unfoldable pub delete_mailbox :
      (String → String → Bool) → List Label → String → Session l s → Bool × Session l s
  delete_mailbox fold labels name ss = elim (resolve_label fold labels name) [
    | none ↦ (false, ss)
    | some id ↦
        let (done, rt') = append_apply l s now "user" (label_deleted id) ss.rt in
        (done, record ss { rt = rt' })
  ]

  -- `Rename`
  unfoldable pub rename_mailbox :
      (String → String → Bool) → List Label → String → String → Session l s → Bool × Session l s
  rename_mailbox fold labels name fresh ss = elim (resolve_label fold labels name) [
    | none ↦ (false, ss)
    | some id ↦
        let (done, rt') = append_apply l s now "user" (label_renamed id fresh) ss.rt in
        (done, record ss { rt = rt' })
  ]

-- `Login`: the runtime of the login, and the limiter
module _ {R : Type 0} where
  unfoldable pub login :
      (String → String → Option R)
      → ℕ
      → String
      → String
      → String
      → Option Limiter
      → Option R × Option Limiter
  login auth now ip name password none = (auth name password, none)
  login auth now ip name password (some lim) =
      let (shut, lim') = any_locked now (ip ∷ name ∷ []) lim in
      if shut then (none, some lim') else elim (auth name password) [
        | none ↦ (none, some (fail now (ip ∷ name ∷ []) lim'))
        | some rt ↦ (some rt, some (success (ip ∷ name ∷ []) lim'))
      ]
