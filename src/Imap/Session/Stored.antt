-- ===== src/Imap/Session/Stored.antt =====
-- What STORE of adapters/imap/server.go does to the flags that the session shows.
use vulos_mail.Common.{
  ℕ, ◌≡◌, ◌⊎◌, refl, sym, ap, ◌∙◌, String, List, [], ◌∷◌, Bool, true, false, not, ◌&&◌, ◌||◌, none,
  some, ◌==◌, if◌then◌else◌, elem, arith, eq_iff, inl, inr, str_eq_refl, String-cases, Option-cases,
}
use vulos_mail.Common.Map.{Map, insert, erase, lookup-insert, lookup-erase}
use vulos_mail.Model.{MessageId, Flag, flag_seen, flag_answered, flag_flagged, flag_draft}
use vulos_mail.EventLog.{Log}
use vulos_mail.Projection.{has}
use vulos_mail.Account.{Services}
use vulos_mail.Imap.Session.{
  StoreOp, set_flags, add_flags, del_flags, StoreState, put_model_flag, put_imap_flag,
  put_imap_flags, apply_store,
}
use vulos_mail.Imap.Session.Flags.{
  model_flag, model_to_imap, has_imap_flag, imap_seen, imap_answered, imap_flagged, imap_draft,
  imap_deleted,
}
use vulos_mail.Imap.Session.Search.{is_marked}

has-put_flag :
    (k mf : Flag) (on : Bool) (flags : Map Bool)
    → has k (if on then insert mf true flags else erase mf (insert mf false flags))
      ≡ (if mf == k then on else has k flags)
has-put_flag k mf true flags = ground (arith, lookup-insert mf k true flags)
has-put_flag k mf false flags =
    ground (arith, lookup-insert mf k false flags, lookup-erase mf k (insert mf false flags))

model_to_imap-model_flag : (f : String) (mf : Flag) → model_flag f ≡ some mf → model_to_imap mf ≡ f
unfolding model_flag model_to_imap
model_to_imap-model_flag f mf e = elim (String-cases f imap_seen) [
  | inl seen ↦ named imap_seen flag_seen refl refl seen
  | inr a ↦ elim (String-cases f imap_answered) [
    | inl answered ↦ named imap_answered flag_answered refl refl answered
    | inr b ↦ elim (String-cases f imap_flagged) [
      | inl flagged ↦ named imap_flagged flag_flagged refl refl flagged
      | inr c ↦ elim (String-cases f imap_draft) [
        | inl draft ↦ named imap_draft flag_draft refl refl draft
        | inr d ↦ ground (arith, a, b, c, d, e)
      ]
    ]
  ]
]
  where
    named :
        (g : String) (k : Flag)
        → model_flag g ≡ some k
        → model_to_imap k ≡ g
        → f ≡ g
        → model_to_imap mf ≡ f
    named g k here back own =
        let both : some mf ≡ some k = sym e ∙ (ap model_flag own ∙ here) in
        let same : mf ≡ k = cc in ap model_to_imap same ∙ (back ∙ sym own)

same-model_flag :
    (g f : String) (a b : Flag)
    → model_flag g ≡ some a
    → model_flag f ≡ some b
    → (a == b) ≡ (g == f)
same-model_flag g f a b eg ef = elim (String-cases a b) [
  | inl same ↦
      let texts : g ≡ f =
        sym (model_to_imap-model_flag g a eg)
        ∙ (ap model_to_imap same ∙ model_to_imap-model_flag f b ef) in
      ground (arith, same, texts, eq_iff a b, eq_iff g f)
  | inr differ ↦ elim (String-cases g f) [
    | inl texts ↦
        let both : some a ≡ some b = sym eg ∙ (ap model_flag texts ∙ ef) in
        let same : a ≡ b = cc in ground (arith, differ, same, eq_iff a b)
    | inr others ↦ differ ∙ sym others
  ]
]

-- the flags that IMAP clients see
abbrev pub IsKnown : String → Type 0
IsKnown f = (f ≡ imap_deleted) ⊎ ((mf : Flag) × (model_flag f ≡ some mf))

model_flag-imap_deleted : model_flag imap_deleted ≡ none
unfolding model_flag
model_flag-imap_deleted = refl

-- a flag after STORE, by the operation, whether it is listed, and the flag before
abbrev pub wanted_flag : StoreOp → Bool → Bool → Bool
wanted_flag set_flags listed before = listed
wanted_flag add_flags listed before = listed || before
wanted_flag del_flags listed before = not listed && before

-- the flags that FLAGS clears first
abbrev cleared_flags : List String
cleared_flags = imap_seen ∷ imap_answered ∷ imap_flagged ∷ imap_draft ∷ []

cleared_known : (f : String) → IsKnown f → (imap_deleted == f || elem f cleared_flags) ≡ true
unfolding elem model_flag
cleared_known f (inl deleted) = ground (arith, deleted, eq_iff imap_deleted f)
cleared_known f (inr (mf, e)) = ground (
  arith,
  e,
  eq_iff f imap_seen,
  eq_iff imap_seen f,
  eq_iff f imap_answered,
  eq_iff imap_answered f,
  eq_iff f imap_flagged,
  eq_iff imap_flagged f,
  eq_iff f imap_draft,
  eq_iff imap_draft f,
)

module _ {l : Log} {s : Services} where
  -- the flag as the session shows it
  unfoldable pub is_shown : MessageId → StoreState l s → String → Bool
  is_shown id st f = has_imap_flag st.msg (is_marked st.deleted id) f

  shown-deleted :
      (id : MessageId) (st : StoreState l s) → is_shown id st imap_deleted ≡ is_marked st.deleted id
  unfolding is_shown has_imap_flag
  shown-deleted id st = refl

  shown-model_flag :
      (id : MessageId) (st : StoreState l s) (f : String) (mf : Flag)
      → (f == imap_deleted) ≡ false
      → model_flag f ≡ some mf
      → is_shown id st f ≡ has mf st.msg.flags
  unfolding is_shown has_imap_flag
  shown-model_flag id st f mf other e = rw (is_shown, has_imap_flag, other, e) refl

  shown_other :
      (id : MessageId) (st : StoreState l s) (f : String)
      → (f == imap_deleted) ≡ false
      → model_flag f ≡ none
      → is_shown id st f ≡ false
  unfolding is_shown has_imap_flag
  shown_other id st f other e = rw (is_shown, has_imap_flag, other, e) refl

  module _ (now : ℕ) (id : MessageId) where
    shown-put_deleted :
        (f : String) (on : Bool) (st : StoreState l s)
        → is_shown id (put_imap_flag now id imap_deleted on st) f
          ≡ (if imap_deleted == f then on else is_shown id st f)
    unfolding is_shown put_imap_flag has_imap_flag is_marked
    shown-put_deleted f on st = ground (
      arith,
      eq_iff imap_deleted f,
      eq_iff f imap_deleted,
      lookup-insert id id on st.deleted,
      str_eq_refl id,
    )

    shown-put_model_flag :
        (g f : String) (mg : Flag) (on : Bool) (st : StoreState l s)
        → model_flag g ≡ some mg
        → is_shown id (put_model_flag now id mg on st) f ≡ (if g == f then on else is_shown id st f)
    unfolding put_model_flag
    shown-put_model_flag g f mg on st eg = elim (String-cases f imap_deleted) [
      | inl deleted ↦
          let apart : (g == f) ≡ false = not_same model_flag-imap_deleted deleted in
          rw (deleted, shown-deleted)
            (rw (sym (ap (λ t. g == t) deleted) ∙ apart) (sym (shown-deleted id st)))
      | inr shown ↦ elim (Option-cases (model_flag f)) [
        | inl unknown ↦
            rw
              (
                shown_other id (put_model_flag now id mg on st) f shown unknown,
                not_same unknown refl,
                shown_other id st f shown unknown,
              )
              refl
        | inr (mf, ef) ↦
            shown-model_flag id (put_model_flag now id mg on st) f mf shown ef
            ∙ (has-put_flag mf mg on st.msg.flags
                ∙ rw (same-model_flag g f mg mf eg ef, shown-model_flag id st f mf shown ef) refl)
      ]
    ]
      where
        not_same : {h : String} → model_flag h ≡ none → f ≡ h → (g == f) ≡ false
        not_same {h} none_h own = elim (String-cases g f) [
          | inr differ ↦ differ
          | inl texts ↦
              let both : none ≡ some mg = sym none_h ∙ (ap model_flag (sym own ∙ sym texts) ∙ eg) in
              cc
        ]

    -- one flag, of any name
    shown-put_imap_flag :
        (g f : String) (on : Bool) (st : StoreState l s)
        → IsKnown f
        → is_shown id (put_imap_flag now id g on st) f ≡ (if g == f then on else is_shown id st f)
    unfolding put_imap_flag
    shown-put_imap_flag g f on st known = elim (String-cases g imap_deleted) [
      | inl deleted ↦
          ap (λ h. is_shown id (put_imap_flag now id h on st) f) deleted
          ∙ (shown-put_deleted f on st
              ∙ ap (λ h. if h == f then on else is_shown id st f) (sym deleted))
      | inr other ↦ elim (Option-cases (model_flag g)) [
        | inr (mg, eg) ↦ rw (put_imap_flag, other, eg) (shown-put_model_flag g f mg on st eg)
        | inl unknown ↦ rw (put_imap_flag, other, unknown, unlike known other unknown) refl
      ]
    ]
      where
        unlike : IsKnown f → (g == imap_deleted) ≡ false → model_flag g ≡ none → (g == f) ≡ false
        unlike (inl deleted) other unknown = ap (λ t. g == t) deleted ∙ other
        unlike (inr (mf, ef)) other unknown = elim (String-cases g f) [
          | inr differ ↦ differ
          | inl texts ↦ let both : none ≡ some mf = sym unknown ∙ (ap model_flag texts ∙ ef) in cc
        ]

    shown-put_imap_flags :
        (gs : List String) (f : String) (on : Bool) (st : StoreState l s)
        → IsKnown f
        → is_shown id (put_imap_flags now id gs on st) f
          ≡ (if elem f gs then on else is_shown id st f)
    unfolding put_imap_flags elem
    shown-put_imap_flags [] f on st known = refl
    shown-put_imap_flags (g ∷ gs) f on st known = ground (
      arith,
      shown-put_imap_flags gs f on (put_imap_flag now id g on st) known,
      shown-put_imap_flag g f on st known,
    )

    -- After STORE the session shows of a message, for \Deleted and each flag of the model: with FLAGS exactly the
    -- listed ones, with +FLAGS the listed ones and those from before, and with -FLAGS those from before that are
    -- not listed; whether the log of the account takes the change or not.
    pub shown-apply_store :
        (op : StoreOp) (fs : List String) (f : String) (st : StoreState l s)
        → IsKnown f
        → is_shown id (apply_store now id op fs st) f
          ≡ wanted_flag op (elem f fs) (is_shown id st f)
    unfolding apply_store put_imap_flag put_imap_flags
    shown-apply_store add_flags fs f st known =
        ground (arith, shown-put_imap_flags fs f true st known)
    shown-apply_store del_flags fs f st known =
        ground (arith, shown-put_imap_flags fs f false st known)
    shown-apply_store set_flags fs f st known =
        let cleared : StoreState l s = put_imap_flags now id cleared_flags false st in
        let unmarked : StoreState l s = put_imap_flag now id imap_deleted false cleared in
        let none_left : is_shown id unmarked f ≡ false = ground (
          arith,
          cleared_known f known,
          shown-put_deleted f false cleared,
          shown-put_imap_flags cleared_flags f false st known,
        ) in
        shown-put_imap_flags fs f true unmarked known ∙ ground (arith, none_left)
