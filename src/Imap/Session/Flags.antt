-- ===== src/Imap/Session/Flags.antt =====
-- The mapping of flags at the end of adapters/imap/server.go. The flags of IMAP are the texts of RFC 3501 that
-- go-imap gives to its constants.
use vulos_mail.Common.{
  String, List, [], ◌∷◌, ◌++◌, Bool, false, Option, none, some, ◌==◌, if◌then◌else◌,
}
use vulos_mail.Model.{Flag, Message, flag_seen, flag_answered, flag_flagged, flag_draft}
use vulos_mail.Projection.{has}

abbrev pub imap_seen : String
imap_seen = "\\Seen"

abbrev pub imap_answered : String
imap_answered = "\\Answered"

abbrev pub imap_flagged : String
imap_flagged = "\\Flagged"

abbrev pub imap_draft : String
imap_draft = "\\Draft"

abbrev pub imap_deleted : String
imap_deleted = "\\Deleted"

-- `modelFlag`
unfoldable pub model_flag : String → Option Flag
model_flag f =
    if f == imap_seen
    then some flag_seen
    else if f == imap_answered
    then some flag_answered
    else if f == imap_flagged
    then some flag_flagged
    else if f == imap_draft
    then some flag_draft
    else none

-- `modelToIMAP`
unfoldable pub model_to_imap : Flag → String
model_to_imap f =
    if f == flag_seen
    then imap_seen
    else if f == flag_answered
    then imap_answered
    else if f == flag_flagged
    then imap_flagged
    else if f == flag_draft
    then imap_draft
    else f

-- `toIMAPFlags`
unfoldable pub to_imap_flags : Message → Bool → List String
to_imap_flags m deleted =
    (if has flag_seen m.flags then imap_seen ∷ [] else [])
    ++ ((if has flag_answered m.flags then imap_answered ∷ [] else [])
        ++ ((if has flag_flagged m.flags then imap_flagged ∷ [] else [])
            ++ ((if has flag_draft m.flags then imap_draft ∷ [] else [])
                ++ (if deleted then imap_deleted ∷ [] else []))))

-- `hasIMAPFlag`
unfoldable pub has_imap_flag : Message → Bool → String → Bool
unfolding model_flag
has_imap_flag m deleted f =
    if f == imap_deleted
    then deleted
    else elim (model_flag f) [ none ↦ false | some mf ↦ has mf m.flags ]
