-- ===== src/Imap/Session/Search.antt =====
-- `Search` and `matches` of adapters/imap/server.go. A body that cannot be read is `none`; what package strings and
-- the extraction of text from a message do are parameters.
use vulos_mail.Common.{
  ℕ, ◌+◌, ◌%◌, ◌^◌, String, List, [], ◌∷◌, ◌++◌, Bool, true, false, not, ◌&&◌, ◌||◌, Option, none,
  some, eqb, ltb, if◌then◌else◌,
}
use vulos_mail.Common.Map.{Map, lookup}
use vulos_mail.Common.Text.{cat}
use vulos_mail.Model.{MessageId, BlobRef, Message}
use vulos_mail.Account.{Raw}
use vulos_mail.Imap.Session.{SelMsg, Range}
use vulos_mail.Imap.Session.Flags.{has_imap_flag}

-- the mark of a message in a session
unfoldable pub is_marked : Map Bool → MessageId → Bool
is_marked deleted id = elim (lookup id deleted) [ none ↦ false | some on ↦ on ]

-- the sets, flags and texts of a SEARCH
pub record Criteria : Type 0 where
  pub seq_nums : List (List Range)
  pub uid_sets : List (List Range)
  pub with_flags : List String
  pub not_flags : List String
  pub body_terms : List String
  pub text_terms : List String

-- what `matches` uses of the store and of package strings
pub record Texts : Type 0 where
  pub body : BlobRef → Option Raw
  pub to_text : Raw → String
  pub extract_text : Raw → Option String
  pub lower : String → String
  pub has_part : String → String → Bool

-- what SEARCH answers
pub record SearchData : Type 0 where
  pub min : ℕ
  pub max : ℕ
  pub count : ℕ
  pub seq_all : List ℕ
  pub uid_all : List ℕ

unfoldable pub all_contain : (List Range → ℕ → Bool) → List (List Range) → ℕ → Bool
all_contain contains [] n = true
all_contain contains (r ∷ rs) n = contains r n && all_contain contains rs n

unfoldable pub all_flagged : Bool → Message → Bool → List String → Bool
unfolding has_imap_flag
all_flagged on m deleted [] = true
all_flagged on m deleted (f ∷ fs) =
    (if on then has_imap_flag m deleted f else not (has_imap_flag m deleted f))
    && all_flagged on m deleted fs

unfoldable pub all_parts : Texts → String → List String → Bool
all_parts x hay [] = true
all_parts x hay (t ∷ ts) = x.has_part hay (x.lower t) && all_parts x hay ts

unfoldable pub haystack : Texts → Message → Raw → String
haystack x m raw = elim (x.extract_text raw) [
  | none ↦ x.lower (x.to_text raw)
  | some text ↦ x.lower (cat text (cat " " m.envelope.subject))
]

unfoldable pub has_terms : Texts → Message → List String → Bool
unfolding all_parts haystack
has_terms x m [] = true
has_terms x m (t ∷ ts) = elim (x.body m.blob_ref) [
  | none ↦ false
  | some raw ↦ all_parts x (haystack x m raw) (t ∷ ts)
]

-- `matches`
unfoldable pub is_match : (List Range → ℕ → Bool) → Texts → Map Bool → Criteria → ℕ → SelMsg → Bool
unfolding all_contain all_flagged has_terms is_marked
is_match contains x deleted c n m =
    all_contain contains c.seq_nums n
    && (all_contain contains c.uid_sets m.uid
        && (all_flagged true m.msg (is_marked deleted m.id) c.with_flags
            && (all_flagged false m.msg (is_marked deleted m.id) c.not_flags
                && has_terms x m.msg (c.body_terms ++ c.text_terms))))

-- one match: `by_uid` tells the kind of number
unfoldable pub found_match : Bool → ℕ → SelMsg → SearchData → SearchData
found_match by_uid n m d =
    let num = if by_uid then m.uid else n in
    record {
      min = if eqb d.min 0 || ltb num d.min then num else d.min;
      max = if ltb d.max num then num else d.max;
      count = (d.count + 1) % 2 ^ 32;
      seq_all = if by_uid then d.seq_all else d.seq_all ++ n ∷ [];
      uid_all = d.uid_all ++ m.uid ∷ [];
    }

unfoldable pub search_from : (ℕ → SelMsg → Bool) → Bool → ℕ → List SelMsg → SearchData → SearchData
unfolding found_match
search_from fits by_uid n [] d = d
search_from fits by_uid n (m ∷ ms) d =
    let num = (n + 1) % 2 ^ 32 in
    search_from fits by_uid (n + 1) ms (if fits num m then found_match by_uid num m d else d)

-- `Search`, without the saving of its result
unfoldable pub search :
    (List Range → ℕ → Bool) → Texts → Bool → Criteria → Map Bool → List SelMsg → SearchData
unfolding is_match search_from
search contains x by_uid c deleted msgs =
    search_from (is_match contains x deleted c) by_uid 0 msgs
      (record { min = 0; max = 0; count = 0; seq_all = []; uid_all = [] })
