-- ===== src/Inbound/Smtp.antt =====
-- adapters/smtp/smtpin.go: the session of the inbound MX. The state of a session is its envelope; what the
-- callbacks act on is a world of their own. A refusal is its SMTP code, and `failed` an error of a callback.
use vulos_mail.Common.{
  ℕ, String, List, [], ◌∷◌, ◌++◌, Bool, true, false, not, ◌||◌, Option, none, some, ◌==◌, eqb,
  if◌then◌else◌, keep,
}
use vulos_mail.Inbound.EmailAuth.{Bytes}
use vulos_mail.Common.Text.{ascii, cat, has_prefix, split_at}

pub record AuthVerdict : Type 0 where
  pub auth_results : String
  pub reject : Bool
  pub defer : Bool
  pub quarantine : Bool

-- `DeliverFunc`: whether the delivery succeeded
abbrev pub DeliverFunc : Type 0 → Type 0
DeliverFunc W = W → String → Bytes → Bool × W

pub record Backend (Peer W : Type 0) : Type 0 where
  pub deliver : DeliverFunc W
  pub verify : Option (Bytes → Option Peer → String → String → String)
  pub verify_verdict : Option (Bytes → Option Peer → String → String → AuthVerdict)
  pub auth_serv_id : String
  pub known_rcpt : Option (W → String → Bool)
  pub deliver_junk : Option (DeliverFunc W)

pub record Session : Type 0 where
  pub from : String
  pub rcpts : List String

pub data Reply : Type 0 where
  accepted failed : Reply
  refused : ℕ → Reply

-- the offset of the first part, as the bytes before and from it on
unfoldable pub cut_before : Bytes → Bytes → Option (Bytes × Bytes)
cut_before p [] = none
cut_before p (x ∷ xs) =
    let rest = cut_before p xs in
    if has_prefix p (x ∷ xs)
    then some ([], x ∷ xs)
    else elim rest [ none ↦ none | some (a, b) ↦ some (x ∷ a, b) ]

-- `bytes.Index` of CRLF CRLF, else of LF LF
unfoldable pub header_and_rest : Bytes → Option (Bytes × Bytes)
unfolding cut_before
header_and_rest raw = elim (cut_before (13 ∷ 10 ∷ 13 ∷ 10 ∷ []) raw) [
  | some parts ↦ some parts
  | none ↦ cut_before (10 ∷ 10 ∷ []) raw
]

-- `strings.TrimRight(ln, "\r")`
unfoldable pub trim_cr : Bytes → Bytes
trim_cr [] = []
trim_cr (x ∷ xs) = elim (trim_cr xs) [ [] ↦ if eqb x 13 then [] else x ∷ [] | y ∷ ys ↦ x ∷ y ∷ ys ]

-- a line goes to the end of the last field
add_to_last : Bytes → List Bytes → List Bytes
add_to_last l [] = l ∷ []
add_to_last l (f ∷ []) = (f ++ 13 ∷ 10 ∷ l) ∷ []
add_to_last l (f ∷ g ∷ fs) = f ∷ add_to_last l (g ∷ fs)

is_folded : Bytes → Bool
is_folded [] = false
is_folded (c ∷ l) = eqb c 32 || eqb c 9

-- the loop that unfolds the header into its fields
unfoldable pub fields_of : List Bytes → List Bytes → List Bytes
unfolding trim_cr add_to_last is_folded
fields_of fields [] = fields
fields_of fields (ln ∷ lns) = elim (trim_cr ln) [
  | [] ↦ fields_of fields lns
  | c ∷ l ↦
      fields_of (if is_folded (c ∷ l) then add_to_last (c ∷ l) fields else fields ++ (c ∷ l) ∷ [])
        lns
]

abbrev pub stripped_auth_prefixes : List String
stripped_auth_prefixes =
    "authentication-results:" ∷ "received-spf:" ∷ "arc-seal:" ∷ "arc-message-signature:"
    ∷ "arc-authentication-results:" ∷ []

unfoldable pub has_any_prefix : List String → Bytes → Bool
has_any_prefix [] f = false
has_any_prefix (p ∷ ps) f = has_prefix (ascii p) f || has_any_prefix ps f

-- `strings.Join(fields, "\r\n")`
unfoldable pub join_fields : List Bytes → Bytes
join_fields [] = []
join_fields (f ∷ []) = f
join_fields (f ∷ g ∷ fs) = f ++ 13 ∷ 10 ∷ join_fields (g ∷ fs)

module _ (lower_bytes : Bytes → Bytes) where
  -- `isUntrustedAuthTrace`
  unfoldable pub is_untrusted_auth_trace : Bytes → Bool
  unfolding has_any_prefix
  is_untrusted_auth_trace field = has_any_prefix stripped_auth_prefixes (lower_bytes field)

  -- `stripAuthResults`
  unfoldable pub strip_auth_results : Bytes → Bytes
  unfolding header_and_rest fields_of is_untrusted_auth_trace join_fields
  strip_auth_results raw = elim (header_and_rest raw) [
    | none ↦ raw
    | some (header, rest) ↦
        join_fields
          (keep (λ f. not (is_untrusted_auth_trace f)) (fields_of [] (split_at 10 header)))
        ++ rest
  ]

module _ {W : Type 0} where
  -- the loop over the recipients, which stops at the first that fails
  unfoldable pub deliver_all : DeliverFunc W → List String → Bytes → W → Reply × W
  deliver_all deliver [] raw w = (accepted, w)
  deliver_all deliver (r ∷ rs) raw w =
      let (ok, w') = deliver w r raw in
      let rest = deliver_all deliver rs raw w' in if ok then rest else (failed, w')

-- `Reset`
unfoldable pub reset : Session → Session
reset s = record { from = ""; rcpts = [] }

-- `Mail`
unfoldable pub mail_from : String → Session → Session
mail_from sender s = record s { from = sender }

module _ {Peer W : Type 0} where
  -- `Rcpt`
  unfoldable pub rcpt : Backend Peer W → W → String → Session → Reply × Session
  rcpt b w to s =
      if elim (b.known_rcpt) [ none ↦ true | some known ↦ known w to ]
      then (accepted, record s { rcpts = s.rcpts ++ to ∷ [] })
      else (refused 550, s)

  unfoldable pub serv_id : Backend Peer W → String
  serv_id b = if b.auth_serv_id == "" then "vulos-mail" else b.auth_serv_id

  -- the header that is put in front
  unfoldable pub with_results : Backend Peer W → String → Bytes → Bytes
  unfolding serv_id
  with_results b ar raw =
      if ar == ""
      then raw
      else ascii (cat "Authentication-Results: " (cat (serv_id b) (cat "; " ar))) ++ 13 ∷ 10 ∷ raw

  -- after the verdict
  unfoldable pub act_on : Backend Peer W → AuthVerdict → List String → Bytes → W → Reply × W
  unfolding deliver_all with_results
  act_on b v rcpts raw w =
      if v.reject
      then (refused 550, w)
      else if v.defer
      then (refused 451, w)
      else deliver_all
          (if v.quarantine
            then (elim (b.deliver_junk) [ none ↦ b.deliver | some junk ↦ junk ])
            else b.deliver)
          rcpts (with_results b v.auth_results raw) w

  -- `Data` of a message that could be read; `lower_bytes` is strings.ToLower
  unfoldable pub data_of :
      (Bytes → Bytes) → Backend Peer W → Option Peer → String → Session → Bytes → W → Reply × W
  unfolding act_on deliver_all with_results
  data_of lower_bytes b peer helo s raw w = elim (b.verify_verdict) [
    | some verdict ↦
        let clean = strip_auth_results lower_bytes raw in
        act_on b (verdict clean peer helo s.from) s.rcpts clean w
    | none ↦ elim (b.verify) [
      | some check ↦
          let clean = strip_auth_results lower_bytes raw in
          deliver_all b.deliver s.rcpts (with_results b (check clean peer helo s.from) clean) w
      | none ↦ deliver_all b.deliver s.rcpts raw w
    ]
  ]
