-- ===== src/Inbound/EmailAuth.antt =====
-- internal/emailauth/emailauth.go and `Verify` of internal/dkim/dkim.go: SPF, DKIM and DMARC of a received
-- message. The SPF check, the verification of signatures, the lookup of DMARC records, the parser of
-- messages and the case folding of package strings are parameters. A peer without an address is `none`.
use vulos_mail.Common.{
  ℕ, ◌+◌, String, List, [], ◌∷◌, ◌++◌, Bool, false, not, ◌&&◌, ◌||◌, Option, none, some, ◌==◌, eqb,
  ltb, leb, if◌then◌else◌,
}
use vulos_mail.Common.Map.{is_some}
use vulos_mail.Common.Text.{
  cat, after_last, has_suffix, trim_dot, without, trim_left, trim_right, has_prefix, split_at,
  ascii,
}
use vulos_mail.Model.{Envelope}

abbrev pub Bytes : Type 0
Bytes = List ℕ

-- one signature that the library has verified
pub record Signature : Type 0 where
  pub domain : String
  pub ok : Bool

-- the outcome of a lookup: a temporary failure, another error, no record, or a record with its policy
pub data Lookup : Type 0 where
  temp_failed failed no_record : Lookup
  found : String → Lookup

pub record Checks : Type 1 where
  pub Peer : Type 0
  pub lower : String → String
  pub lower_bytes : Bytes → Bytes
  pub parse : Bytes → Option Envelope
  pub spf : Peer → String → String → String
  pub verify_signatures : Bytes → Option (List Signature)
  pub lookup_dmarc : String → Lookup

pub record Result : Type 0 where
  pub spf : String
  pub spf_domain : String
  pub dkim : List Signature
  pub dmarc : String
  pub dmarc_policy : String
  pub from_domain : String
  pub from_malformed : Bool

-- a blank line follows the newline
unfoldable pub blank_next : Bytes → Bool
blank_next (x ∷ []) = eqb x 10
blank_next (x ∷ y ∷ rest) = eqb x 10 || (eqb x 13 && eqb y 10)
blank_next [] = false

-- `raw[:bytesIndexHeaderEnd(raw)]`, all of it without a separator
unfoldable pub header_block : Bytes → Bytes
unfolding blank_next
header_block [] = []
header_block (x ∷ rest) =
    let more = header_block rest in if eqb x 10 && blank_next rest then [] else x ∷ more

-- the line begins the field and is no continuation
unfoldable pub is_field : (Bytes → Bytes) → Bytes → Bytes → Bool
is_field lower prefix [] = false
is_field lower prefix (c ∷ ln) = not (eqb c 32 || eqb c 9) && has_prefix prefix (lower (c ∷ ln))

unfoldable pub count_fields : (Bytes → Bytes) → Bytes → List Bytes → ℕ
unfolding is_field
count_fields lower prefix [] = 0
count_fields lower prefix (ln ∷ lns) =
    (if is_field lower prefix ln then 1 else 0) + count_fields lower prefix lns

-- `unicode.IsSpace`
unfoldable pub is_space : ℕ → Bool
is_space c =
    (leb 9 c && leb c 13)
    || (eqb c 32
        || (eqb c 133
            || (eqb c 160
                || (eqb c 5760
                    || ((leb 8192 c && leb c 8202)
                        || (eqb c 8232
                            || (eqb c 8233 || (eqb c 8239 || (eqb c 8287 || eqb c 12288)))))))))

unfoldable pub is_angle : ℕ → Bool
is_angle c = eqb c 60 || eqb c 62

unfoldable pub is_stripped : ℕ → Bool
is_stripped c = (ltb c 32 || eqb c 127) || (eqb c 32 || eqb c 59)

-- the switch of `evalDMARC` on the lookup, by whether a check speaks for the domain
unfoldable pub outcome : Lookup → Bool → String × String
outcome temp_failed speaks = ("temperror", "")
outcome failed speaks = ("none", "")
outcome no_record speaks = ("none", "")
outcome (found policy) speaks = (if speaks then "pass" else "fail", policy)

unfoldable pub result_of :
    String × String → List Signature → Option String → String × String → Result
result_of (spf, spf_domain) dkim domain (dmarc, policy) = record {
  spf = spf;
  spf_domain = spf_domain;
  dkim = dkim;
  dmarc = dmarc;
  dmarc_policy = policy;
  from_domain = elim domain [ none ↦ "" | some d ↦ d ];
  from_malformed = not (is_some domain);
}

module _ (k : Checks) where
  -- `headerFieldCount`
  unfoldable pub header_field_count : Bytes → String → ℕ
  unfolding header_block count_fields
  header_field_count raw field =
      count_fields k.lower_bytes (k.lower_bytes (ascii field) ++ 58 ∷ [])
        (split_at 10 (header_block raw))

  -- `domainOf`
  unfoldable pub domain_of : String → String
  unfolding is_space is_angle is_stripped
  domain_of addr =
      let trimmed =
        trim_left is_angle (trim_right is_angle (trim_left is_space (trim_right is_space addr))) in
      without is_stripped
        (k.lower (elim (after_last 64 trimmed) [ none ↦ trimmed | some domain ↦ domain ]))

  -- `aligned`
  unfoldable pub aligned : String → String → Bool
  aligned a b =
      let x = k.lower (trim_dot a) in
      let y = k.lower (trim_dot b) in
      if x == "" || y == ""
      then false
      else x == y || (has_suffix (cat "." y) x || has_suffix (cat "." x) y)

  unfoldable pub any_aligned : List Signature → String → Bool
  any_aligned [] domain = false
  any_aligned (d ∷ ds) domain = (d.ok && aligned d.domain domain) || any_aligned ds domain

  -- the switch on the number of From fields: the domain, or `none` for a malformed From
  unfoldable pub from_domain_of : Bytes → Option String
  unfolding header_field_count domain_of
  from_domain_of raw =
      if not (eqb (header_field_count raw "From") 1) then none else elim (k.parse raw) [
        | none ↦ none
        | some env ↦ elim (env.from_addrs) [
          | [] ↦ none
          | a ∷ others ↦ elim others [
            | [] ↦ if domain_of a == "" then none else some (domain_of a)
            | b ∷ more ↦ none
          ]
        ]
      ]

  -- SPF or a valid signature speaks for the domain
  unfoldable pub is_aligned : String × String → List Signature → String → Bool
  unfolding any_aligned aligned
  is_aligned (spf, spf_domain) dkim domain =
      (spf == "pass" && aligned spf_domain domain) || any_aligned dkim domain

  -- `evalDMARC`
  unfoldable pub eval_dmarc : String × String → List Signature → Option String → String × String
  unfolding is_aligned outcome
  eval_dmarc spf dkim none = ("fail", "")
  eval_dmarc spf dkim (some domain) = outcome (k.lookup_dmarc domain) (is_aligned spf dkim domain)

  -- the SPF result with its domain
  unfoldable pub spf_result : Option k.Peer → String → String → String × String
  unfolding domain_of
  spf_result none helo mail_from = ("none", "")
  spf_result (some peer) helo mail_from =
      if mail_from == ""
      then ("none", "")
      else (k.lower (k.spf peer helo mail_from), domain_of mail_from)

  -- `dkim.Verify`, nil on an error
  unfoldable pub signatures : Bytes → List Signature
  signatures raw = elim (k.verify_signatures raw) [ none ↦ [] | some ds ↦ ds ]

  -- `Verify`
  unfoldable pub verify : Bytes → Option k.Peer → String → String → Result
  unfolding spf_result signatures from_domain_of eval_dmarc result_of
  verify raw peer helo mail_from =
      let spf = spf_result peer helo mail_from in
      let dkim = signatures raw in
      let domain = from_domain_of raw in result_of spf dkim domain (eval_dmarc spf dkim domain)

-- `AuthResults` of both packages
dkim_result : Signature → String
dkim_result d = cat "dkim=" (cat (if d.ok then "pass" else "fail") (cat " header.d=" d.domain))

unfoldable pub dkim_results : List Signature → String
unfolding dkim_result
dkim_results [] = "dkim=none"
dkim_results (d ∷ []) = dkim_result d
dkim_results (d ∷ e ∷ ds) = cat (dkim_result d) (cat "; " (dkim_results (e ∷ ds)))

unfoldable pub auth_results : Result → String
unfolding dkim_results
auth_results r =
    let tail =
      if r.dmarc == ""
      then dkim_results r.dkim
      else cat (dkim_results r.dkim)
          (cat "; dmarc=" (cat r.dmarc (cat " header.from=" r.from_domain))) in
    if r.spf == ""
    then tail
    else cat "spf=" (cat r.spf (cat " smtp.mailfrom=" (cat r.spf_domain (cat "; " tail))))
