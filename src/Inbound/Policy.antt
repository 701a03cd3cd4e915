-- ===== src/Inbound/Policy.antt =====
-- The verdict that cmd/vulos-mail/main.go makes of the authentication, and what the MX does with a message
-- that DMARC does not pass.
use vulos_mail.Common.{
  ◌≡◌, String, List, [], Bool, true, false, ◌&&◌, Option, none, some, ◌==◌, if◌then◌else◌, ◌++◌,
  keep, not, All,
}
use vulos_mail.Common.Text.{split_at}
use vulos_mail.Inbound.EmailAuth.{
  Bytes, Checks, Lookup, temp_failed, failed, no_record, found, Signature, Result, is_aligned,
  verify, auth_results, from_domain_of, spf_result, signatures,
}
use vulos_mail.Inbound.Smtp.{
  header_and_rest, fields_of, join_fields, is_untrusted_auth_trace, AuthVerdict, DeliverFunc,
  Backend, Reply, refused, deliver_all,
}

-- the switch of `VerifyVerdict`
unfoldable pub verdict_of : Result → AuthVerdict
verdict_of r =
    let v : AuthVerdict = record {
      auth_results = auth_results r;
      reject = false;
      defer = false;
      quarantine = false;
    } in
    if r.from_malformed
    then record v { reject = true }
    else if r.dmarc == "temperror"
    then record v { defer = true }
    else if r.dmarc == "fail" && r.dmarc_policy == "reject"
    then record v { reject = true }
    else if r.dmarc == "fail" && r.dmarc_policy == "quarantine"
    then record v { quarantine = true }
    else v

module _ (k : Checks) where
  unfoldable pub verify_verdict : Bytes → Option k.Peer → String → String → AuthVerdict
  unfolding verdict_of
  verify_verdict raw peer helo mail_from = verdict_of (verify k raw peer helo mail_from)

-- what the published policy of the sender asks for
pub data Duty : Type 0 where
  refuse put_off to_junk as_usual : Duty

-- the duty on a message whose sender no check speaks for
unfoldable pub duty_under : String → Duty
duty_under policy =
    if policy == "reject" then refuse else if policy == "quarantine" then to_junk else as_usual

unfoldable pub duty_found : Lookup → Bool → Duty
unfolding duty_under
duty_found temp_failed speaks = put_off
duty_found failed speaks = as_usual
duty_found no_record speaks = as_usual
duty_found (found policy) speaks = if speaks then as_usual else duty_under policy

module _ (k : Checks) where
  unfoldable pub duty_of : String × String → List Signature → Option String → Duty
  unfolding duty_found
  duty_of spf dkim none = refuse
  duty_of spf dkim (some domain) = duty_found (k.lookup_dmarc domain) (is_aligned k spf dkim domain)

  unfoldable pub duty : Bytes → Option k.Peer → String → String → Duty
  unfolding duty_of
  duty raw peer helo mail_from =
      duty_of (spf_result k peer helo mail_from) (signatures k raw) (from_domain_of k raw)

module _ {Peer W : Type 0} (b : Backend Peer W) (junk : DeliverFunc W) (rcpts : List String)
    (raw : Bytes) (w : W) where
  unfoldable pub discharge : Duty → Reply × W
  discharge refuse = (refused 550, w)
  discharge put_off = (refused 451, w)
  discharge to_junk = deliver_all junk rcpts raw w
  discharge as_usual = deliver_all b.deliver rcpts raw w

-- What is left of a message: of its header, as far as one is found, fields of it that are no trace of
-- authentication, and the rest as it was.
unfoldable pub IsStripped : (Bytes → Bytes) → Bytes → Bytes → Type 0
IsStripped lower_bytes raw left = elim (header_and_rest raw) [
  | none ↦ left ≡ raw
  | some (header, rest) ↦
      (fs : List Bytes) × ((left ≡ join_fields fs ++ rest)
        × ((fs
              ≡ keep (λ f. not (is_untrusted_auth_trace lower_bytes f))
                  (fields_of [] (split_at 10 header)))
            × All (λ f. is_untrusted_auth_trace lower_bytes f ≡ false) fs))
]
