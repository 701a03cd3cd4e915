-- ===== src/Guards/Filter.antt =====
-- internal/filter/filter.go: the chain of scanners. A scanner is a parameter: its name, and its
-- verdict on the bytes of a message.
use vulos_mail.Common.{
  ℕ, ◌≤◌, ◌≡◌, refl, String, List, [], ◌∷◌, ◌++◌, ltb, ◌==◌, if◌then◌else◌, arith, ap, ◌∙◌,
  Bool-cases, inl, inr,
}

pub data Action : Type 0 where
  accept junk reject : Action

-- the number of the constant
unfoldable pub severity : Action → ℕ
severity accept = 0
severity junk = 1
severity reject = 2

pub record Verdict : Type 0 where
  pub action : Action
  pub reason : String

pub record Scanner : Type 0 where
  pub name : String
  pub scan : List ℕ → Verdict

-- the verdict with the scanner's name where it gives no reason
unfoldable pub tagged : Scanner → Verdict → Verdict
tagged s v = if v.reason == "" then record v { reason = s.name } else v

-- `Add`
unfoldable pub add_scanner : Scanner → List Scanner → List Scanner
add_scanner s ss = ss ++ s ∷ []

-- a rejection ends the loop
unfoldable pub stop : Action → Verdict → Verdict → Verdict
stop reject v rest = v
stop _ v rest = rest

-- the loop of `Scan`
unfoldable pub scan_from : Verdict → List Scanner → List ℕ → Verdict
unfolding severity tagged stop
scan_from worst [] raw = worst
scan_from worst (s ∷ ss) raw =
    let v = s.scan raw in
    let rest =
      scan_from (if ltb (severity worst.action) (severity v.action) then tagged s v else worst) ss
        raw in
    stop v.action (tagged s v) rest

unfoldable pub scan_chain : List Scanner → List ℕ → Verdict
unfolding scan_from
scan_chain ss raw = scan_from (record { action = accept; reason = "" }) ss raw

unfoldable pub max : ℕ → ℕ → ℕ
max a b = if ltb a b then b else a

-- the greatest severity that a scanner of the chain gives
unfoldable pub worst_severity : List Scanner → List ℕ → ℕ
unfolding severity max
worst_severity [] raw = 0
worst_severity (s ∷ ss) raw = max (severity (s.scan raw).action) (worst_severity ss raw)

severity_le : (a : Action) → severity a ≤ 2
unfolding severity
severity_le accept = omega arith
severity_le junk = omega arith
severity_le reject = omega arith

worst_le : (ss : List Scanner) (raw : List ℕ) → worst_severity ss raw ≤ 2
unfolding worst_severity max
worst_le [] raw = omega arith
worst_le (s ∷ ss) raw = ground (arith, severity_le (s.scan raw).action, worst_le ss raw)

tagged_action : (s : Scanner) (v : Verdict) → (tagged s v).action ≡ v.action
unfolding tagged
tagged_action s v = ground arith

max_zero : (n : ℕ) → n ≡ max n 0
unfolding max
max_zero n = ground arith

max_zero_left : (n : ℕ) → max 0 n ≡ n
unfolding max
max_zero_left n = ground arith

severity-next :
    (s : Scanner) (worst v : Verdict)
    → severity
        (if ltb (severity worst.action) (severity v.action) then tagged s v else worst).action
      ≡ max (severity worst.action) (severity v.action)
unfolding max
severity-next s worst v = elim (Bool-cases (ltb (severity worst.action) (severity v.action))) [
  | inl more ↦ rw more (ap severity (tagged_action s v))
  | inr less ↦ rw less refl
]

severity-stop :
    (a : Action) (v rest : Verdict) (n w : ℕ)
    → v.action ≡ a
    → severity rest.action ≡ max (max n (severity a)) w
    → n ≤ 2
    → w ≤ 2
    → severity (stop a v rest).action ≡ max n (max (severity a) w)
unfolding severity stop max
severity-stop accept v rest n w e h bn bw = ground (arith, h)
severity-stop junk v rest n w e h bn bw = ground (arith, h)
severity-stop reject v rest n w e h bn bw = ap severity e ∙ (ground (arith, bn, bw))

severity-scan_from :
    (worst : Verdict) (ss : List Scanner) (raw : List ℕ)
    → severity (scan_from worst ss raw).action ≡ max (severity worst.action) (worst_severity ss raw)
unfolding scan_from worst_severity
severity-scan_from worst [] raw = max_zero (severity worst.action)
severity-scan_from worst (s ∷ ss) raw =
    let v = s.scan raw in
    let next = if ltb (severity worst.action) (severity v.action) then tagged s v else worst in
    severity-stop v.action (tagged s v) (scan_from next ss raw) (severity worst.action)
      (worst_severity ss raw) (tagged_action s v)
      (severity-scan_from next ss raw
        ∙ ap (λ n. max n (worst_severity ss raw)) (severity-next s worst v))
      (severity_le worst.action) (worst_le ss raw)

-- The severity of the chain's verdict is the greatest severity of the scanners' verdicts, although a
-- rejection ends the scan.
pub severity-scan_chain :
    (ss : List Scanner) (raw : List ℕ) → severity (scan_chain ss raw).action ≡ worst_severity ss raw
unfolding scan_chain
severity-scan_chain ss raw =
    severity-scan_from (record { action = accept; reason = "" }) ss raw
    ∙ max_zero_left (worst_severity ss raw)
