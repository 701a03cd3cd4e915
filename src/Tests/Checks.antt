-- ===== src/Tests/Checks.antt =====
-- The scanners and the limits at small inputs.
use vulos_mail.Common.{
  ◌==◌, map, not, keep, ℕ, ◌+◌, ◌≡◌, ◌≤◌, refl, List, [], ◌∷◌, ◌++◌, ◌&&◌, ltb, leb, length, eqb,
  if◌then◌else◌, arith,
}
use vulos_mail.Guards.Recent.{is_recent}
use vulos_mail.Guards.Filter.{
  Scanner, accept, junk, reject, severity, scan_chain, worst_severity, severity-scan_chain,
}
use vulos_mail.Guards.Abuse
use vulos_mail.Guards.Abuse.Window.{
  Call, checked, reinstated, run_calls, Ascending, last_time, run_calls-capped,
}
use vulos_mail.Common.{String, true}
use vulos_mail.Guards.Snooze.{Item, MemStore, drain, Ordered, is_due, Ordered-drain}
use vulos_mail.Guards.Authlimit
use vulos_mail.Guards.Authlimit.Lockout.{Within, fail_times, locked-fail_times}

abbrev long : Scanner
long = record {
  name = "size";
  scan = λ raw. record { action = if ltb 2 (length raw) then junk else accept; reason = "" };
}

abbrev banned : Scanner
banned = record {
  name = "virus";
  scan = λ raw. record { action = if eqb (length raw) 4 then reject else accept; reason = "" };
}

severity-scan_chain_example :
    severity (scan_chain (long ∷ banned ∷ []) (1 ∷ 2 ∷ 3 ∷ [])).action
    ≡ worst_severity (long ∷ banned ∷ []) (1 ∷ 2 ∷ 3 ∷ [])
severity-scan_chain_example = severity-scan_chain (long ∷ banned ∷ []) (1 ∷ 2 ∷ 3 ∷ [])

abbrev limit : Abuse.Config
limit = record { window = 10; max_per_window = 2; max_recipients = 5 }

abbrev calls : List (ℕ × Call)
calls =
    (1, checked 1)
    ∷ (2, checked 1)
    ∷ (3, checked 1)
    ∷ (4, checked 9)
    ∷ (5, reinstated)
    ∷ (12, checked 1)
    ∷ []

in_order : Ascending 0 calls
unfolding Ascending
in_order =
    (omega arith, (omega arith, (omega arith, (omega arith, (omega arith, (omega arith, tt))))))

past : last_time 0 calls ≤ 13
unfolding last_time
past = omega arith

run_calls-capped_example :
    let own = (Abuse.new_filter limit).config in
    length (keep (is_recent own.window 13) (run_calls "ann" calls (Abuse.new_filter limit, [])).1)
    ≤ own.max_per_window
run_calls-capped_example = run_calls-capped limit "ann" calls 13 in_order past

abbrev logins : Authlimit.Config
logins = record { max_failures = 3; window = 10; lockout = 20 }

in_window : Within (Authlimit.new_limiter logins).config.window 3 ((1 ∷ 2 ∷ []) ++ 3 ∷ [])
unfolding Within Authlimit.new_limiter
in_window =
    ((omega arith, omega arith), ((omega arith, omega arith), ((omega arith, omega arith), tt)))

locked-fail_times_example :
    (Authlimit.locked 9 "ann"
      (fail_times "ann" ((1 ∷ 2 ∷ []) ++ 3 ∷ []) (Authlimit.new_limiter logins))).0
    ≡ (leb (Authlimit.new_limiter logins).config.max_failures (2 + 1)
        && ltb 9 (3 + (Authlimit.new_limiter logins).config.lockout))
locked-fail_times_example = locked-fail_times logins "ann" (1 ∷ 2 ∷ []) 3 9 refl in_window

abbrev wake : String → ℕ → Item
wake id due = record { id = id; account = "ann"; kind = "snooze"; due_at = due; payload = [] }

abbrev waiting : MemStore
waiting = ("a", wake "a" 9) ∷ ("b", wake "b" 3) ∷ ("c", wake "c" 12) ∷ []

Ordered-drain_example :
    Ordered (λ a b. true) 10 (drain (λ a b. true) 10 waiting).0
    × (length (keep (λ x. x.id == "i") (drain (λ a b. true) 10 waiting).0)
        ≡ length (
            keep
              (λ x. x.id == "i")
              (map (λ (x : String × Item). x.1) (keep (is_due (λ a b. true) 10) waiting))))
    × ((drain (λ a b. true) 10 waiting).1 ≡ keep (λ x. not (is_due (λ a b. true) 10 x)) waiting)
Ordered-drain_example = Ordered-drain (λ a b. true) 10 waiting (λ x. x.id == "i")
