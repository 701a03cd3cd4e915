-- ===== src/Guards/Abuse/Window.antt =====
-- Calls for one account over time, internal/abuse/abuse.go.
use vulos_mail.Common.{
  ℕ, ◌≤◌, ◌≡◌, refl, ap, sym, ◌∙◌, String, List, [], ◌∷◌, ◌++◌, Bool, true, false, ltb, leb,
  if◌then◌else◌, arith, keep, length, length-append, length-keep-le, subst, keep-append, Bool-cases,
  Option-cases, inl, inr, str_eq_refl, leb_false→lt,
}
use mathlib.Core.Path.{subst₂}
use mathlib.Core.List.{append-nil}
use vulos_mail.Common.Map.{Map, lookup, insert, lookup-insert}
use vulos_mail.Guards.Recent.{is_recent, keep-recent_twice}
use vulos_mail.Guards.Abuse.{
  new_filter, Action, allow, Config, Filter, sends_of, check_rate, check, reinstate,
}

-- a call of the filter: a check with its recipients, or a reinstatement
pub data Call : Type 0 where
  checked : ℕ → Call
  reinstated : Call

unfoldable pub allows : Action → Bool
allows allow = true
allows _ = false

unfoldable pub outcome : ℕ → String → Call → Filter → Bool × Filter
unfolding allows
outcome now account (checked n) f = let (res, f') = check now account n f in (allows res.0, f')
outcome now account reinstated f = (false, reinstate account f)

-- the calls for one account in order: the last filter, and the times of the checks that were allowed
unfoldable pub run_calls : String → List (ℕ × Call) → Filter × List ℕ → Filter × List ℕ
unfolding outcome
run_calls account [] s = s
run_calls account ((now, c) ∷ cs) (f, log) =
    let (ok, f') = outcome now account c f in
    run_calls account cs (f', if ok then log ++ now ∷ [] else log)

-- the calls are in order, at times from `t` on
unfoldable pub Ascending : ℕ → List (ℕ × Call) → Type 0
Ascending t [] = Unit
Ascending t ((now, c) ∷ cs) = (t ≤ now) × Ascending now cs

-- the time of the last call, or `t`
unfoldable pub last_time : ℕ → List (ℕ × Call) → ℕ
last_time t [] = t
last_time t ((now, c) ∷ cs) = last_time now cs

-- what is recent at a later time of the sends, is the filter's
record IsTracked (cfg : Config) (account : String) (t : ℕ) (s : Filter × List ℕ) : Type 0 where
  same :
      (now : ℕ)
      → t ≤ now
      → keep (is_recent s.0.config.window now) s.1
        ≡ keep (is_recent s.0.config.window now) (sends_of s.0 account)
  steady : s.0.config ≡ cfg
  few : length (sends_of s.0 account) ≤ s.0.config.max_per_window

-- later, and with other suspensions
later :
    (cfg : Config) (account : String) (t now : ℕ) (f : Filter) (log : List ℕ) (sus : Map String)
    → t ≤ now
    → IsTracked cfg account t (f, log)
    → IsTracked cfg account now (record f { suspended_for = sus }, log)
unfolding sends_of
later cfg account t now f log sus le k = record {
  same = λ n h. k.same n (omega arith);
  steady = k.steady;
  few = k.few;
}

sends_of-insert :
    (account : String) (ts : List ℕ) (f : Filter)
    → sends_of (record f { sends = insert account ts f.sends }) account ≡ ts
unfolding sends_of
sends_of-insert account ts f =
    ground (arith, lookup-insert account account ts f.sends, str_eq_refl account)

-- the old times are dropped, and `extra` is noted
noted :
    (cfg : Config) (account : String) (t now : ℕ) (f : Filter) (log extra : List ℕ)
    → t ≤ now
    → length (keep (is_recent f.config.window now) (sends_of f account) ++ extra)
      ≤ f.config.max_per_window
    → IsTracked cfg account t (f, log)
    → IsTracked cfg account now (
      record f {
        sends =
            insert account
              (keep (is_recent f.config.window now) (sends_of f account) ++ extra)
              f.sends;
      },
      log ++ extra,
    )
noted cfg account t now f log extra le room k =
    let kept = keep (is_recent f.config.window now) (sends_of f account) in
    record {
      same = λ n h.
          keep-append (is_recent f.config.window n) log extra
          ∙ ap (λ x. x ++ keep (is_recent f.config.window n) extra)
              (k.same n (omega arith)
                ∙ sym (keep-recent_twice f.config.window now n (sends_of f account) h))
          ∙ sym (keep-append (is_recent f.config.window n) kept extra)
          ∙ ap (keep (is_recent f.config.window n))
              (sym (sends_of-insert account (kept ++ extra) f));
      steady = k.steady;
      few = rw (sends_of-insert account (kept ++ extra) f) room;
    }

rate-IsTracked :
    (cfg : Config) (account : String) (t now : ℕ) (f : Filter) (log : List ℕ)
    → t ≤ now
    → IsTracked cfg account t (f, log)
    → let r = check_rate now account f in
      IsTracked cfg account now (r.1, if allows r.0.0 then log ++ now ∷ [] else log)
unfolding check_rate allows
rate-IsTracked cfg account t now f log le k =
    let kept = keep (is_recent f.config.window now) (sends_of f account) in
    elim (Bool-cases (leb f.config.max_per_window (length kept))) [
      | inl full ↦ rw full (
          subst₂
            (λ a b. IsTracked cfg account now (record f { sends = insert account a f.sends }, b))
            (append-nil kept) (append-nil log)
            (noted cfg account t now f log [] le
              (rw (length-append kept []) (
                omega (
                  arith,
                  k.few,
                  length-keep-le (is_recent f.config.window now) (sends_of f account),
                )))
              k))
      | inr room ↦ rw room (
          noted cfg account t now f log (now ∷ []) le
            (rw (length-append kept (now ∷ []))
              (omega (arith, leb_false→lt f.config.max_per_window (length kept) room)))
            k)
    ]

outcome-IsTracked :
    (cfg : Config) (account : String) (t now : ℕ) (c : Call) (f : Filter) (log : List ℕ)
    → t ≤ now
    → IsTracked cfg account t (f, log)
    → let r = outcome now account c f in
      IsTracked cfg account now (r.1, if r.0 then log ++ now ∷ [] else log)
unfolding outcome check allows reinstate
outcome-IsTracked cfg account t now (checked n) f log le k =
    elim (Option-cases (lookup account f.suspended_for)) [
      | inl none_e ↦ elim (Bool-cases (ltb f.config.max_recipients n)) [
        | inl burst ↦ rw (outcome, check, none_e, burst) (later cfg account t now f log _ le k)
        | inr usual ↦
            rw (outcome, check, none_e, usual) (rate-IsTracked cfg account t now f log le k)
      ]
      | inr (reason, e) ↦
          rw (outcome, check, e) (later cfg account t now f log f.suspended_for le k)
    ]
outcome-IsTracked cfg account t now reinstated f log le k = later cfg account t now f log _ le k

run_calls-IsTracked :
    (cfg : Config) (account : String) (t : ℕ) (cs : List (ℕ × Call)) (s : Filter × List ℕ)
    → Ascending t cs
    → IsTracked cfg account t s
    → IsTracked cfg account (last_time t cs) (run_calls account cs s)
unfolding run_calls Ascending last_time
run_calls-IsTracked cfg account t [] s a k = k
run_calls-IsTracked cfg account t ((now, c) ∷ cs) (f, log) (le, a) k =
    run_calls-IsTracked cfg account now cs _ a (outcome-IsTracked cfg account t now c f log le k)

new-IsTracked :
    (cfg : Config) (account : String)
    → IsTracked (new_filter cfg).config account 0 (new_filter cfg, [])
unfolding new_filter sends_of lookup
new-IsTracked cfg account = record { same = λ n h. refl; steady = refl; few = omega arith }

-- For every sequence of checks and reinstatements of an account, at times in order, the checks that
-- were allowed in the window before any later time are at most the limit.
pub run_calls-capped :
    (cfg : Config) (account : String) (cs : List (ℕ × Call)) (now : ℕ)
    → Ascending 0 cs
    → last_time 0 cs ≤ now
    → let own = (new_filter cfg).config in
      length (keep (is_recent own.window now) (run_calls account cs (new_filter cfg, [])).1)
      ≤ own.max_per_window
run_calls-capped cfg account cs now a le =
    let own = (new_filter cfg).config in
    let r = run_calls account cs (new_filter cfg, []) in
    let k =
      run_calls-IsTracked own account 0 cs (new_filter cfg, []) a (new-IsTracked cfg account) in
    subst (λ c. length (keep (is_recent c.window now) r.1) ≤ c.max_per_window) k.steady
      (rw (k.same now le) (
        omega
          (arith, k.few, length-keep-le (is_recent r.0.config.window now) (sends_of r.0 account))))
