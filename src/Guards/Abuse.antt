-- ===== src/Guards/Abuse.antt =====
-- internal/abuse/abuse.go: the limit on what an account sends. Two maps with the account as key; a
-- missing entry of `sends` is the empty slice.
pub mod Window
use vulos_mail.Common.{
  ℕ, ◌+◌, ◌≤◌, ◌<◌, ◌≡◌, refl, String, List, [], ◌∷◌, ◌++◌, Bool, true, false, Option, none, some,
  ltb, leb, eqb, if◌then◌else◌, arith, keep, length,
}
use vulos_mail.Common.Map.{Map, lookup, insert, erase, is_some}
use vulos_mail.Guards.Recent.{is_recent}

pub data Action : Type 0 where
  allow throttle block suspend : Action

pub record Config : Type 0 where
  pub window : ℕ
  pub max_per_window : ℕ
  pub max_recipients : ℕ

pub record Filter : Type 0 where
  pub config : Config
  pub sends : Map (List ℕ)
  pub suspended_for : Map String

-- `New`: 0 takes the default
unfoldable pub new_filter : Config → Filter
new_filter cfg = record {
  config = record {
    window = if eqb cfg.window 0 then 3600000000000 else cfg.window;
    max_per_window = if eqb cfg.max_per_window 0 then 200 else cfg.max_per_window;
    max_recipients = if eqb cfg.max_recipients 0 then 100 else cfg.max_recipients;
  };
  sends = [];
  suspended_for = [];
}

unfoldable pub sends_of : Filter → String → List ℕ
sends_of f account = elim (lookup account f.sends) [ none ↦ [] | some ts ↦ ts ]

-- `Check` of an account that is not suspended, after the test on the recipients
unfoldable pub check_rate : ℕ → String → Filter → (Action × String) × Filter
check_rate now account f =
    let kept = keep (is_recent f.config.window now) (sends_of f account) in
    if leb f.config.max_per_window (length kept)
    then ((throttle, "rate limit exceeded"), record f { sends = insert account kept f.sends })
    else ((allow, ""), record f { sends = insert account (kept ++ now ∷ []) f.sends })

-- `Check`
unfoldable pub check : ℕ → String → ℕ → Filter → (Action × String) × Filter
unfolding check_rate
check now account recipients f = elim (lookup account f.suspended_for) [
  | some reason ↦ ((suspend, reason), f)
  | none ↦
      if ltb f.config.max_recipients recipients
      then (
        (suspend, "recipient burst exceeds limit"),
        record f { suspended_for = insert account "recipient burst exceeds limit" f.suspended_for },
      )
      else check_rate now account f
]

-- `Suspended`
unfoldable pub is_suspended : Filter → String → Bool
is_suspended f account = is_some (lookup account f.suspended_for)

-- `Reinstate`
unfoldable pub reinstate : String → Filter → Filter
reinstate account f = record f { suspended_for = erase account f.suspended_for }
